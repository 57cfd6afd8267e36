-- ===== src/Configuration.antt =====
-- cpp/arcae/configuration.h and configuration.cc: a std::map of strings, here the list of its
-- entries in the order of their keys.
pub mod Entries
use Prim.Native.String.{String, compare}
use Prim.Native.Nat.{Ordering}
use casa_arrow.Base.{
  ℕ, Bool, true, false, List, [], ◌∷◌, map, length, if◌then◌else◌, Result, ok, err, key_error,
}

abbrev pub KvMap : Type 0
KvMap = List (String × String)

-- The keys are equal.
abbrev pub same_key : String → String → Bool
same_key key other = elim (compare key other) [ Ordering.eq ↦ true | _ ↦ false ]

unfoldable pub n_entries : KvMap → ℕ
n_entries kvmap = length kvmap

unfoldable pub get_keys : KvMap → List String
get_keys kvmap = map (λ (kv : String × String). kv.0) kvmap

unfoldable pub set_key : KvMap → String → String → KvMap
set_key [] key value = (key, value) ∷ []
set_key ((other, old) ∷ kvmap) key value = elim (compare key other) [
  | Ordering.lt ↦ (key, value) ∷ (other, old) ∷ kvmap
  | Ordering.eq ↦ (other, value) ∷ kvmap
  | Ordering.gt ↦ (other, old) ∷ set_key kvmap key value
]

-- Get
unfoldable pub get_key : KvMap → String → Result String
get_key [] key = err key_error
get_key ((other, value) ∷ kvmap) key = if same_key key other then ok value else get_key kvmap key

unfoldable pub get_default : KvMap → String → String → String
unfolding get_key
get_default kvmap key default_value = elim (get_key kvmap key) [
  | ok value ↦ value
  | err c ↦ default_value
]

-- Delete: the map behind it, and what it returns.
unfoldable pub erase_key : KvMap → String → KvMap
erase_key [] key = []
erase_key ((other, value) ∷ kvmap) key =
    let rest = erase_key kvmap key in if same_key key other then kvmap else (other, value) ∷ rest

unfoldable pub delete_key : KvMap → String → KvMap × Result Bool
unfolding erase_key get_key
delete_key kvmap key = elim (get_key kvmap key) [
  | ok value ↦ (erase_key kvmap key, ok true)
  | err c ↦ (kvmap, err key_error)
]
