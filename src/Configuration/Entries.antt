-- ===== src/Configuration/Entries.antt =====
-- Get and Set of cpp/arcae/configuration.h and configuration.cc.
use Prim.Native.String.{String, compare}
use Prim.Native.Nat.{Ordering}
use text.Mathlib.TextEquality.{path_by_compare}
use text.Mathlib.TextPositions.{compare_refl}
use casa_arrow.Base.{
  ◌≡◌, refl, ◌∙◌, sym, ap, ap₂, inl, inr, true, false, Bool-cases, [], ◌∷◌, if◌then◌else◌, ok,
}
use casa_arrow.Configuration.{KvMap, same_key, set_key, get_key}

same_key-path : (s t : String) → same_key s t ≡ true → s ≡ t
same_key-path s t h = path_by_compare s t (is_eq (compare s t) h)
  where
    is_eq : (o : Ordering) → elim o [ Ordering.eq ↦ true | _ ↦ false ] ≡ true → o ≡ Ordering.eq
    is_eq Ordering.eq h = refl
    is_eq Ordering.lt h = cc
    is_eq Ordering.gt h = cc

gt-ne-eq : Ordering.gt ≡ Ordering.eq → ⊥
gt-ne-eq e = cc

module _ (key value wanted other old : String) (kvmap : KvMap) where
  Law : KvMap → Type 0
  Law after = get_key after wanted ≡ (
      if same_key wanted key
      then ok value
      else if same_key wanted other
      then ok old
      else get_key kvmap wanted)

  replaced : compare key other ≡ Ordering.eq → Law ((other, value) ∷ kvmap)
  unfolding Law get_key
  replaced e =
      let same = ap (same_key wanted) (path_by_compare key other e) in
      elim (Bool-cases (same_key wanted other)) [
        | inl h ↦ rw (same, h) refl
        | inr h ↦ rw (same, h) refl
      ]

  behind :
      (rest : KvMap)
      → compare key other ≡ Ordering.gt
      → get_key rest wanted ≡ (if same_key wanted key then ok value else get_key kvmap wanted)
      → Law ((other, old) ∷ rest)
  unfolding Law get_key
  behind rest e ih = elim (Bool-cases (same_key wanted other)) [
    | inr h ↦ rw h ih
    | inl h ↦ elim (Bool-cases (same_key wanted key)) [
      | inr k ↦ rw (h, k) refl
      | inl k ↦
          let at_other = same_key-path wanted other h in
          let at_key = same_key-path wanted key k in
          absurd (gt-ne-eq (sym e ∙ ap₂ compare (sym at_key) (sym at_other) ∙ compare_refl wanted))
    ]
  ]

-- Behind Set of a key, Get finds its value, and for every other key what it found before.
pub get_key-set_key :
    (kvmap : KvMap) (key value wanted : String)
    → get_key (set_key kvmap key value) wanted
      ≡ (if same_key wanted key then ok value else get_key kvmap wanted)
unfolding get_key set_key
get_key-set_key [] key value wanted = refl
get_key-set_key ((other, old) ∷ kvmap) key value wanted =
    compared (compare key other) refl (get_key-set_key kvmap key value wanted)
  where
    compared :
        (o : Ordering)
        → compare key other ≡ o
        → get_key (set_key kvmap key value) wanted
          ≡ (if same_key wanted key then ok value else get_key kvmap wanted)
        → get_key
            (elim o [
              | Ordering.lt ↦ (key, value) ∷ (other, old) ∷ kvmap
              | Ordering.eq ↦ (other, value) ∷ kvmap
              | Ordering.gt ↦ (other, old) ∷ set_key kvmap key value
            ])
            wanted
          ≡ (if same_key wanted key
              then ok value
              else if same_key wanted other
              then ok old
              else get_key kvmap wanted)
    compared Ordering.lt e ih = refl
    compared Ordering.eq e ih = unfold Law in replaced key value wanted other old kvmap e
    compared Ordering.gt e ih =
        unfold Law in behind key value wanted other old kvmap (set_key kvmap key value) e ih
