-- ===== src/Selection.antt =====
-- cpp/arcae/selection.h: Selection and SelectionBuilder.
-- A span is the list of the index values that it views: the vectors behind the spans outlive them.
-- The values of an integral vector are those of int64_t, to which the builder converts them.
pub mod Lookup
use mathlib.Core.List.{reverse}
use casa_arrow.Base.{
  ℕ, zero, suc, ◌+◌, ◌-◌, Bool, true, false, not, ◌&&◌, List, [], ◌∷◌, ◌++◌, length, get_or, all,
  ltb, if◌then◌else◌, Result, ok, err, index_error,
}
use casa_arrow.Base.Int.{ℤ, pos, ◌-ℤ◌, is_negative, ltb_ℤ, to_ℕ}

-- Index: a vector of index values; IndexSpan: a view of one.
abbrev pub Index : Type 0
Index = List ℤ

abbrev pub is_empty {ℓ} : {A : Type ℓ} → List A → Bool
is_empty [] = true
is_empty (x ∷ xs) = false

pub record Selection : Type 0 where
  pub indices : List Index
  pub spans : List Index

-- The span at a dimension; an empty one outside, where the source forbids the call.
abbrev pub span_at : Selection → ℕ → Index
span_at s dim = get_or s.spans dim []

unfoldable pub size : Selection → ℕ
size s = length s.spans

unfoldable pub n_indices : Selection → ℕ
n_indices s = length s.indices

unfoldable pub is_valid : Selection → ℕ → Bool
unfolding size
is_valid s dim = ltb dim (size s) && not (is_empty (span_at s dim))

-- operator bool
unfoldable pub exists_everywhere : Selection → Bool
exists_everywhere s = if is_empty s.spans then false else all (λ span. not (is_empty span)) s.spans

-- operator[]
unfoldable pub at : Selection → ℕ → Index
at s dim = span_at s dim

unfoldable pub has_row_span : Selection → Bool
unfolding size
has_row_span s = not (is_empty s.spans) && not (is_empty (span_at s (size s - 1)))

unfoldable pub get_row_span : Selection → Index
unfolding size
get_row_span s = span_at s (size s - 1)

-- The common body of CSpan and FSpan, at the signed dimension that they compute.
unfoldable pub span_at_signed : Selection → ℤ → Result Index
span_at_signed s sdim =
    if not (is_negative sdim)
      && ltb_ℤ sdim (pos (length s.spans))
      && not (is_empty (span_at s (to_ℕ sdim)))
    then ok (span_at s (to_ℕ sdim))
    else err index_error

-- CSpan
unfoldable pub c_span : Selection → ℕ → Result Index
unfolding size span_at_signed
c_span s cdim = span_at_signed s (pos (size s) -ℤ pos cdim -ℤ pos 1)

-- FSpan with the number of dimensions
unfoldable pub f_span_of : Selection → ℕ → ℕ → Result Index
unfolding size span_at_signed
f_span_of s fdim ndim = span_at_signed s (pos (fdim + size s) -ℤ pos ndim)

-- FSpan
unfoldable pub f_span : Selection → ℕ → Result Index
unfolding f_span_of size
f_span s fdim = f_span_of s fdim (size s)

pub data SelectionOrder : Type 0 where
  c_order f_order : SelectionOrder

pub record SelectionBuilder : Type 0 where
  pub builder_indices : List Index
  pub builder_spans : List Index
  pub builder_order : SelectionOrder

abbrev pub new_builder : SelectionBuilder
new_builder = record { builder_indices = []; builder_spans = []; builder_order = c_order }

unfoldable pub in_order : SelectionOrder → List Index → List Index
in_order c_order spans = reverse spans
in_order f_order spans = spans

-- Build
unfoldable pub build : SelectionBuilder → Selection
unfolding in_order
build b = record { indices = b.builder_indices; spans = in_order b.builder_order b.builder_spans }

-- Order: 'F', or anything else for C order
unfoldable pub set_order : SelectionBuilder → Bool → SelectionBuilder
set_order b is_f = record b { builder_order = if is_f then f_order else c_order }

-- What Add takes, one constructor for each overload and integral type.
pub data Ids : Type 0 where
  -- const IndexSpan&
  span_ids : Index → Ids
  -- const std::vector<IndexType>&, which is not copied
  borrowed_ids : Index → Ids
  -- a vector of another integral type, which is converted into a stored copy
  converted_ids : Index → Ids
  -- std::vector<IndexType>&&
  moved_ids : Index → Ids
  -- std::initializer_list
  listed_ids : Index → Ids

abbrev pub values : Ids → Index
values (span_ids ids) = ids
values (borrowed_ids ids) = ids
values (converted_ids ids) = ids
values (moved_ids ids) = ids
values (listed_ids ids) = ids

-- A view of ids that live elsewhere.
unfoldable pub add_view : SelectionBuilder → Index → SelectionBuilder
add_view b ids = record b { builder_spans = b.builder_spans ++ ids ∷ [] }

-- Ids stored in the builder, and a view of them.
unfoldable pub add_stored : SelectionBuilder → Index → SelectionBuilder
add_stored b ids = record b {
  builder_indices = b.builder_indices ++ ids ∷ [];
  builder_spans = b.builder_spans ++ ids ∷ [];
}

unfoldable pub add_empty : SelectionBuilder → SelectionBuilder
add_empty b = record b { builder_spans = b.builder_spans ++ [] ∷ [] }

unfoldable pub add : SelectionBuilder → Ids → SelectionBuilder
unfolding add_view add_stored
add b (span_ids ids) = add_view b ids
add b (borrowed_ids ids) = add_view b ids
add b (converted_ids ids) = add_stored b ids
add b (moved_ids ids) = add_stored b ids
add b (listed_ids ids) = add_stored b ids

unfoldable pub process_args : SelectionBuilder → List Ids → SelectionBuilder
unfolding add
process_args b [] = b
process_args b (head ∷ args) = process_args (add b head) args

unfoldable pub from_args : List Ids → Selection
unfolding process_args set_order build
from_args args = build (set_order (process_args new_builder args) true)

-- The loop of FromInit over the initializer lists.
unfoldable pub add_all : SelectionBuilder → List Index → SelectionBuilder
unfolding add
add_all b [] = b
add_all b (il ∷ init_list) = add_all (add b (listed_ids il)) init_list

unfoldable pub from_init : List Index → Selection
unfolding add_all build
from_init init_list = build (add_all new_builder init_list)
