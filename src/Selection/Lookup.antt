-- ===== src/Selection/Lookup.antt =====
-- How a span is found again by its C and FORTRAN dimension.
use mathlib.Core.List.{reverse, append_assoc, append-nil}
use casa_arrow.Base.{
  ℕ, ◌+◌, ◌-◌, ◌<◌, ◌≡◌, refl, ◌∙◌, ap, sym, List, [], ◌∷◌, ◌++◌, map, length, get_or,
  length-reverse, get_or-reverse, length-map, if◌then◌else◌, Result, ok, err, index_error, arith,
}
use casa_arrow.Selection.{
  Index, Selection, SelectionBuilder, new_builder, Ids, values, is_empty, span_at, span_at_signed,
  size, c_span, f_span_of, f_span, add, process_args, from_args, add_all, from_init, listed_ids,
  span_ids, borrowed_ids, converted_ids, moved_ids,
}

-- A span as FSpan and CSpan return it: an error when there is nothing in it.
abbrev pub found : Index → Result Index
found span = if is_empty span then err index_error else ok span

-- FSpan aligns the selection with the last of ndim dimensions.
pub f_span_of_lem :
    (s : Selection) (fdim ndim k : ℕ)
    → k < length s.spans
    → fdim + length s.spans ≡ ndim + k
    → f_span_of s fdim ndim ≡ found (span_at s k)
unfolding f_span_of span_at_signed size
f_span_of_lem s fdim ndim k h e =
    let below : k ≡ fdim + length s.spans - ndim = omega arith in rw below (ground arith)

-- A leading dimension that the selection does not reach has none.
pub f_span_of-none :
    (s : Selection) (fdim ndim : ℕ)
    → fdim + length s.spans < ndim
    → f_span_of s fdim ndim ≡ err index_error
unfolding f_span_of span_at_signed size
f_span_of-none s fdim ndim h = ground arith

pub c_span_lem :
    (s : Selection) (cdim k : ℕ)
    → cdim + k + 1 ≡ length s.spans
    → c_span s cdim ≡ found (span_at s k)
unfolding c_span span_at_signed size
c_span_lem s cdim k e =
    let below : k ≡ length s.spans - cdim - 1 = omega arith in rw below (ground arith)

-- The same dimension counted from either end has the same span, or is an error from either end.
pub c_span-eq-f_span :
    (s : Selection) (cdim fdim : ℕ) → cdim + fdim + 1 ≡ size s → c_span s cdim ≡ f_span s fdim
unfolding size f_span
c_span-eq-f_span s cdim fdim e =
    c_span_lem s cdim fdim e
    ∙ sym (f_span_of_lem s fdim (length s.spans) fdim (omega arith) (omega arith))

add_all-spans :
    (b : SelectionBuilder) (init_list : List Index)
    → ((add_all b init_list).builder_spans ≡ b.builder_spans ++ init_list)
      × ((add_all b init_list).builder_order ≡ b.builder_order)
unfolding add_all
add_all-spans b [] = (sym (append-nil b.builder_spans), refl)
add_all-spans b (il ∷ init_list) =
    let (spans, order) = add_all-spans (add b (listed_ids il)) init_list in
    (spans ∙ append_assoc b.builder_spans (il ∷ []) init_list, order)

process_args-spans :
    (b : SelectionBuilder) (args : List Ids)
    → (process_args b args).builder_spans ≡ b.builder_spans ++ map values args
unfolding process_args
process_args-spans b [] = sym (append-nil b.builder_spans)
process_args-spans b (head ∷ args) = process_args-spans (add b head) args ∙ rest head
  where
    rest :
        (ids : Ids)
        → (add b ids).builder_spans ++ map values args
          ≡ b.builder_spans ++ values ids ∷ map values args
    rest (span_ids ids) = append_assoc b.builder_spans (ids ∷ []) (map values args)
    rest (borrowed_ids ids) = append_assoc b.builder_spans (ids ∷ []) (map values args)
    rest (converted_ids ids) = append_assoc b.builder_spans (ids ∷ []) (map values args)
    rest (moved_ids ids) = append_assoc b.builder_spans (ids ∷ []) (map values args)
    rest (listed_ids ids) = append_assoc b.builder_spans (ids ∷ []) (map values args)

from_init-spans : (init_list : List Index) → (from_init init_list).spans ≡ reverse init_list
unfolding from_init
from_init-spans init_list =
    let (spans, order) = add_all-spans new_builder init_list in rw (order, spans)

from_args-spans : (args : List Ids) → (from_args args).spans ≡ map values args
unfolding from_args
from_args-spans args = process_args-spans new_builder args

-- FromInit takes the dimensions in C order: the i-th list is what CSpan(i) returns, an error
-- if that list is empty.
pub c_span-from_init :
    (init_list : List Index) (i : ℕ)
    → i < length init_list
    → c_span (from_init init_list) i ≡ found (get_or init_list i [])
c_span-from_init init_list i h =
    let k = length init_list - i - 1 in
    let spans = from_init-spans init_list in
    c_span_lem (from_init init_list) i k (omega (arith, ap length spans, length-reverse init_list))
    ∙ ap found (ap (λ l. get_or l k []) spans ∙ get_or-reverse init_list k i [] (omega arith))

-- FromArgs takes the dimensions in FORTRAN order: the i-th argument is what FSpan(i) returns.
pub f_span-from_args :
    (args : List Ids) (i : ℕ)
    → i < length args
    → f_span (from_args args) i ≡ found (get_or (map values args) i [])
unfolding f_span size
f_span-from_args args i h =
    let spans = from_args-spans args in
    f_span_of_lem (from_args args) i (length (from_args args).spans) i
      (omega (arith, ap length spans, length-map args values)) (omega arith)
    ∙ ap (λ l. found (get_or l i [])) spans
