-- ===== src/Reading/Whole/Steps.antt =====
-- The steps of cpp/arcae/read_impl.cc for a column of fixed shape of which nothing is selected.
use mathlib.Core.List.{append-nil, append_assoc, map-append}
use casa_arrow.Base.{
  ℕ, zero, suc, ◌+◌, ◌-◌, ◌*◌, ◌≤◌, ◌<◌, ◌≡◌, refl, ◌∙◌, sym, ap, ap₂, false, some, List, [], ◌∷◌,
  ◌++◌, map, length, length-append, length-map, length-iota, length-set, iota, take,
  take-length-append, set, product, arith, lt→ltb, leb, Bool-cases, inl, inr, ok, err, StatusCode,
  get_or, get_or-append_right,
}
use casa_arrow.Base.Int.{pos}
use casa_arrow.Base.Words.{size_mod, wrap, wrap-lt, wrap-mul_left}
use casa_arrow.Grid.Rank.{IsProper}
use casa_arrow.Selection.{Selection, size, f_span_of}
use casa_arrow.Shape.{IPosition}
use casa_arrow.Shape.Read.{clip_dimension, clip_loop, clip_shape}
use casa_arrow.Partition.{SpanPair, SpanPairs, disk_at, subspan}
use casa_arrow.Partition.Product.{no_span}
use casa_arrow.Grid.{origin}
use casa_arrow.Shape.Offset.{word_value}
use casa_arrow.Transfer.Contiguous.{min_element-iota}
use casa_arrow.Partition.Chunks.{
  accumulate_sizes, any_negative, any_span_negative, min_span, DataChunk, dimension_spans, Slicer,
  last_disk, reference_rows, section_slicer,
}
use casa_arrow.Partition.Make.Whole.Steps.{whole, take-whole, disk_at-whole, SelectsNothing}
use casa_arrow.Transfer
use casa_arrow.Transfer.{store, copy_block}

clip_dimension-none :
    (selection : Selection) (ndim dim n : ℕ) (c : StatusCode)
    → f_span_of selection dim ndim ≡ err c
    → clip_dimension selection ndim dim n ≡ ok n
unfolding clip_dimension
clip_dimension-none selection ndim dim n c gone = rw (gone, clip_dimension) refl

-- A dimension of which nothing is selected keeps its length.
clip_loop-whole :
    (selection : Selection) (ndim dim : ℕ) (shape : IPosition)
    → ((d : ℕ) → d < ndim → (c : StatusCode) × (f_span_of selection d ndim ≡ err c))
    → dim + length shape ≤ ndim
    → clip_loop selection ndim dim shape ≡ ok shape
unfolding clip_loop
clip_loop-whole selection ndim dim [] none_there fits = refl
clip_loop-whole selection ndim dim (n ∷ shape) none_there fits =
    let (c, gone) = none_there dim (omega arith) in
    rw
      (
        clip_dimension-none selection ndim dim n c gone,
        clip_loop-whole selection ndim (dim + 1) shape none_there (omega arith),
      )
      refl

pub clip_shape-whole :
    (selection : Selection) (shape : IPosition)
    → SelectsNothing selection (length shape + 1)
    → clip_shape selection shape ≡ ok shape
unfolding clip_shape
clip_shape-whole selection shape none_there = elim (Bool-cases (leb (size selection) 1)) [
  | inl few ↦ rw few refl
  | inr more ↦
      rw more (clip_loop-whole selection (length shape + 1) 0 shape none_there (omega arith))
]

-- The number of elements of a chunk, in size_t.
pub accumulate_sizes-product :
    (i : ℕ) (shape : IPosition)
    → wrap (accumulate_sizes i (map whole shape)) ≡ wrap (i * product shape)
unfolding accumulate_sizes
accumulate_sizes-product i [] = ap wrap (omega arith)
accumulate_sizes-product i (n ∷ shape) =
    let len : length (map pos (iota n 0)) ≡ n = length-map (iota n 0) pos ∙ length-iota n 0 in
    let regroup : i * n * product shape ≡ i * (n * product shape) = omega arith in
    ap (λ l. wrap (accumulate_sizes (wrap (i * l)) (map whole shape))) len
    ∙ accumulate_sizes-product (wrap (i * n)) shape
    ∙ wrap-mul_left (i * n) (product shape)
    ∙ ap wrap regroup

take-set {ℓ} :
    {A : Type ℓ} (at : ℕ) (out : List A) (v : A)
    → at < length out
    → take (suc at) (set out at v) ≡ take at out ++ v ∷ []
take-set at [] v h = absurd (omega arith)
take-set zero (x ∷ out) v h = refl
take-set (suc at) (x ∷ out) v h = ap (◌∷◌ x) (take-set at out v (omega arith))

-- A block that fills the buffer from a place on.
pub copy_block-fills {ℓ} :
    {A : Type ℓ} (at : ℕ) (cells out : List A)
    → length out ≡ at + length cells
    → copy_block at cells out ≡ some (take at out ++ cells)
unfolding copy_block store
copy_block-fills at [] out len =
    ap some (sym (append-nil (take at out) ∙ take-whole at out (len ∙ omega arith)))
copy_block-fills at (v ∷ cells) out len =
    let stored : store out at v ≡ some (set out at v) =
      rw (lt→ltb at (length out) (omega arith)) refl in
    ap (λ o. Transfer.◌>>=◌ o (copy_block (suc at) cells)) stored
    ∙ copy_block-fills (suc at) cells (set out at v) (omega (arith, length-set out at v))
    ∙ ap some (
        ap (λ xs. xs ++ cells) (take-set at out v (omega arith))
        ∙ append_assoc (take at out) (v ∷ []) cells)

any_negative-whole : (ids : List ℕ) → any_negative (map pos ids) ≡ false
unfolding any_negative
any_negative-whole [] = refl
any_negative-whole (i ∷ ids) = ground (arith, any_negative-whole ids)

pub any_span_negative-whole : (shape : IPosition) → any_span_negative (map whole shape) ≡ false
unfolding any_span_negative
any_span_negative-whole [] = refl
any_span_negative-whole (n ∷ shape) =
    rw (any_negative-whole (iota n 0)) (any_span_negative-whole shape)

accumulate_sizes-lt :
    (i : ℕ) (spans : SpanPairs) → i < size_mod → accumulate_sizes i spans < size_mod
unfolding accumulate_sizes
accumulate_sizes-lt i [] h = h
accumulate_sizes-lt i (v ∷ spans) h =
    accumulate_sizes-lt (wrap (i * length v.disk)) spans (wrap-lt (i * length v.disk))

pub accumulate_sizes-whole :
    (shape : IPosition)
    → product shape < size_mod
    → accumulate_sizes 1 (map whole shape) ≡ product shape
accumulate_sizes-whole shape small =
    word_value (accumulate_sizes 1 (map whole shape)) (product shape)
      (accumulate_sizes-lt 1 (map whole shape) (omega arith)) small
      (accumulate_sizes-product 1 shape ∙ ap wrap (omega arith))

pub min_span-whole :
    (shape : IPosition) → IsProper shape → min_span (map whole shape) ≡ origin shape
unfolding min_span origin
min_span-whole [] h = refl
min_span-whole (zero ∷ shape) h = absurd (omega (arith, h.0))
min_span-whole (suc n ∷ shape) h = ap₂ ◌∷◌ (min_element-iota n 0) (min_span-whole shape h.1)

-- The section of all elements of a cell.
abbrev pub whole_section : IPosition → Slicer
whole_section secondary = record {
  start = map (λ n. pos 0) secondary;
  end = map (λ n. pos (n - 1)) secondary;
}

abbrev section_of : SpanPairs → Slicer
section_of spans = record {
  start = map (λ (p : SpanPair). disk_at p.disk 0) spans;
  end = map last_disk spans;
}

section_of-whole :
    (secondary : IPosition)
    → IsProper secondary
    → section_of (map whole secondary) ≡ whole_section secondary
section_of-whole secondary proper =
    ap₂ (λ s e. record { start = s; end = e }) (starts secondary proper) (ends secondary proper)
  where
    starts :
        (dims : IPosition)
        → IsProper dims
        → map (λ (p : SpanPair). disk_at p.disk 0) (map whole dims) ≡ map (λ n. pos 0) dims
    starts [] h = refl
    starts (n ∷ dims) h = ap₂ ◌∷◌ (disk_at-whole n 0 h.0) (starts dims h.1)

    ends :
        (dims : IPosition)
        → IsProper dims
        → map last_disk (map whole dims) ≡ map (λ n. pos (n - 1)) dims
    ends [] h = refl
    ends (n ∷ dims) h =
        let len : length (map pos (iota n 0)) ≡ n = length-map (iota n 0) pos ∙ length-iota n 0 in
        ap₂ ◌∷◌
          (ap (λ k. disk_at (map pos (iota n 0)) (k - 1)) len
            ∙ disk_at-whole n (n - 1) (omega (arith, h.0)))
          (ends dims h.1)

-- The rows and the section of a chunk with all the indices.
module _ (secondary : IPosition) (n : ℕ) (chunk : DataChunk)
    (spans_kept : dimension_spans chunk ≡ map whole (secondary ++ n ∷ []))
    (dimensions : chunk.shared.ndim ≡ length (map whole (secondary ++ n ∷ []))) where
  rows_dim : chunk.shared.ndim - 1 ≡ length (map whole secondary) + 0
  rows_dim = omega (
    arith,
    dimensions,
    length-map (secondary ++ n ∷ []) whole,
    length-map secondary whole,
    length-append secondary (n ∷ []),
  )

  pub reference_rows-whole : reference_rows chunk ≡ map pos (iota n 0)
  unfolding reference_rows
  reference_rows-whole =
      ap₂ (λ (spans : SpanPairs) (k : ℕ). (get_or spans k no_span).disk)
        (spans_kept ∙ map-append whole secondary (n ∷ [])) rows_dim
      ∙ ap (λ (p : SpanPair). p.disk)
          (get_or-append_right (map whole secondary) (whole n ∷ []) 0 no_span)

  pub section_slicer-whole : IsProper secondary → section_slicer chunk ≡ whole_section secondary
  unfolding section_slicer
  section_slicer-whole proper =
      let front : take (length (map whole secondary)) (map whole secondary ++ whole n ∷ [])
          ≡ map whole secondary =
        take-length-append (map whole secondary) (whole n ∷ []) in
      let k : chunk.shared.ndim - 1 ≡ length (map whole secondary) = omega (arith, rows_dim) in
      ap₂ (λ spans m. section_of (subspan spans 0 m))
        (spans_kept ∙ map-append whole secondary (n ∷ [])) k
      ∙ ap section_of front
      ∙ section_of-whole secondary proper
