-- ===== src/Writing/Whole/Steps.antt =====
-- The steps of the write of an array to all of a column of fixed shape, MakeWrite of
-- cpp/arcae/result_shape.cc and the chunks of cpp/arcae/write_impl.cc among them.
use casa_arrow.Base.{
  or_fault, ℕ, zero, suc, ◌+◌, ◌-◌, ◌*◌, ◌^◌, ◌≤◌, ◌<◌, ◌≡◌, refl, ◌∙◌, sym, ap, ap₂, subst, Bool,
  true, false, Option, some, List, [], ◌∷◌, ◌++◌, map, length, length-append, length-map,
  length-iota, iota, drop, get_elem?, product, arith, if◌then◌else◌, leb, ◌==◌, Result, ok, err,
  Status, not_implemented, ◌>>◌,
}
use casa_arrow.Base.Int.{ℤ, pos}
use casa_arrow.Base.Words.{size_mod}
use casa_arrow.Arrow.{Buffer, ArrowArray}
use casa_arrow.Grid.Rank.{IsProper}
use casa_arrow.Selection.{Selection}
use casa_arrow.Shape.{ResultShapeData, IPosition}
use casa_arrow.Shape.Arrays.{get_result_shape_data}
use casa_arrow.Shape.Read.{TableColumn, check_row_number_limit}
use casa_arrow.Shape.Write.{
  check_dimension, check_dimensions, check_row_span, check_ndim, accept_data, check_secondary,
  finish_write, check_accepted, make_write,
}
use casa_arrow.Partition.{SpanPairs}
use casa_arrow.Partition.Chunks.{
  DataChunk, dimension_spans, Slicer, reference_rows, section_slicer, flat_offset_of,
}
use casa_arrow.Partition.Chunks.Made.{IsChunkOf}
use casa_arrow.Partition.Make.Whole.Steps.{whole, SelectsNothing}
use casa_arrow.Proxy.{Outcome, guarded}
use casa_arrow.Reading.{is_handled, view_of}
use casa_arrow.Reading.Whole.{IsWhole, whole_result}
use casa_arrow.Reading.Whole.Chunk.{is_empty_chunk-whole, length-shape_of}
use casa_arrow.Reading.Whole.Steps.{whole_section, reference_rows-whole, section_slicer-whole}
use casa_arrow.Transfer
use casa_arrow.Transfer.{disk_sizes, mem_sizes, write_contiguous, write_transposed, view_block}
use casa_arrow.Writing.{
  ColumnWriter, WriteContext, chunk_cells, put_cells, do_write, write_chunk, write_next,
  write_chunks,
}

-- Nothing is checked of a selection that selects nothing.
check_dimensions-whole :
    (selection : Selection) (ndim rounds dim : ℕ) (cell : IPosition)
    → SelectsNothing selection ndim
    → dim + rounds ≤ ndim
    → check_dimensions selection ndim cell rounds dim ≡ ok tt
unfolding check_dimensions check_dimension
check_dimensions-whole selection ndim zero dim cell none_there fits = refl
check_dimensions-whole selection ndim (suc rounds) dim cell none_there fits =
    ap (λ r. check_dimension cell dim r >> check_dimensions selection ndim cell rounds (dim + 1))
      (none_there dim (omega arith)).1
    ∙ check_dimensions-whole selection ndim rounds (dim + 1) cell none_there (omega arith)

module _ {ℓ} {A : Type ℓ} where
  if-same : (b : Bool) (x : A) → (if b then x else x) ≡ x
  if-same true x = refl
  if-same false x = refl

  drop_all : (n : ℕ) (xs : List A) → length xs ≤ n → drop n xs ≡ []
  drop_all zero [] h = refl
  drop_all zero (x ∷ xs) h = absurd (omega arith)
  drop_all (suc n) [] h = refl
  drop_all (suc n) (x ∷ xs) h = drop_all n xs (omega arith)

  drop-inside :
      (n : ℕ) (xs : List A)
      → n < length xs
      → (x : A) × (get_elem? xs n ≡ some x) × (x ∷ drop (suc n) xs ≡ drop n xs)
  drop-inside n [] h = absurd (omega arith)
  drop-inside zero (x ∷ xs) h = (x, refl, refl)
  drop-inside (suc n) (x ∷ xs) h = drop-inside n xs (omega arith)

  -- A view of the buffer from a place to its end.
  view_block-whole :
      (at n : ℕ) (buffer : List A)
      → length buffer ≡ at + n
      → view_block at n buffer ≡ some (drop at buffer)
  unfolding view_block
  view_block-whole at zero buffer len = ap some (sym (drop_all at buffer (omega arith)))
  view_block-whole at (suc n) buffer len =
      let (v, found, split) = drop-inside at buffer (omega arith) in
      let next = λ (v : A) (o : Option (List A)). Transfer.◌>>=◌ o (λ rest. some (v ∷ rest)) in
      ap (λ o. Transfer.◌>>=◌ o (λ v. next v (view_block (suc at) n buffer))) found
      ∙ ap (next v) (view_block-whole (suc at) n buffer (omega arith))
      ∙ ap some split

product-disk_sizes : (cell : IPosition) → product (disk_sizes (map whole cell)) ≡ product cell
product-disk_sizes [] = refl
product-disk_sizes (n ∷ cell) =
    ap₂ ◌*◌ (length-map (iota n 0) pos ∙ length-iota n 0) (product-disk_sizes cell)

module _ {V : Type 0} (column : TableColumn) (selection : Selection) (secondary : IPosition)
    (is : IsWhole column selection secondary) (array : ArrowArray V) where
  -- The data have the shape of the column, and their values the type of the column.
  pub record FitsColumn : Type 0 where
    pub shaped :
        get_result_shape_data column.name column.data_type (some array)
        ≡ ok (whole_result column selection secondary is)
    pub n_dims : column.n_dims ≡ pos (length secondary)

  module _ (fits : FitsColumn) where
    check_ndim-whole : check_ndim column (whole_result column selection secondary is) ≡ ok tt
    unfolding check_ndim
    check_ndim-whole =
        let dims : length (secondary ++ column.nrow ∷ []) ≡ length secondary + 1 =
          length-append secondary (column.nrow ∷ []) in
        rw (fits.n_dims, dims) (ground arith)

    accepted : accept_data column array selection ≡ ok (whole_result column selection secondary is)
    unfolding accept_data check_row_number_limit check_row_span
    accepted =
        let few : leb column.nrow (2 ^ 63 - 1) ≡ true = ground (arith, is.few_rows) in
        rw (few, fits.shaped, check_ndim-whole, is.no_row_span) refl

  module _ (set_shape : TableColumn → ℕ → IPosition → TableColumn) (fits : FitsColumn) where
    pub make_write-whole :
        make_write set_shape column (some array) selection
        ≡ (column, ok (whole_result column selection secondary is))
    unfolding make_write check_accepted check_secondary finish_write
    make_write-whole =
        let w = whole_result column selection secondary is in
        let dims : length secondary + 1 ≡ w.ndim =
          omega (arith, length-append secondary (column.nrow ∷ [])) in
        let none_there = subst (SelectsNothing selection) dims is.none_selected in
        let checked =
          check_dimensions-whole selection w.ndim (w.ndim - 1) 0 secondary none_there
            (omega arith) in
        let secondary_ok : check_secondary set_shape column selection w column.fixed_shape
            ≡ (column, ok tt) =
          ap (check_secondary set_shape column selection w) is.fixed
          ∙ ap (λ s. (column, s)) checked in
        ap (check_accepted set_shape column selection) (accepted fits)
        ∙ ap (λ p. if leb w.ndim 1 then (column, ok w) else finish_write w p) secondary_ok
        ∙ if-same (leb w.ndim 1) (column, ok w)

write_next-last : {S : Type 0} (p : S × Status) → write_next (λ s. (s, ok tt)) p ≡ p
unfolding write_next
write_next-last (s, err c) = refl
write_next-last (s, ok u) = refl

-- What casacore makes of all the cells of a column.
abbrev pub put_all :
    {V S : Type 0} → ColumnWriter V S → IPosition → ℕ → List V → S → S × Outcome (Unit {0})
put_all writer secondary n cells stored =
    if length (secondary ++ n ∷ []) == 1
    then writer.put_scalar_cells (map pos (iota n 0)) cells stored
    else writer.put_array_cells (map pos (iota n 0)) (whole_section secondary) cells stored

module _ (secondary : IPosition) (n : ℕ) (r : ResultShapeData) (bs : SpanPairs → List ℕ)
    (chunk : DataChunk) (is : IsChunkOf r bs (map whole (secondary ++ n ∷ [])) true chunk)
    (proper : IsProper (secondary ++ n ∷ [])) (small : product (secondary ++ n ∷ []) < size_mod)
    {V S : Type 0} (context : WriteContext V S) where
  put_cells-whole :
      (cells : List V) (stored : S)
      → IsProper secondary
      → put_cells context chunk cells stored ≡ put_all context.writer secondary n cells stored
  unfolding put_cells
  put_cells-whole cells stored proper' =
      let pick = λ (k : ℕ) (rows : List ℤ) (section : Slicer).
        if k == 1
        then context.writer.put_scalar_cells rows cells stored
        else context.writer.put_array_cells rows section cells stored in
      ap (λ k. pick k (reference_rows chunk) (section_slicer chunk))
        (length-shape_of secondary n r bs chunk is proper small)
      ∙ ap₂ (pick (length (secondary ++ n ∷ [])))
          (reference_rows-whole secondary n chunk is.spans_kept is.dimensions)
          (section_slicer-whole secondary n chunk is.spans_kept is.dimensions proper')

  chunk_cells-whole :
      (buffer : Buffer V)
      → length buffer.values ≡ product (secondary ++ n ∷ [])
      → flat_offset_of chunk ≡ 0
      → chunk_cells context chunk (some buffer) ≡ ok buffer.values
  unfolding chunk_cells write_contiguous
  chunk_cells-whole buffer len start =
      let size : product (disk_sizes (dimension_spans chunk)) ≡ product (secondary ++ n ∷ []) =
        ap (λ spans. product (disk_sizes spans)) is.spans_kept
        ∙ product-disk_sizes (secondary ++ n ∷ []) in
      let transpose =
        write_transposed (product (mem_sizes (dimension_spans chunk))) (view_of chunk) context.empty
          buffer.values in
      ap (λ b. or_fault (if b then write_contiguous (view_of chunk) buffer.values else transpose))
        is.flagged
      ∙ ap₂ (λ o k. or_fault (view_block o k buffer.values)) start size
      ∙ ap or_fault
          (view_block-whole 0 (product (secondary ++ n ∷ [])) buffer.values (len ∙ omega arith))

  -- The outcome of the only chunk.
  pub write_chunks-whole :
      (buffer : Buffer V) (stored : S)
      → length buffer.values ≡ product (secondary ++ n ∷ [])
      → is_handled chunk.shared.casa_dtype ≡ true
      → flat_offset_of chunk ≡ 0
      → IsProper secondary
      → write_chunks context (some buffer) (chunk ∷ []) stored ≡ (
        (put_all context.writer secondary n buffer.values stored).0,
        guarded (put_all context.writer secondary n buffer.values stored).1,
      )
  unfolding write_chunks write_chunk do_write write_next
  write_chunks-whole buffer stored len handled start proper' =
      let known = is_handled chunk.shared.casa_dtype in
      let cells = chunk_cells context chunk (some buffer) in
      ap (λ e. run e known cells) (is_empty_chunk-whole secondary n r bs chunk is proper small)
      ∙ ap₂ (run false) handled (chunk_cells-whole buffer len start)
      ∙ write_next-last (do_write context chunk (ok buffer.values) stored)
      ∙ ap done (put_cells-whole buffer.values stored proper')
    where
      run : Bool → Bool → Result (List V) → S × Status
      run empty known cells =
          write_next (λ s. (s, ok tt))
            (if empty
              then (stored, ok tt)
              else if known
              then do_write context chunk cells stored
              else (stored, err not_implemented))

      done : S × Outcome (Unit {0}) → S × Status
      done p = (p.0, guarded p.1)
