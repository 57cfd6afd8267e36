-- ===== src/Reading/Whole/Chunk.antt =====
-- The single chunk of a result of fixed shape of which nothing is selected: what
-- cpp/arcae/data_partition.h gives for it, and the steps of cpp/arcae/read_impl.cc that read it.
use casa_arrow.Base.{
  or_fault, ℕ, ◌<◌, ◌≡◌, refl, ◌∙◌, ap, ap₂, Bool, true, false, some, List, [], ◌∷◌, ◌++◌, map,
  length, length-map, iota, product, arith, if◌then◌else◌, ◌==◌, Result, ok, err, ◌>>=◌,
  not_implemented,
}
use casa_arrow.Base.Int.{ℤ, pos}
use casa_arrow.Base.Words.{size_mod}
use casa_arrow.Grid.{origin}
use casa_arrow.Grid.Rank.{IsProper, product-pos, origin-InBox, rank-origin}
use casa_arrow.Shape.{ResultShapeData, IPosition, flat_offset}
use casa_arrow.Shape.Offset.{flat_offset-rank}
use casa_arrow.Partition.{SpanPairs}
use casa_arrow.Partition.Chunks.{
  DataChunk, Slicer, dimension_spans, any_span_negative, accumulate_sizes, n_elements_of,
  is_empty_chunk, shape_of, reference_rows, section_slicer, flat_offset_of, is_contiguous,
}
use casa_arrow.Partition.Chunks.Made.{IsChunkOf}
use casa_arrow.Partition.Make.Whole.Steps.{whole}
use casa_arrow.Proxy.{Outcome, returned, guarded}
use casa_arrow.Transfer.{read_contiguous, read_transposed, copy_block, mem_sizes}
use casa_arrow.Reading.{
  ColumnReader, view_of, is_handled, cells_of, do_read, read_chunk, read_chunks,
}
use casa_arrow.Reading.Whole.Steps.{
  copy_block-fills, any_span_negative-whole, accumulate_sizes-whole, min_span-whole, whole_section,
  reference_rows-whole, section_slicer-whole,
}

-- What casacore returns for all the cells of a column.
abbrev pub all_cells : {V : Type 0} → ColumnReader V → IPosition → ℕ → Outcome (List V)
all_cells reader secondary n =
    if length (secondary ++ n ∷ []) == 1
    then reader.get_scalar_cells (map pos (iota n 0))
    else reader.get_array_cells (map pos (iota n 0)) (whole_section secondary)

module _ (secondary : IPosition) (n : ℕ) (r : ResultShapeData) (bs : SpanPairs → List ℕ)
    (chunk : DataChunk) (is : IsChunkOf r bs (map whole (secondary ++ n ∷ [])) true chunk)
    (proper : IsProper (secondary ++ n ∷ []))
    (small : product (secondary ++ n ∷ []) < size_mod) where
  pub n_elements_of-whole : n_elements_of chunk ≡ product (secondary ++ n ∷ [])
  unfolding n_elements_of
  n_elements_of-whole =
      ap (accumulate_sizes 1) is.spans_kept ∙ accumulate_sizes-whole (secondary ++ n ∷ []) small

  pub is_empty_chunk-whole : is_empty_chunk chunk ≡ false
  unfolding is_empty_chunk
  is_empty_chunk-whole =
      let some_there = product-pos (secondary ++ n ∷ []) proper in
      let none_negative : any_span_negative (dimension_spans chunk) ≡ false =
        ap any_span_negative is.spans_kept ∙ any_span_negative-whole (secondary ++ n ∷ []) in
      let positive : (n_elements_of chunk == 0) ≡ false = ground (arith, n_elements_of-whole) in
      rw (none_negative, positive) refl

  pub flat_offset_of-whole :
      (fixed : r.shape ≡ some (secondary ++ n ∷ []))
      → length (secondary ++ n ∷ []) ≡ r.ndim
      → flat_offset_of chunk ≡ 0
  flat_offset_of-whole fixed dims =
      let shape = secondary ++ n ∷ [] in
      is.starts
      ∙ ap (flat_offset r) (min_span-whole shape proper)
      ∙ flat_offset-rank r shape fixed (origin shape) dims (omega arith) (origin-InBox shape proper)
      ∙ rank-origin shape

  pub length-shape_of : length (shape_of chunk) ≡ length (secondary ++ n ∷ [])
  unfolding shape_of
  length-shape_of =
      length-map (dimension_spans chunk) _
      ∙ ap (λ (spans : SpanPairs). length spans) is.spans_kept
      ∙ length-map (secondary ++ n ∷ []) whole

  module _ {V : Type 0} (reader : ColumnReader V) (cells : List V)
      (reads : all_cells reader secondary n ≡ returned (ok cells)) where
    cells_of-whole : IsProper secondary → cells_of reader chunk ≡ ok cells
    unfolding cells_of guarded shape_of
    cells_of-whole proper' =
        let shape = secondary ++ n ∷ [] in
        let pick = λ (k : ℕ) (rows : List ℤ) (section : Slicer).
          guarded (
            if k == 1 then reader.get_scalar_cells rows else reader.get_array_cells rows section) in
        ap (λ k. pick k (reference_rows chunk) (section_slicer chunk)) length-shape_of
        ∙ ap₂ (pick (length shape))
            (reference_rows-whole secondary n chunk is.spans_kept is.dimensions)
            (section_slicer-whole secondary n chunk is.spans_kept is.dimensions proper')
        ∙ ap guarded reads

    module _ (buffer : List V) (len : length buffer ≡ length cells) where
      do_read-whole :
          flat_offset_of chunk ≡ 0 → IsProper secondary → do_read reader chunk buffer ≡ ok cells
      unfolding do_read read_contiguous
      do_read-whole start proper' =
          let transpose = λ (cells : List V).
            read_transposed (product (mem_sizes (dimension_spans chunk))) (view_of chunk) cells
              buffer in
          let transfer = λ (b : Bool) (cells : List V).
            or_fault
              (if b then read_contiguous (view_of chunk) cells buffer else transpose cells) in
          ap (λ c. c >>= transfer (is_contiguous chunk)) (cells_of-whole proper')
          ∙ ap (λ b. transfer b cells) is.flagged
          ∙ ap (λ o. or_fault (copy_block o cells buffer)) start
          ∙ ap or_fault (copy_block-fills 0 cells buffer (len ∙ omega arith))

      pub read_chunks-whole :
          is_handled chunk.shared.casa_dtype ≡ true
          → flat_offset_of chunk ≡ 0
          → IsProper secondary
          → read_chunks reader (chunk ∷ []) buffer ≡ ok cells
      unfolding read_chunks read_chunk
      read_chunks-whole handled start proper' =
          let last = λ (c : Result (List V)). c >>= λ next. ok next in
          ap
            (λ e. last (if e then ok buffer else handled_read (is_handled chunk.shared.casa_dtype)))
            is_empty_chunk-whole
          ∙ ap (λ h. last (handled_read h)) handled
          ∙ ap last (do_read-whole start proper')
        where
          handled_read : Bool → Result (List V)
          handled_read h = if h then do_read reader chunk buffer else err not_implemented
