-- ===== src/Tests/Transfers.antt =====
-- Runs of the copy loops of cpp/arcae/read_impl.cc and cpp/arcae/write_impl.cc.
use casa_arrow.Base.{
  ℕ, ◌+◌, ◌<◌, ◌≡◌, refl, ap, some, none, List, [], ◌∷◌, length, get_or, arith, true, false,
}
use casa_arrow.Base.Int.{pos}
use casa_arrow.Base.Words.{wrap}
use casa_arrow.CasaType.{tp_int}
use casa_arrow.Grid.{InBox, rank}
use casa_arrow.Shape.{ResultShapeData, IPosition, flat_offset}
use casa_arrow.Partition.{SpanPairs}
use casa_arrow.Partition.Chunks.{strides, stride_rounds, min_span, min_element}
use casa_arrow.Transfer.{
  ChunkView, buffer_index, transfer_loop, read_contiguous, read_transposed, write_contiguous,
  write_transposed,
}
use casa_arrow.Transfer.Effect.{Ends, IsTransferred, transfer_loop-Ends}
use casa_arrow.Transfer.Strides.{memory_index, buffer_index-flat_offset}
use casa_arrow.Transfer.Contiguous.{
  IsViewOf, read_contiguous-read_transposed, write_contiguous-write_transposed,
}
use casa_arrow.Partition.Product.{
  cartesian_product, extend_product, product_loop, n_products, stride_loop, row_spans, and_range,
  rows_loop, secondary_dimensions_contiguous, is_memory_contiguous, is_iota, ascends_by_one,
}
use casa_arrow.Transfer.Flagged.{IsChunkIn, cartesian_product-skips_transpose}

abbrev shape : IPosition
shape = 3 ∷ 4 ∷ []

abbrev whole_result : ResultShapeData
whole_result = record {
  column_name = "DATA";
  shape = some shape;
  ndim = 2;
  dtype = tp_int;
  row_shapes = none;
}

-- Two elements, to every other place of a buffer.
abbrev three_places : List ℕ
three_places = 1 ∷ 2 ∷ 3 ∷ []

abbrev two_cells : List ℕ
two_cells = 7 ∷ 8 ∷ []

abbrev here : List ℕ → ℕ
here p = get_or p 0 0

abbrev there : List ℕ → ℕ
there p = get_or p 0 0 + get_or p 0 0

here_inside : (p : List ℕ) → InBox (2 ∷ []) p → get_or p 0 0 < length two_cells
here_inside [] h = absurd h
here_inside (i ∷ p) h = omega (arith, h.0)

there_inside : (p : List ℕ) → InBox (2 ∷ []) p → get_or p 0 0 + get_or p 0 0 < 3
there_inside [] h = absurd h
there_inside (i ∷ p) h = omega (arith, h.0)

there_apart :
    (p q : List ℕ)
    → InBox (2 ∷ []) p
    → InBox (2 ∷ []) q
    → get_or p 0 0 + get_or p 0 0 ≡ get_or q 0 0 + get_or q 0 0
    → p ≡ q
there_apart [] q h k e = absurd h
there_apart (i ∷ p) [] h k e = absurd k
there_apart (i ∷ []) (j ∷ []) h k e = let same : i ≡ j = omega arith in ap (λ t. t ∷ []) same
there_apart (i ∷ []) (j ∷ r ∷ q) h k e = absurd k.1
there_apart (i ∷ r ∷ p) (j ∷ q) h k e = absurd h.1

transfer_loop-Ends_example :
    Ends
      (IsTransferred {A = ℕ} (2 ∷ []) here there two_cells (rank (2 ∷ []) (0 ∷ [])) three_places)
      (transfer_loop 2 (2 ∷ []) here there two_cells (0 ∷ []) three_places)
transfer_loop-Ends_example =
    transfer_loop-Ends (2 ∷ []) here there two_cells 3 here_inside there_inside there_apart 2
      (0 ∷ []) three_places (omega arith, tt) refl (omega arith)

-- The places 2 and 1 of the first dimension, in row 3.
abbrev scattered : SpanPairs
scattered =
    record { disk = pos 4 ∷ pos 7 ∷ []; mem = 2 ∷ 1 ∷ [] }
    ∷ record { disk = pos 0 ∷ []; mem = 3 ∷ [] }
    ∷ []

buffer_index-flat_offset_example :
    flat_offset whole_result (min_span scattered)
      + buffer_index 0 scattered (0 ∷ 0 ∷ []) (min_span scattered) (strides 2 shape)
    ≡ flat_offset whole_result (memory_index scattered (0 ∷ 0 ∷ []))
buffer_index-flat_offset_example =
    buffer_index-flat_offset whole_result shape refl scattered (0 ∷ 0 ∷ []) refl (omega arith)
      (omega arith, (omega arith, tt)) (omega arith, (omega arith, tt))

-- The rows 1 and 2 of the result.
abbrev two_rows : SpanPairs
two_rows =
    record { disk = pos 0 ∷ pos 1 ∷ pos 2 ∷ []; mem = 0 ∷ 1 ∷ 2 ∷ [] }
    ∷ record { disk = pos 5 ∷ pos 6 ∷ []; mem = 1 ∷ 2 ∷ [] }
    ∷ []

abbrev two_rows_view : ChunkView
two_rows_view = record {
  spans = two_rows;
  min_mem = 0 ∷ 1 ∷ [];
  chunk_strides = 1 ∷ 3 ∷ [];
  buffer_strides = 1 ∷ 3 ∷ [];
  offset = 3;
}

two_rows-IsViewOf : IsViewOf shape two_rows_view
unfolding strides stride_rounds min_span min_element wrap
two_rows-IsViewOf = record { least = refl; in_chunk = refl; in_buffer = refl }

abbrev cells : List ℕ
cells = 10 ∷ 11 ∷ 12 ∷ 20 ∷ 21 ∷ 22 ∷ []

abbrev buffer : List ℕ
buffer = 0 ∷ 1 ∷ 2 ∷ 3 ∷ 4 ∷ 5 ∷ 6 ∷ 7 ∷ 8 ∷ 9 ∷ 10 ∷ 11 ∷ []

read_contiguous-read_transposed_example :
    read_contiguous two_rows_view cells buffer ≡ read_transposed 6 two_rows_view cells buffer
read_contiguous-read_transposed_example =
    read_contiguous-read_transposed shape two_rows_view two_rows-IsViewOf (refl, (1, refl))
      (refl, tt) (omega arith, (omega arith, tt)) (omega arith) 6 cells buffer refl (omega arith)

write_contiguous-write_transposed_example :
    write_contiguous two_rows_view buffer ≡ write_transposed 6 two_rows_view 99 buffer
write_contiguous-write_transposed_example =
    write_contiguous-write_transposed shape two_rows_view two_rows-IsViewOf (refl, (1, refl))
      (refl, tt) (omega arith, (omega arith, tt)) (omega arith) 6 99 buffer refl (omega arith)

-- The rows 1 and 2 of a result of four rows, of which row 0 and row 3 are read as one chunk each.
abbrev spans_of_rows : List SpanPairs
spans_of_rows =
    (record { disk = pos 0 ∷ pos 1 ∷ pos 2 ∷ []; mem = 0 ∷ 1 ∷ 2 ∷ [] } ∷ [])
    ∷ (record { disk = pos 0 ∷ []; mem = 0 ∷ [] }
        ∷ record { disk = pos 5 ∷ pos 6 ∷ []; mem = 1 ∷ 2 ∷ [] }
        ∷ record { disk = pos 9 ∷ []; mem = 3 ∷ [] }
        ∷ [])
    ∷ []

rows-IsChunkIn : IsChunkIn spans_of_rows 1 two_rows_view
unfolding cartesian_product extend_product product_loop secondary_dimensions_contiguous is_iota
rows-IsChunkIn = record {
  inside = omega arith;
  spans_of = refl;
  view = two_rows-IsViewOf;
  same_sizes = refl;
  proper = (omega arith, (omega arith, tt));
  small = omega arith;
}

rows_flag : get_or (cartesian_product spans_of_rows).contiguous 1 false ≡ true
unfolding cartesian_product extend_product product_loop n_products stride_loop row_spans and_range
    rows_loop secondary_dimensions_contiguous is_memory_contiguous is_iota ascends_by_one
rows_flag = refl

cartesian_product-skips_transpose_example :
    (read_contiguous two_rows_view cells buffer ≡ read_transposed 6 two_rows_view cells buffer)
    × (write_contiguous two_rows_view buffer ≡ write_transposed 6 two_rows_view 99 buffer)
cartesian_product-skips_transpose_example =
    cartesian_product-skips_transpose spans_of_rows 1 two_rows_view (omega arith)
      (omega arith, (omega arith, tt)) rows-IsChunkIn rows_flag 6 99 cells buffer refl (omega arith)
