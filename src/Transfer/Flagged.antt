-- ===== src/Transfer/Flagged.antt =====
-- The contiguous branches of cpp/arcae/read_impl.cc and write_impl.cc for the chunks that
-- CartesianProduct of cpp/arcae/data_partition.cc flags as contiguous.
use casa_arrow.Base.{
  ℕ, ◌≤◌, ◌<◌, ◌≡◌, sym, subst, true, false, List, [], map, length, get_or, product,
}
use casa_arrow.Base.Words.{size_mod}
use casa_arrow.Grid.Rank.{IsProper}
use casa_arrow.Partition.{SpanPairs}
use casa_arrow.Partition.Product.{cartesian_product}
use casa_arrow.Partition.Product.Contiguity.{IsOnePiece, IsWhole, AllInhabited, n_indices}
use casa_arrow.Partition.Product.Flags.{cartesian_product-IsOnePiece}
use casa_arrow.Transfer.{
  ChunkView, disk_sizes, mem_sizes, read_contiguous, read_transposed, write_contiguous,
  write_transposed,
}
use casa_arrow.Transfer.Contiguous.{
  IsViewOf, read_contiguous-read_transposed, write_contiguous-write_transposed,
}

module _ (dims : List SpanPairs) (c : ℕ) (chunk : ChunkView) where
  -- The chunk is the one with the number c of the product, in a result that has as many places in
  -- each dimension as the dimension's spans have memory indices. It has as many disk as memory
  -- indices in each dimension, no size zero, and no more elements than a size_t counts.
  pub record IsChunkIn : Type 0 where
    pub inside : c < length (cartesian_product dims).dim_spans
    pub spans_of : chunk.spans ≡ get_or (cartesian_product dims).dim_spans c []
    pub view : IsViewOf (map n_indices dims) chunk
    pub same_sizes : disk_sizes chunk.spans ≡ mem_sizes chunk.spans
    pub proper : IsProper (mem_sizes chunk.spans)
    pub small : product (mem_sizes chunk.spans) ≤ size_mod

  -- A chunk that CartesianProduct flags as contiguous, for at least one dimension and a span in every
  -- dimension, may skip the transpose: reading straight into the buffer and writing straight from it
  -- have the effect of the transposes, on every buffer, where as many cells are read as the chunk
  -- has elements, and the fuel is at least their number.
  pub cartesian_product-skips_transpose {ℓ} :
      {A : Type ℓ}
      → 0 < length dims
      → AllInhabited dims
      → IsChunkIn
      → get_or (cartesian_product dims).contiguous c false ≡ true
      → (fuel : ℕ) (empty : A) (cells buffer : List A)
      → length cells ≡ product (mem_sizes chunk.spans)
      → product (mem_sizes chunk.spans) ≤ fuel
      → (read_contiguous chunk cells buffer ≡ read_transposed fuel chunk cells buffer)
        × (write_contiguous chunk buffer ≡ write_transposed fuel chunk empty buffer)
  cartesian_product-skips_transpose some_dims inh is flag fuel empty cells buffer len enough =
      let (one, whole) = cartesian_product-IsOnePiece dims some_dims inh c is.inside flag in
      let shape = map n_indices dims in
      let one' = subst IsOnePiece (sym is.spans_of) one in
      let whole' = subst (IsWhole shape) (sym is.spans_of) whole in
      (
        read_contiguous-read_transposed shape chunk is.view one' whole' is.proper is.small fuel
            cells buffer len enough,
        write_contiguous-write_transposed shape chunk is.view one' whole' is.proper is.small fuel
            empty buffer is.same_sizes enough,
      )
