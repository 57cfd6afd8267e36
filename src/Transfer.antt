-- ===== src/Transfer.antt =====
-- The copy loops of ReadCallback::DoRead in cpp/arcae/read_impl.cc and WriteCallback::DoWrite in
-- cpp/arcae/write_impl.cc: the elements of one chunk move between the cells that casacore reads
-- or writes, in FORTRAN order of the chunk, and their places in the result buffer.
-- An access outside a buffer, which C++ leaves undefined, is `none`; so is fuel that runs out.
pub mod Flagged
pub mod Steps
pub mod Blocks
pub mod Contiguous
pub mod Effect
pub mod Strides
use casa_arrow.Base.{
  ℕ, zero, suc, ◌+◌, ◌-◌, ◌*◌, Option, none, some, List, [], ◌∷◌, map, length, get_elem?, get_or,
  set, ltb, product, replicate, if◌then◌else◌,
}
use casa_arrow.Base.Words.{wrap}
use casa_arrow.Partition.{SpanPair, SpanPairs}

-- ++pos[d], with a carry into the next dimension; `none` when the last dimension is reset.
-- (A chunk has at least one dimension.)
unfoldable pub next_position : List ℕ → List ℕ → Option (List ℕ)
next_position (n ∷ sizes) (p ∷ pos) =
    let carry : Option (List ℕ) = elim (next_position sizes pos) [
      | none ↦ none
      | some pos' ↦ some (0 ∷ pos')
    ] in
    if ltb (p + 1) n then some ((p + 1) ∷ pos) else carry
next_position _ _ = none

-- The sum of pos[d] * chunk_strides[d], in size_t.
unfoldable pub chunk_index : ℕ → List ℕ → List ℕ → ℕ
chunk_index i (p ∷ pos) (s ∷ chunk_strides) = chunk_index (wrap (i + p * s)) pos chunk_strides
chunk_index i _ _ = i

-- The sum of (spans[d].mem[pos[d]] - min_mem[d]) * buffer_strides[d], in size_t.
unfoldable pub buffer_index : ℕ → SpanPairs → List ℕ → List ℕ → List ℕ → ℕ
buffer_index o (span ∷ spans) (p ∷ pos) (m ∷ min_mem) (s ∷ buffer_strides) =
    buffer_index (wrap (o + (get_or span.mem p 0 - m) * s)) spans pos min_mem buffer_strides
buffer_index o _ _ _ _ = o

-- What the loops read from a chunk.
pub record ChunkView : Type 0 where
  pub spans : SpanPairs
  pub min_mem : List ℕ
  pub chunk_strides : List ℕ
  pub buffer_strides : List ℕ
  pub offset : ℕ

-- spans[d].mem.size(), in every dimension
abbrev pub mem_sizes : SpanPairs → List ℕ
mem_sizes spans = map (λ (p : SpanPair). length p.mem) spans

-- GetShape of the chunk
abbrev pub disk_sizes : SpanPairs → List ℕ
disk_sizes spans = map (λ (p : SpanPair). length p.disk) spans

module _ {ℓ} {A : Type ℓ} where
  infixl 5 ◌>>=◌
  abbrev pub ◌>>=◌ {κ} : {B : Type κ} → Option A → (A → Option B) → Option B
  none >>= f = none
  some a >>= f = f a

module _ {ℓ} {A : Type ℓ} where
  -- ptr[i] = v
  unfoldable pub store : List A → ℕ → A → Option (List A)
  store out i v = if ltb i (length out) then some (set out i v) else none

  -- while (true): one element from `src pos` to `dst pos`, then the next position.
  unfoldable pub transfer_loop :
      ℕ → List ℕ → (List ℕ → ℕ) → (List ℕ → ℕ) → List A → List ℕ → List A → Option (List A)
  unfolding store
  transfer_loop zero sizes src dst from pos out = none
  transfer_loop (suc fuel) sizes src dst from pos out = get_elem? from (src pos) >>= λ v.
      store out (dst pos) v >>= λ out'. elim (next_position sizes pos) [
        | none ↦ some out'
        | some pos' ↦ transfer_loop fuel sizes src dst from pos' out'
      ]

  -- The transpose of DoRead: cells to buffer.
  unfoldable pub read_transposed : ℕ → ChunkView → List A → List A → Option (List A)
  unfolding transfer_loop
  read_transposed fuel chunk cells buffer =
      transfer_loop fuel (mem_sizes chunk.spans) (λ pos. chunk_index 0 pos chunk.chunk_strides)
        (λ pos. chunk.offset + buffer_index 0 chunk.spans pos chunk.min_mem chunk.buffer_strides)
        cells (map (λ (p : SpanPair). 0) chunk.spans) buffer

  -- The transpose of DoWrite: buffer to a new array for the cells, whose elements are `empty`.
  unfoldable pub write_transposed : ℕ → ChunkView → A → List A → Option (List A)
  unfolding transfer_loop
  write_transposed fuel chunk empty buffer =
      transfer_loop fuel (mem_sizes chunk.spans)
        (λ pos. chunk.offset + buffer_index 0 chunk.spans pos chunk.min_mem chunk.buffer_strides)
        (λ pos. chunk_index 0 pos chunk.chunk_strides) buffer
        (map (λ (p : SpanPair). 0) chunk.spans) (replicate (product (disk_sizes chunk.spans)) empty)

  -- casacore fills an array that shares the buffer from `at` on.
  unfoldable pub copy_block : ℕ → List A → List A → Option (List A)
  unfolding store
  copy_block at [] out = some out
  copy_block at (v ∷ cells) out = store out at v >>= copy_block (suc at) cells

  -- The contiguous branch of DoRead.
  unfoldable pub read_contiguous : ChunkView → List A → List A → Option (List A)
  unfolding copy_block
  read_contiguous chunk cells buffer = copy_block chunk.offset cells buffer

  -- The cells that casacore reads from an array that shares `n` elements of the buffer.
  unfoldable pub view_block : ℕ → ℕ → List A → Option (List A)
  view_block at zero buffer = some []
  view_block at (suc n) buffer =
      get_elem? buffer at >>= λ v. view_block (suc at) n buffer >>= λ rest. some (v ∷ rest)

  -- The contiguous branch of DoWrite.
  unfoldable pub write_contiguous : ChunkView → List A → Option (List A)
  unfolding view_block
  write_contiguous chunk buffer = view_block chunk.offset (product (disk_sizes chunk.spans)) buffer
