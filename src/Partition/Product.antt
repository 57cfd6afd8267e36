-- ===== src/Partition/Product.antt =====
-- CartesianProduct and the contiguity tests of cpp/arcae/data_partition.cc: one chunk for each
-- choice of a span pair in every dimension.
pub mod Choices
pub mod Contiguity
pub mod Flags
use casa_arrow.Base.{
  ℕ, zero, suc, ◌+◌, ◌-◌, ◌*◌, Bool, true, false, not, ◌&&◌, List, [], ◌∷◌, ◌++◌, map, length,
  replicate, get_or, set, if◌then◌else◌, leb, ◌==◌,
}
use casa_arrow.Partition.{SpanPair, SpanPairs}

abbrev pub no_span : SpanPair
no_span = record { disk = []; mem = [] }

-- spans[d][0]; MakeSubSpans leaves no dimension without a span.
abbrev pub first_span : SpanPairs → SpanPair
first_span spans = get_or spans 0 no_span

-- mem[i] == i from index i on
unfoldable pub is_iota : ℕ → List ℕ → Bool
is_iota i [] = true
is_iota i (m ∷ mem) = m == i && is_iota (i + 1) mem

-- The loop over all dimensions but the last, the row dimension. The partition has at least one
-- dimension: for none, `spans.size() - 1` would wrap round in the source.
unfoldable pub secondary_dimensions_contiguous : List SpanPairs → Bool
unfolding is_iota
secondary_dimensions_contiguous [] = true
secondary_dimensions_contiguous (row ∷ []) = true
secondary_dimensions_contiguous (spans ∷ next ∷ dims) =
    if leb 2 (length spans)
    then false
    else is_iota 0 (first_span spans).mem && secondary_dimensions_contiguous (next ∷ dims)

-- The loop of IsMemoryContiguous over the neighbours in `mem`.
unfoldable pub ascends_by_one : List ℕ → Bool
ascends_by_one [] = true
ascends_by_one (m ∷ []) = true
ascends_by_one (m ∷ n ∷ mem) = n == m + 1 && ascends_by_one (n ∷ mem)

unfoldable pub is_memory_contiguous : SpanPair → Bool
unfolding ascends_by_one
is_memory_contiguous spans = ascends_by_one spans.mem

pub record CartesianProductResult : Type 0 where
  pub dim_spans : List SpanPairs
  pub contiguous : List Bool

-- `next_product`: every result so far, followed by every span pair.
unfoldable pub extend_product : List SpanPairs → SpanPairs → List SpanPairs
extend_product [] span_pairs = []
extend_product (result ∷ product) span_pairs =
    map (λ span_pair. result ++ span_pair ∷ []) span_pairs ++ extend_product product span_pairs

unfoldable pub product_loop : List SpanPairs → List SpanPairs → List SpanPairs
product_loop product [] = product
product_loop product (span_pairs ∷ dim_spans) =
    product_loop (extend_product product span_pairs) dim_spans

-- nproducts
unfoldable pub n_products : List SpanPairs → ℕ
n_products [] = 1
n_products (span_pairs ∷ dim_spans) = length span_pairs * n_products dim_spans

-- The number of span choices of the secondary dimensions.
unfoldable pub stride_loop : ℕ → List SpanPairs → ℕ
stride_loop stride [] = stride
stride_loop stride (row ∷ []) = stride
stride_loop stride (spans ∷ next ∷ dims) = stride_loop (stride * length spans) (next ∷ dims)

-- dim_spans[dim_spans.size() - 1]
unfoldable pub row_spans : List SpanPairs → SpanPairs
row_spans [] = []
row_spans (row ∷ []) = row
row_spans (spans ∷ next ∷ dims) = row_spans (next ∷ dims)

-- contiguous[i] = contiguous[i] & rows_contiguous, for the given number of indices from `first`.
unfoldable pub and_range : ℕ → ℕ → Bool → List Bool → List Bool
and_range zero first b contiguous = contiguous
and_range (suc n) first b contiguous =
    and_range n (suc first) b (set contiguous first (get_or contiguous first false && b))

unfoldable pub rows_loop : ℕ → ℕ → SpanPairs → List Bool → List Bool
rows_loop stride rs [] contiguous = contiguous
rows_loop stride rs (row ∷ rows) contiguous =
    let first = rs * stride in
    let last = (rs + 1) * stride in
    rows_loop stride (rs + 1) rows
      (and_range (last - first) first (is_memory_contiguous row) contiguous)

unfoldable pub cartesian_product : List SpanPairs → CartesianProductResult
unfolding extend_product product_loop n_products stride_loop row_spans and_range rows_loop
    secondary_dimensions_contiguous is_memory_contiguous
cartesian_product dims =
    let product = product_loop ([] ∷ []) dims in
    let secondary_contig = secondary_dimensions_contiguous dims in
    let contiguous = replicate (n_products dims) secondary_contig in
    if not secondary_contig
    then record { dim_spans = product; contiguous = contiguous }
    else record {
      dim_spans = product;
      contiguous = rows_loop (stride_loop 1 dims) 0 (row_spans dims) contiguous;
    }
