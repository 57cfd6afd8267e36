-- ===== src/Partition.antt =====
-- cpp/arcae/data_partition.h: the pairs of disk and memory spans that the partition is made of.
-- The spans are views of vectors in the id cache, which lives as long as they do: here, lists.
pub mod Chunks
pub mod Make
pub mod Product
pub mod SortedIndices
pub mod SubSpans
use casa_arrow.Base.{ℕ, ◌+◌, List, [], ◌∷◌, ◌++◌, take, drop, map, get_or}
use casa_arrow.Base.Int.{ℤ, pos}

-- The values of `mem` come from std::iota, so they are numbers.
pub record SpanPair : Type 0 where
  pub disk : List ℤ
  pub mem : List ℕ

abbrev pub SpanPairs : Type 0
SpanPairs = List SpanPair

-- absl::Span::subspan
abbrev pub subspan {ℓ} : {A : Type ℓ} → List A → ℕ → ℕ → List A
subspan xs position len = take len (drop position xs)

-- disk_span[i]
abbrev pub disk_at : List ℤ → ℕ → ℤ
disk_at disk i = get_or disk i (pos 0)

abbrev pub concat {ℓ} : {A : Type ℓ} → List (List A) → List A
concat [] = []
concat (xs ∷ xss) = xs ++ concat xss
