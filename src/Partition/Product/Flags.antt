-- ===== src/Partition/Product/Flags.antt =====
-- The contiguity flags of the whole product.
use casa_arrow.Base.{
  ℕ, zero, suc, ◌<◌, ◌≡◌, refl, ◌∙◌, sym, ap, subst, true, false, List, [], ◌∷◌, map, length, iota,
  replicate, get_or, get_or-map, length-map, length-replicate, arith, inl, inr, Bool-cases,
}
use mathlib.Core.Bool.{false≢true}
use casa_arrow.Partition.{SpanPair, SpanPairs}
use casa_arrow.Partition.Product.{
  no_span, secondary_dimensions_contiguous, is_memory_contiguous, ascends_by_one, n_products,
  row_spans, cartesian_product,
}
use casa_arrow.Partition.Product.Choices.{cartesian_product-choices, length-choices}
use casa_arrow.Partition.Product.Contiguity.{
  IsOnePiece, IsWhole, n_indices, one_first-n_indices, AllInhabited, only_rows, choices-only_rows,
  n_products-rows, stride_loop-one, rows_loop-flags, contiguous_rest, ascends_by_one-iota,
}

get_or-replicate-false : (n c : ℕ) → get_or (replicate n false) c false ≡ false
get_or-replicate-false zero c = refl
get_or-replicate-false (suc n) zero = refl
get_or-replicate-false (suc n) (suc c) = get_or-replicate-false n c

row-IsOnePiece :
    (row : SpanPair)
    → is_memory_contiguous row ≡ true
    → (start : ℕ) × (row.mem ≡ iota (length row.mem) start)
unfolding is_memory_contiguous
row-IsOnePiece row h = go row.mem h
  where
    go : (mem : List ℕ) → ascends_by_one mem ≡ true → (start : ℕ) × (mem ≡ iota (length mem) start)
    go [] h = (0, refl)
    go (m ∷ mem) h = (m, ascends_by_one-iota m mem h)

only_rows-IsOnePiece :
    (dims : List SpanPairs) (row : SpanPair)
    → secondary_dimensions_contiguous dims ≡ true
    → is_memory_contiguous row ≡ true
    → IsOnePiece (only_rows dims row)
only_rows-IsOnePiece [] row c h = row-IsOnePiece row h
only_rows-IsOnePiece (spans ∷ []) row c h = row-IsOnePiece row h
only_rows-IsOnePiece (spans ∷ next ∷ []) row c h =
    let rest = contiguous_rest spans next [] c in (rest.0, row-IsOnePiece row h)
only_rows-IsOnePiece (spans ∷ next ∷ more ∷ dims) row c h =
    let rest = contiguous_rest spans next (more ∷ dims) c in
    (rest.0, only_rows-IsOnePiece (next ∷ more ∷ dims) row rest.1 h)

only_rows-IsWhole :
    (dims : List SpanPairs) (row : SpanPair)
    → AllInhabited dims
    → secondary_dimensions_contiguous dims ≡ true
    → IsWhole (map n_indices dims) (only_rows dims row)
only_rows-IsWhole [] row inh c = tt
only_rows-IsWhole (spans ∷ []) row inh c = tt
only_rows-IsWhole (spans ∷ next ∷ []) row inh c = (one_first-n_indices spans next [] inh c, tt)
only_rows-IsWhole (spans ∷ next ∷ more ∷ dims) row inh c =
    let rest = contiguous_rest spans next (more ∷ dims) c in
    (
      one_first-n_indices spans next (more ∷ dims) inh c,
      only_rows-IsWhole (next ∷ more ∷ dims) row inh.1 rest.1,
    )

module _ (dims : List SpanPairs) (h : 0 < length dims) (inh : AllInhabited dims) where
  pub flags-rows :
      secondary_dimensions_contiguous dims ≡ true
      → (cartesian_product dims).contiguous ≡ map is_memory_contiguous (row_spans dims)
  unfolding cartesian_product
  flags-rows c =
      rw (c, stride_loop-one dims 1 inh c, n_products-rows dims h inh c)
        (rows_loop-flags (row_spans dims) [])

  flags-none :
      secondary_dimensions_contiguous dims ≡ false
      → (cartesian_product dims).contiguous ≡ replicate (n_products dims) false
  unfolding cartesian_product
  flags-none c = rw c

  -- For at least one dimension, and a span in every dimension, the product has one chunk for each
  -- combination of span choices, and one flag for each chunk.
  pub cartesian_product-length :
      (length (cartesian_product dims).dim_spans ≡ n_products dims)
      × (length (cartesian_product dims).contiguous ≡ n_products dims)
  cartesian_product-length = (
    ap length (cartesian_product-choices dims) ∙ length-choices dims,
    elim (Bool-cases (secondary_dimensions_contiguous dims)) [
      | inl c ↦
          ap length (flags-rows c)
          ∙ length-map (row_spans dims) is_memory_contiguous
          ∙ sym (n_products-rows dims h inh c)
      | inr c ↦ ap length (flags-none c) ∙ length-replicate (n_products dims) false
    ],
  )

  -- For at least one dimension, and a span in every dimension, a chunk that is flagged contiguous is
  -- one piece of the result: in each secondary dimension it has as many memory indices as all spans
  -- of the dimension together, and these are 0, 1, and so on; its rows are consecutive.
  pub cartesian_product-IsOnePiece :
      (c : ℕ)
      → c < length (cartesian_product dims).dim_spans
      → get_or (cartesian_product dims).contiguous c false ≡ true
      → IsOnePiece (get_or (cartesian_product dims).dim_spans c [])
        × IsWhole (map n_indices dims) (get_or (cartesian_product dims).dim_spans c [])
  cartesian_product-IsOnePiece c lt flag =
      elim (Bool-cases (secondary_dimensions_contiguous dims)) [
        | inr none ↦ absurd (
            false≢true (
              sym (get_or-replicate-false (n_products dims) c)
              ∙ ap (λ l. get_or l c false) (sym (flags-none none))
              ∙ flag))
        | inl all ↦
            let chunks = cartesian_product-choices dims ∙ choices-only_rows dims h inh all in
            let rows = row_spans dims in
            let c_row : c < length rows =
              omega (arith, cartesian_product-length.0, n_products-rows dims h inh all) in
            let chunk : get_or (cartesian_product dims).dim_spans c []
                ≡ only_rows dims (get_or rows c no_span) =
              ap (λ l. get_or l c []) chunks
              ∙ get_or-map rows (only_rows dims) c no_span [] c_row in
            let contiguous_row : is_memory_contiguous (get_or rows c no_span) ≡ true =
              sym (get_or-map rows is_memory_contiguous c no_span false c_row)
              ∙ ap (λ l. get_or l c false) (sym (flags-rows all))
              ∙ flag in
            (
              subst IsOnePiece (sym chunk) (only_rows-IsOnePiece dims _ all contiguous_row),
              subst (IsWhole (map n_indices dims)) (sym chunk) (only_rows-IsWhole dims _ inh all),
            )
      ]
