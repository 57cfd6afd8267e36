-- ===== src/Partition/Product/Choices.antt =====
-- The chunks of CartesianProduct in cpp/arcae/data_partition.cc.
use mathlib.Core.List.{append_assoc, append-nil, map-append}
use casa_arrow.Base.{
  ◌*◌, ◌≡◌, refl, ◌∙◌, sym, ap, ap₂, List, [], ◌∷◌, ◌++◌, map, length, length-append, length-map,
  arith, Bool-cases, inl, inr,
}
use casa_arrow.Partition.{SpanPair, SpanPairs}
use casa_arrow.Partition.Product.{
  extend_product, product_loop, n_products, cartesian_product, secondary_dimensions_contiguous,
}

-- Each head before all of the tails, in order.
abbrev pub pair_up : SpanPairs → List SpanPairs → List SpanPairs
pair_up [] tails = []
pair_up (p ∷ ps) tails = map (λ t. p ∷ t) tails ++ pair_up ps tails

-- The choices of one span pair in each dimension, the last dimension running fastest.
abbrev pub choices : List SpanPairs → List SpanPairs
choices [] = [] ∷ []
choices (spans ∷ dims) = pair_up spans (choices dims)

-- Every start so far, continued by every choice.
continue_all : List SpanPairs → List SpanPairs → List SpanPairs
continue_all [] rest = []
continue_all (r ∷ rs) rest = map (λ t. r ++ t) rest ++ continue_all rs rest

continue_all-append :
    (rs rs' rest : List SpanPairs)
    → continue_all (rs ++ rs') rest ≡ continue_all rs rest ++ continue_all rs' rest
unfolding continue_all
continue_all-append [] rs' rest = refl
continue_all-append (r ∷ rs) rs' rest =
    rw (continue_all-append rs rs' rest)
      (sym (append_assoc (map (λ t. r ++ t) rest) (continue_all rs rest) (continue_all rs' rest)))

map-continue :
    (r : SpanPairs) (p : SpanPair) (rest : List SpanPairs)
    → map (λ t. (r ++ p ∷ []) ++ t) rest ≡ map (λ t. r ++ t) (map (λ t. p ∷ t) rest)
map-continue r p [] = refl
map-continue r p (t ∷ rest) = ap₂ ◌∷◌ (append_assoc r (p ∷ []) t) (map-continue r p rest)

continue_all-map :
    (r : SpanPairs) (spans : SpanPairs) (rest : List SpanPairs)
    → continue_all (map (λ p. r ++ p ∷ []) spans) rest ≡ map (λ t. r ++ t) (pair_up spans rest)
unfolding continue_all
continue_all-map r [] rest = refl
continue_all-map r (p ∷ spans) rest =
    ap₂ ◌++◌ (map-continue r p rest) (continue_all-map r spans rest)
    ∙ sym (map-append (λ t. r ++ t) (map (λ t. p ∷ t) rest) (pair_up spans rest))

continue_all-extend :
    (rs : List SpanPairs) (spans : SpanPairs) (rest : List SpanPairs)
    → continue_all (extend_product rs spans) rest ≡ continue_all rs (pair_up spans rest)
unfolding continue_all extend_product
continue_all-extend [] spans rest = refl
continue_all-extend (r ∷ rs) spans rest =
    continue_all-append (map (λ p. r ++ p ∷ []) spans) (extend_product rs spans) rest
    ∙ ap₂ ◌++◌ (continue_all-map r spans rest) (continue_all-extend rs spans rest)

continue_all-nil : (rs : List SpanPairs) → continue_all rs ([] ∷ []) ≡ rs
unfolding continue_all
continue_all-nil [] = refl
continue_all-nil (r ∷ rs) = ap₂ ◌∷◌ (append-nil r) (continue_all-nil rs)

product_loop-continue :
    (rs dims : List SpanPairs) → product_loop rs dims ≡ continue_all rs (choices dims)
unfolding product_loop
product_loop-continue rs [] = sym (continue_all-nil rs)
product_loop-continue rs (spans ∷ dims) =
    product_loop-continue (extend_product rs spans) dims
    ∙ continue_all-extend rs spans (choices dims)

map-nil_append : (rest : List SpanPairs) → map (λ t. [] ++ t) rest ≡ rest
map-nil_append [] = refl
map-nil_append (t ∷ rest) = ap (◌∷◌ t) (map-nil_append rest)

-- The chunks of the partition are the choices of one span pair in each dimension.
pub cartesian_product-choices :
    (dims : List SpanPairs) → (cartesian_product dims).dim_spans ≡ choices dims
unfolding cartesian_product continue_all
cartesian_product-choices dims = elim (Bool-cases (secondary_dimensions_contiguous dims)) [
  | inl h ↦ rw h from_empty
  | inr h ↦ rw h from_empty
]
  where
    from_empty : product_loop ([] ∷ []) dims ≡ choices dims
    from_empty =
        product_loop-continue ([] ∷ []) dims
        ∙ append-nil (map (λ t. [] ++ t) (choices dims))
        ∙ map-nil_append (choices dims)

length-pair_up :
    (spans : SpanPairs) (tails : List SpanPairs)
    → length (pair_up spans tails) ≡ length spans * length tails
length-pair_up [] tails = omega arith
length-pair_up (p ∷ spans) tails = omega (
  arith,
  length-append (map (λ t. p ∷ t) tails) (pair_up spans tails),
  length-map tails (λ (t : SpanPairs). p ∷ t),
  length-pair_up spans tails,
)

pub length-choices : (dims : List SpanPairs) → length (choices dims) ≡ n_products dims
unfolding n_products
length-choices [] = refl
length-choices (spans ∷ dims) =
    length-pair_up spans (choices dims) ∙ ap (λ n. length spans * n) (length-choices dims)
