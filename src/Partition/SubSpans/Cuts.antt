-- ===== src/Partition/SubSpans/Cuts.antt =====
-- Facts about cutting a list into consecutive spans.
use mathlib.Core.List.{append_assoc, append-nil}
use casa_arrow.Base.{
  ℕ, zero, suc, ◌+◌, ◌-◌, ◌≤◌, ◌<◌, ◌≡◌, refl, ◌∙◌, ap, List, [], ◌∷◌, ◌++◌, map, length, take,
  drop, get_or, get_or-take, get_or-drop, length-take, length-drop, arith,
}
use casa_arrow.Partition.{subspan, concat}

module _ {ℓ} {A : Type ℓ} where
  concat-append : (xss : List (List A)) (ys : List A) → concat (xss ++ ys ∷ []) ≡ concat xss ++ ys
  concat-append [] ys = append-nil ys
  concat-append (xs ∷ xss) ys = rw (concat-append xss ys, append_assoc xs (concat xss) ys)

  pub concat-map_snoc {κ} :
      {B : Type κ} (f : B → List A) (bs : List B) (b : B)
      → concat (map f (bs ++ b ∷ [])) ≡ concat (map f bs) ++ f b
  concat-map_snoc f [] b = append-nil (f b)
  concat-map_snoc f (c ∷ bs) b =
      rw (concat-map_snoc f bs b, append_assoc (f c) (concat (map f bs)) (f b))

  -- The part up to `start` and the span behind it.
  pub take-append-subspan :
      (xs : List A) (start stop : ℕ)
      → start ≤ stop
      → take start xs ++ subspan xs start (stop - start) ≡ take stop xs
  take-append-subspan xs zero stop h =
      let e : stop - 0 ≡ stop = omega arith in ap (λ n. take n xs) e
  take-append-subspan xs (suc start) zero h = absurd (omega arith)
  take-append-subspan [] (suc start) (suc stop) h =
      let e : subspan {A = A} [] (suc start) (suc stop - suc start) ≡ [] = take-nil _ in e
    where
      take-nil : (n : ℕ) → take {A = A} n [] ≡ []
      take-nil zero = refl
      take-nil (suc n) = refl
  take-append-subspan (x ∷ xs) (suc start) (suc stop) h =
      let e : suc stop - suc start ≡ stop - start = omega arith in
      rw e (ap (◌∷◌ x) (take-append-subspan xs start stop (omega arith)))

  pub get_or-subspan :
      (xs : List A) (start len j : ℕ) (d : A)
      → j < len
      → get_or (subspan xs start len) j d ≡ get_or xs (start + j) d
  get_or-subspan xs start len j d h =
      get_or-take len j (drop start xs) d h ∙ get_or-drop start j xs d

  pub length-subspan :
      (xs : List A) (start stop : ℕ)
      → start ≤ stop
      → stop ≤ length xs
      → length (subspan xs start (stop - start)) ≡ stop - start
  length-subspan xs start stop h k =
      omega (arith, length-take (stop - start) (drop start xs), length-drop start xs)

  pub take-length : (xs : List A) → take (length xs) xs ≡ xs
  take-length [] = refl
  take-length (x ∷ xs) = ap (◌∷◌ x) (take-length xs)
