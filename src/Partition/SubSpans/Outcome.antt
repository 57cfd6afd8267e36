-- ===== src/Partition/SubSpans/Outcome.antt =====
-- MakeSubSpans as a whole: what it returns, and when it fails.
use mathlib.Core.Path.{subst}
use casa_arrow.Base.{
  ℕ, zero, suc, ◌+◌, ◌-◌, ◌<◌, ◌≡◌, refl, ◌∙◌, sym, ap, inl, inr, Bool, true, false, not, List, ◌⊎◌,
  take, map, length, arith, Result, ok, err, index_error, ◌>>=◌, Bool-cases, if◌then◌else◌,
}
use casa_arrow.Base.Int.{ℤ, pos, ◌-ℤ◌, ◌<ℤ◌, is_negative, eqb_ℤ, eqb_ℤ→eq, pos_part, neg_part}
use casa_arrow.Partition.{SpanPair, SpanPairs, disk_at, concat}
use casa_arrow.Partition.SubSpans.{
  CutState, no_cut, make_sub_span, cut_at, cut_loop, make_sub_spans,
}
use casa_arrow.Partition.SubSpans.Cuts.{take-length}
use casa_arrow.Partition.SubSpans.Runs.{
  Ascends, Segment, AllPairs, IsRange, HasDuplicate, Inv, cut-Inv, negative-Inv, positive-Inv,
  after_negative, cut-disk, cut-mem, cut-ranges,
}

-- A run that ends in a value with P, or in an index error with the reason E.
abbrev pub Outcome {ℓ} : {A : Type ℓ} → (A → Type 0) → Type 0 → Result A → Type 0
Outcome P E (ok a) = P a
Outcome P E (err c) = (c ≡ index_error) × E

pub Outcome-bind {ℓ κ} :
    {A : Type ℓ} {B : Type κ} (P : A → Type 0) (Q : B → Type 0) (E : Type 0) (r : Result A)
    (f : A → Result B)
    → Outcome P E r
    → ((a : A) → P a → Outcome Q E (f a))
    → Outcome Q E (r >>= f)
Outcome-bind P Q E (ok a) f h k = k a h
Outcome-bind P Q E (err c) f h k = h

-- The last two tests of the loop's body, behind an index that is greater than the one before.
by_step :
    (entire : Bool) (xs : List ℤ) (ms : List ℕ) (p : ℕ) (s : CutState)
    → Inv entire xs ms (suc p) s
    → suc p < length xs
    → length xs ≡ length ms
    → is_negative (disk_at xs s.start) ≡ false
    → is_negative (disk_at xs (suc p)) ≡ false
    → disk_at xs p <ℤ disk_at xs (suc p)
    → Outcome (Inv entire xs ms (suc (suc p))) (HasDuplicate xs) (
        if eqb_ℤ (disk_at xs (suc p) -ℤ disk_at xs p) (pos 1)
        then ok s
        else if not entire
        then ok (make_sub_span xs ms (suc p) s)
        else ok s)
by_step true xs ms p s v h same first nonneg lt =
    elim (Bool-cases (eqb_ℤ (disk_at xs (suc p) -ℤ disk_at xs p) (pos 1))) [
      | inl one ↦ rw one (positive-Inv true xs ms p s v h same first nonneg lt lt)
      | inr more ↦ rw more (positive-Inv true xs ms p s v h same first nonneg lt lt)
    ]
by_step false xs ms p s v h same first nonneg lt =
    elim (Bool-cases (eqb_ℤ (disk_at xs (suc p) -ℤ disk_at xs p) (pos 1))) [
      | inl one ↦ rw one (
          positive-Inv false xs ms p s v h same first nonneg lt
            (by_one (disk_at xs p) (disk_at xs (suc p)) one))
      | inr more ↦ rw more (cut-Inv false xs ms p s v h same nonneg (λ _. lt))
    ]
  where
    by_one :
        (a b : ℤ)
        → eqb_ℤ (b -ℤ a) (pos 1) ≡ true
        → pos_part b + neg_part a ≡ pos_part a + neg_part b + 1
    by_one a b e = ground arith

module _ (entire : Bool) (xs : List ℤ) (ms : List ℕ) (asc : Ascends xs)
    (same : length xs ≡ length ms) where
  -- The body keeps the invariant, or fails at a duplicate.
  cut_at-Inv :
      (p : ℕ) (s : CutState)
      → suc p < length xs
      → Inv entire xs ms (suc p) s
      → Outcome (Inv entire xs ms (suc (suc p))) (HasDuplicate xs) (cut_at xs ms entire (suc p) s)
  unfolding cut_at
  cut_at-Inv p s h v = elim (Bool-cases (is_negative (disk_at xs (suc p)))) [
    | inl neg ↦ rw neg (negative-Inv entire xs ms p s v h same asc neg)
    | inr nonneg ↦ rw nonneg (elim (Bool-cases (is_negative (disk_at xs s.start))) [
      | inl first ↦ rw first (
          cut-Inv entire xs ms p s v h same nonneg
            (λ k. absurd (after_negative entire xs ms p s v h same first k)))
      | inr first ↦
          let e : suc p - 1 ≡ p = omega arith in
          rw (first, e)
            (elim (Bool-cases (eqb_ℤ (disk_at xs (suc p)) (disk_at xs p))) [
              | inl twice ↦
                  let d : disk_at xs (suc p) ≡ disk_at xs p = eqb_ℤ→eq _ _ (ground arith) in
                  rw twice (refl, (p, h, rw (← d) nonneg, sym d))
              | inr apart ↦
                  rw apart
                    (by_step entire xs ms p s v h same first nonneg (ground (arith, asc p (suc p))))
            ])
    ])
  ]

  cut_loop-Inv :
      (rounds p : ℕ) (s : CutState)
      → suc p + rounds ≡ length xs
      → Inv entire xs ms (suc p) s
      → Outcome
          (Inv entire xs ms (length xs))
          (HasDuplicate xs)
          (cut_loop xs ms entire rounds (suc p) s)
  unfolding cut_loop
  cut_loop-Inv zero p s e v =
      let e' : suc p ≡ length xs = omega arith in subst (λ i. Inv entire xs ms i s) e' v
  cut_loop-Inv (suc rounds) p s e v =
      Outcome-bind (Inv entire xs ms (suc (suc p))) (Inv entire xs ms (length xs)) (HasDuplicate xs)
        (cut_at xs ms entire (suc p) s) (cut_loop xs ms entire rounds (suc (suc p)))
        (cut_at-Inv p s (omega arith) v) (λ t w. cut_loop-Inv rounds (suc p) t (omega arith) w)

-- What MakeSubSpans returns for one dimension.
pub record IsPartitioned (entire : Bool) (xs : List ℤ) (ms : List ℕ) (spans : SpanPairs)
    : Type 0 where
  pub disk_kept : concat (map (λ (p : SpanPair). p.disk) spans) ≡ xs
  pub mem_kept : concat (map (λ (p : SpanPair). p.mem) spans) ≡ ms
  pub in_ranges : AllPairs (IsRange entire) spans
  pub no_duplicate :
      (j : ℕ)
      → suc j < length xs
      → is_negative (disk_at xs j) ≡ false
      → disk_at xs j <ℤ disk_at xs (suc j)

no_cut-Inv : (entire : Bool) (xs : List ℤ) (ms : List ℕ) → Inv entire xs ms 1 no_cut
no_cut-Inv entire xs ms = record {
  before = omega arith;
  disk_done = refl;
  mem_done = refl;
  ranges = tt;
  open_run = first (Bool-cases (is_negative (disk_at xs 0)));
  strict = λ j lt. absurd (omega arith);
}
  where
    first :
        (is_negative (disk_at xs 0) ≡ true) ⊎ (is_negative (disk_at xs 0) ≡ false)
        → Segment entire xs 0 1
    first (inl neg) = inl λ j lo lt.
        let e : 0 ≡ j = omega arith in subst (λ k. is_negative (disk_at xs k) ≡ true) e neg
    first (inr nonneg) = inr (
      λ j lo lt.
          let e : 0 ≡ j = omega arith in subst (λ k. is_negative (disk_at xs k) ≡ false) e nonneg,
      λ j lo lt. absurd (omega arith),
    )

-- On ascending disk indices, with as many memory indices, MakeSubSpans either returns ranges that
-- put together are the two spans, each of them not empty, with as many disk as memory indices and
-- either negative throughout or a range of indices that follow one another (by one, or where the
-- entire range is kept, upwards), and then no index that is not negative stands twice; or it
-- fails with an index error, and then one does.
pub make_sub_spans-IsPartitioned :
    (entire : Bool) (xs : List ℤ) (ms : List ℕ)
    → Ascends xs
    → length xs ≡ length ms
    → 0 < length xs
    → Outcome (IsPartitioned entire xs ms) (HasDuplicate xs) (make_sub_spans xs ms entire)
unfolding make_sub_spans
make_sub_spans-IsPartitioned entire xs ms asc same some_ids =
    Outcome-bind (Inv entire xs ms (length xs)) (IsPartitioned entire xs ms) (HasDuplicate xs)
      (cut_loop xs ms entire (length xs - 1) 1 no_cut)
      (λ s. ok (make_sub_span xs ms (length xs) s).result)
      (cut_loop-Inv entire xs ms asc same (length xs - 1) 0 no_cut (omega arith)
        (no_cut-Inv entire xs ms))
      (λ s v. record {
        disk_kept = cut-disk entire xs ms (length xs) s v (omega arith) same ∙ take-length xs;
        mem_kept =
            cut-mem entire xs ms (length xs) s v (omega arith) same
            ∙ ap (λ n. take n ms) same
            ∙ take-length ms;
        in_ranges = cut-ranges entire xs ms (length xs) s v (omega arith) same;
        no_duplicate = v.strict;
      })
