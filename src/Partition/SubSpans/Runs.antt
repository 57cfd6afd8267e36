-- ===== src/Partition/SubSpans/Runs.antt =====
-- The ranges into which MakeSubSpans of cpp/arcae/data_partition.cc cuts.
use casa_arrow.Base.{
  ℕ, suc, ◌+◌, ◌-◌, ◌≤◌, ◌<◌, ◌≡◌, ◌∙◌, sym, ap, ◌⊎◌, inl, inr, Bool, true, false, List, [], ◌∷◌,
  ◌++◌, map, length, take, arith,
}
use mathlib.Core.Path.{subst, subst₂}
use native.Mathlib.Decide.{dec_lt}
use casa_arrow.Partition.SubSpans.Cuts.{
  concat-map_snoc, take-append-subspan, get_or-subspan, length-subspan,
}
use casa_arrow.Base.Int.{ℤ, pos, pos_part, neg_part, ◌≤ℤ◌, ◌<ℤ◌, is_negative}
use casa_arrow.Partition.{SpanPair, SpanPairs, subspan, disk_at, concat}
use casa_arrow.Partition.SubSpans.{CutState, make_sub_span}

-- Ascending, as a sorted vector is.
abbrev pub Ascends : List ℤ → Type 0
Ascends xs = (i j : ℕ) → i ≤ j → j < length xs → disk_at xs i ≤ℤ disk_at xs j

-- How one index follows another inside a range: by one, or, where the entire range is kept,
-- at any greater index.
abbrev pub Follows : Bool → ℤ → ℤ → Type 0
Follows true a b = a <ℤ b
Follows false a b = pos_part b + neg_part a ≡ pos_part a + neg_part b + 1

-- All indices in [start, stop) are negative, or none is and each follows the one before.
abbrev pub Segment : Bool → List ℤ → ℕ → ℕ → Type 0
Segment entire xs start stop =
    ((j : ℕ) → start ≤ j → j < stop → is_negative (disk_at xs j) ≡ true)
    ⊎ (((j : ℕ) → start ≤ j → j < stop → is_negative (disk_at xs j) ≡ false)
        × ((j : ℕ) → start ≤ j → suc j < stop → Follows entire (disk_at xs j) (disk_at xs (suc j))))

-- A whole list is such a segment.
abbrev pub IsRun : Bool → List ℤ → Type 0
IsRun entire xs = Segment entire xs 0 (length xs)

abbrev pub AllPairs : (SpanPair → Type 0) → SpanPairs → Type 0
AllPairs P [] = Unit
AllPairs P (x ∷ xs) = P x × AllPairs P xs

-- Some index that is not negative stands twice.
abbrev pub HasDuplicate : List ℤ → Type 0
HasDuplicate xs =
    (i : ℕ) × (suc i < length xs)
    × (is_negative (disk_at xs i) ≡ false)
    × (disk_at xs i ≡ disk_at xs (suc i))

-- What one span pair of the result is.
pub record IsRange (entire : Bool) (p : SpanPair) : Type 0 where
  pub run : IsRun entire p.disk
  pub same_length : length p.disk ≡ length p.mem
  pub inhabited : 0 < length p.disk

AllPairs-snoc :
    (P : SpanPair → Type 0) (ps : SpanPairs) {p : SpanPair}
    → AllPairs P ps
    → P p
    → AllPairs P (ps ++ p ∷ [])
AllPairs-snoc P [] h k = (k, tt)
AllPairs-snoc P (q ∷ ps) h k = (h.0, AllPairs-snoc P ps h.1 k)

module _ (entire : Bool) (xs : List ℤ) (ms : List ℕ) where
  -- The state before index i is looked at.
  pub record Inv (i : ℕ) (s : CutState) : Type 0 where
    pub before : s.start < i
    pub disk_done : concat (map (λ (p : SpanPair). p.disk) s.result) ≡ take s.start xs
    pub mem_done : concat (map (λ (p : SpanPair). p.mem) s.result) ≡ take s.start ms
    pub ranges : AllPairs (IsRange entire) s.result
    pub open_run : Segment entire xs s.start i
    pub strict :
        (j : ℕ)
        → suc j < i
        → is_negative (disk_at xs j) ≡ false
        → disk_at xs j <ℤ disk_at xs (suc j)

  module _ (start stop : ℕ) (h : start ≤ stop) (k : stop ≤ length xs) where
    in_subspan : (j : ℕ) → j < length (subspan xs start (stop - start)) → start + j < stop
    in_subspan j lt = omega (arith, length-subspan xs start stop h k)

    disk_at-subspan :
        (j : ℕ)
        → j < length (subspan xs start (stop - start))
        → disk_at (subspan xs start (stop - start)) j ≡ disk_at xs (start + j)
    disk_at-subspan j lt =
        get_or-subspan xs start (stop - start) j (pos 0) (omega (arith, in_subspan j lt))

    Segment-subspan : Segment entire xs start stop → IsRun entire (subspan xs start (stop - start))
    Segment-subspan (inl neg) =
        inl λ j lo lt. rw (disk_at-subspan j lt) (neg (start + j) (omega arith) (in_subspan j lt))
    Segment-subspan (inr (nonneg, next)) = inr (
      λ j lo lt. rw (disk_at-subspan j lt) (nonneg (start + j) (omega arith) (in_subspan j lt)),
      λ j lo lt.
          let here = disk_at-subspan j (omega arith) in
          let e : start + suc j ≡ suc (start + j) = omega arith in
          let there : disk_at (subspan xs start (stop - start)) (suc j)
              ≡ disk_at xs (suc (start + j)) =
            disk_at-subspan (suc j) lt ∙ ap (disk_at xs) e in
          subst₂ (Follows entire) (sym here) (sym there)
            (next (start + j) (omega arith) (omega (arith, in_subspan (suc j) lt))),
    )

  module _ (i : ℕ) (s : CutState) (v : Inv i s) (h : i ≤ length xs)
      (same : length xs ≡ length ms) where
    pub cut-disk :
        concat (map (λ (p : SpanPair). p.disk) (make_sub_span xs ms i s).result) ≡ take i xs
    unfolding make_sub_span
    cut-disk =
        concat-map_snoc (λ (p : SpanPair). p.disk) s.result _
        ∙ ap (λ l. l ++ subspan xs s.start (i - s.start)) v.disk_done
        ∙ take-append-subspan xs s.start i (omega (arith, v.before))

    pub cut-mem :
        concat (map (λ (p : SpanPair). p.mem) (make_sub_span xs ms i s).result) ≡ take i ms
    unfolding make_sub_span
    cut-mem =
        concat-map_snoc (λ (p : SpanPair). p.mem) s.result _
        ∙ ap (λ l. l ++ subspan ms s.start (i - s.start)) v.mem_done
        ∙ take-append-subspan ms s.start i (omega (arith, v.before))

    pub cut-ranges : AllPairs (IsRange entire) (make_sub_span xs ms i s).result
    unfolding make_sub_span
    cut-ranges =
        let starts = v.before in
        let len = length-subspan xs s.start i (omega arith) h in
        let len' = length-subspan ms s.start i (omega arith) (omega arith) in
        AllPairs-snoc (IsRange entire) s.result v.ranges (record {
          run = Segment-subspan s.start i (omega arith) h v.open_run;
          same_length = len ∙ sym len';
          inhabited = omega (arith, len);
        })

  module _ (p : ℕ) (s : CutState) (v : Inv (suc p) s) (h : suc p < length xs)
      (same : length xs ≡ length ms) where
    -- The pairs up to the one that ends at the new index.
    strict_up :
        (is_negative (disk_at xs p) ≡ false → disk_at xs p <ℤ disk_at xs (suc p))
        → (j : ℕ) → suc j < suc (suc p)
        → is_negative (disk_at xs j) ≡ false
        → disk_at xs j <ℤ disk_at xs (suc j)
    strict_up new j lt = elim (dec_lt (suc j) (suc p)) [
      | yes old ↦ v.strict j old
      | no last ↦
          let e : p ≡ j = omega arith in
          subst (λ k. is_negative (disk_at xs k) ≡ false → disk_at xs k <ℤ disk_at xs (suc k)) e new
    ]

    -- A new range is opened at the index.
    pub cut-Inv :
        is_negative (disk_at xs (suc p)) ≡ false
        → (is_negative (disk_at xs p) ≡ false → disk_at xs p <ℤ disk_at xs (suc p))
        → Inv (suc (suc p)) (make_sub_span xs ms (suc p) s)
    unfolding make_sub_span
    cut-Inv nonneg new = record {
      before = omega arith;
      disk_done = cut-disk (suc p) s v (omega arith) same;
      mem_done = cut-mem (suc p) s v (omega arith) same;
      ranges = cut-ranges (suc p) s v (omega arith) same;
      open_run = inr (
        λ j lo lt.
            let e : suc p ≡ j = omega arith in
            subst (λ k. is_negative (disk_at xs k) ≡ false) e nonneg,
        λ j lo lt. absurd (omega arith),
      );
      strict = strict_up new;
    }

    -- The open range goes on: all its indices are negative.
    pub negative-Inv : Ascends xs → is_negative (disk_at xs (suc p)) ≡ true → Inv (suc (suc p)) s
    negative-Inv asc neg = record {
      before = omega (arith, v.before);
      disk_done = v.disk_done;
      mem_done = v.mem_done;
      ranges = v.ranges;
      open_run = inl λ j lo lt. ground (arith, asc j (suc p));
      strict = strict_up λ nonneg. absurd (ground (arith, asc p (suc p)));
    }

    -- The open range goes on: its indices are not negative.
    pub positive-Inv :
        is_negative (disk_at xs s.start) ≡ false
        → is_negative (disk_at xs (suc p)) ≡ false
        → disk_at xs p <ℤ disk_at xs (suc p)
        → Follows entire (disk_at xs p) (disk_at xs (suc p))
        → Inv (suc (suc p)) s
    positive-Inv first last lt next = record {
      before = omega (arith, v.before);
      disk_done = v.disk_done;
      mem_done = v.mem_done;
      ranges = v.ranges;
      open_run = go v.open_run;
      strict = strict_up λ _. lt;
    }
      where
        go : Segment entire xs s.start (suc p) → Segment entire xs s.start (suc (suc p))
        go (inl neg) = absurd (ground (arith, neg s.start, v.before))
        go (inr (nonneg, follows)) = inr (
          λ j lo hi. elim (dec_lt j (suc p)) [
            | yes old ↦ nonneg j lo old
            | no new ↦
                let e : suc p ≡ j = omega arith in
                subst (λ k. is_negative (disk_at xs k) ≡ false) e last
          ],
          λ j lo hi. elim (dec_lt (suc j) (suc p)) [
            | yes old ↦ follows j lo old
            | no new ↦
                let e : p ≡ j = omega arith in
                subst (λ k. Follows entire (disk_at xs k) (disk_at xs (suc k))) e next
          ],
        )

    -- Behind a negative range there is no earlier index that is not negative.
    pub after_negative :
        is_negative (disk_at xs s.start) ≡ true → is_negative (disk_at xs p) ≡ false → ⊥
    after_negative first nonneg = go v.open_run
      where
        go : Segment entire xs s.start (suc p) → ⊥
        go (inl neg) = ground (arith, neg p, v.before)
        go (inr (nonneg', _)) = ground (arith, nonneg' s.start, v.before)
