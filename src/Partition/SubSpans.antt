-- ===== src/Partition/SubSpans.antt =====
-- MakeSubSpans of cpp/arcae/data_partition.cc: one dimension is cut where its disk indices are not
-- consecutive.
mod Cuts
pub mod Runs
pub mod Outcome
use casa_arrow.Base.{
  ℕ, zero, suc, ◌-◌, Bool, not, List, [], ◌∷◌, ◌++◌, length, if◌then◌else◌, Result, ok, err,
  index_error, ◌>>=◌,
}
use casa_arrow.Base.Int.{ℤ, pos, ◌-ℤ◌, is_negative, eqb_ℤ}
use casa_arrow.Partition.{SpanPair, SpanPairs, subspan, disk_at}

-- The variables of the loop: `start`, and `result`.
pub record CutState : Type 0 where
  pub start : ℕ
  pub result : SpanPairs

abbrev pub no_cut : CutState
no_cut = record { start = 0; result = [] }

module _ (disk_span : List ℤ) (mem_span : List ℕ) where
  -- The lambda MakeSubSpan.
  unfoldable pub make_sub_span : ℕ → CutState → CutState
  make_sub_span current s = record {
    start = current;
    result =
        s.result
        ++ record {
          disk = subspan disk_span s.start (current - s.start);
          mem = subspan mem_span s.start (current - s.start);
        }
          ∷ [];
  }

  -- The body of the loop at index i.
  unfoldable pub cut_at : Bool → ℕ → CutState → Result CutState
  cut_at entire_range i s =
      if is_negative (disk_at disk_span i)
      then ok s
      else if is_negative (disk_at disk_span s.start)
      then ok (make_sub_span i s)
      else if eqb_ℤ (disk_at disk_span i) (disk_at disk_span (i - 1))
      then err index_error
      else if eqb_ℤ (disk_at disk_span i -ℤ disk_at disk_span (i - 1)) (pos 1)
      then ok s
      else if not entire_range
      then ok (make_sub_span i s)
      else ok s

  -- The loop, from index i, with the rounds that are left.
  unfoldable pub cut_loop : Bool → ℕ → ℕ → CutState → Result CutState
  cut_loop entire_range zero i s = ok s
  cut_loop entire_range (suc rounds) i s =
      cut_at entire_range i s >>= cut_loop entire_range rounds (suc i)

  unfoldable pub make_sub_spans : Bool → Result SpanPairs
  unfolding make_sub_span cut_at cut_loop
  make_sub_spans entire_range = cut_loop entire_range (length disk_span - 1) 1 no_cut >>= λ s.
      ok (make_sub_span (length disk_span) s).result
