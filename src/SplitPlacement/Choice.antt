-- ===== src/SplitPlacement/Choice.antt =====
-- Where `find_optimal_split_point` (src/internal/split_placement.rs) puts a split.
use regalloc.Base.{ℕ, suc, ◌-◌, ◌<◌, ◌≤◌, Bool, true, false, Returns, Returns-map, arith}
use regalloc.Function.{Function}
use regalloc.SplitPlacement.{SplitPlacement, later_split, earlier_split, find_optimal_split_point}
use regalloc.SplitPlacement.Scan.{IsTransitive}
use regalloc.SplitPlacement.Passed.{IsTotal}
use regalloc.SplitPlacement.Prepared.{Prepared}
use regalloc.SplitPlacement.Layout.{IsLaidOut}
use regalloc.SplitPlacement.Later.{IsBestLater, IsLowerThanPassed, later_split-LaterPoint}
use regalloc.SplitPlacement.Earlier.{IsBestEarlier, IsLowerThanLeft, earlier_split-EarlierPoint}

-- For tables as `prepare` leaves them, frequencies of which `>=` compares any two and is transitive,
-- blocks laid out one after the other and a range within the function, `find_optimal_split_point`
-- returns a point after `after` and at most `before`. With `prefer_early` the block of the point has a
-- lower frequency than that of every earlier point of the range, and no block that starts later in the
-- range has a lower one. Otherwise the block in front of the point has a lower frequency than that of
-- every point from there on before `before`, and no block that ends earlier in the range has a lower
-- one.
pub find_optimal_split_point-IsBest :
    {Freq : Type 0} (geq : Freq → Freq → Bool) (func : Function Freq) (s : SplitPlacement)
    (after before : ℕ)
    → IsTransitive geq
    → IsTotal geq
    → Prepared geq func s
    → IsLaidOut func
    → after < before
    → before ≤ func.num_insts
    → Returns
        (λ r.
          (after < r)
          × (r ≤ before)
          × IsBestLater geq func before r
          × IsLowerThanPassed geq func (suc after) r)
        (find_optimal_split_point geq func s after before true)
      × Returns
          (λ r.
            (after < r)
            × (r ≤ before)
            × IsBestEarlier geq func (suc after) r
            × IsLowerThanLeft geq func before r)
          (find_optimal_split_point geq func s after before false)
unfolding find_optimal_split_point
find_optimal_split_point-IsBest geq func s after before tr total w laid lt bound = (
  Returns-map _ _ (later_split geq (suc (before - after)) func s before (suc after))
      (λ r (a, b, c, d). (omega (arith, a), b, c, d))
      (later_split-LaterPoint geq func tr total s w laid (suc (before - after)) before (suc after)
        (omega arith) bound (omega arith)),
  Returns-map _ _ (earlier_split geq (suc (before - after)) func s (suc after) before)
      (λ r (a, b, c, d). (omega (arith, a), b, c, d))
      (earlier_split-EarlierPoint geq func tr total s w laid (suc (before - after)) (suc after)
        before (omega arith) (omega arith) bound (omega arith)),
)
