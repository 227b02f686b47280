-- ===== src/Runtime/Reach.antt =====
-- The runtime over time: any sequence of placements and settlements of one bankroll, in any order.
use mathlib.Core.Path.{subst}
use finsport.Prelude.{
  ℕ, ◌+◌, ◌≤◌, ◌≡◌, sym, Option, List, [], ◌∷◌, ◌++◌, arith, inl, inr, if◌then◌else◌,
}
use finsport.Decimal.{Decimal}
use finsport.Runtime.State.{Account, Candidate, Position, PositionStatus, is_open, open_count}
use finsport.Runtime.Place.{Validation, Placement, done}
use finsport.Runtime.Place.Steps.{new_position}
use finsport.Runtime.Place.Entry.{place_candidate, call_for}
use finsport.Runtime.Place.Admission.{place-Resumed}
use finsport.Runtime.Settle.{Observation, settle_position, settled}
use finsport.Runtime.Settle.Once.{settle_position-open_count}
use finsport.Runtime.Settle.Funds.{settle_position-max_lanes}
use finsport.Strategy.Deployment.{Deployment}

open_count-append :
    (ps : List Position) (p : Position)
    → open_count (ps ++ p ∷ []) ≡ open_count ps + (if is_open p.status then 1 else 0)
open_count-append [] p = omega arith
open_count-append (q ∷ ps) p = omega (arith, open_count-append ps p)

abbrev pub IsWithinLanes : Account → Type 0
IsWithinLanes a = open_count a.positions ≤ a.config.max_lanes

module _ (column ratio : Decimal → Decimal) where
  -- One transaction that commits. The deployment, its verdict, the clocks and the evidence are
  -- whatever they are at that time.
  pub data Step (a b : Account) : Type 0 where
    place_step :
        (k : Candidate) (kickoff : ℕ) (d : Deployment) (validated : Validation) (now later : ℕ)
        (at : Option ℕ) (o : Placement)
        → place_candidate column a k kickoff d validated now later at ≡ done b o
        → Step a b
    settle_step :
        (m : ℕ) (obs : Observation) (at : ℕ) (t : PositionStatus)
        → settle_position column ratio a m obs at ≡ settled b t
        → Step a b

  pub data Reaches (a : Account) : Account → Type 0 where
    start : Reaches a a
    then_step : {b c : Account} → Reaches a b → Step b c → Reaches a c

  -- A placement never takes a lane that is not free, on any branch.
  pub place-IsWithinLanes :
      (a : Account) (k : Candidate) (kickoff : ℕ) (d : Deployment) (validated : Validation)
      (now later : ℕ) (at : Option ℕ) {b : Account} {o : Placement}
      → IsWithinLanes a
      → place_candidate column a k kickoff d validated now later at ≡ done b o
      → IsWithinLanes b
  place-IsWithinLanes a k kickoff d validated now later at {b} w h =
      elim (place-Resumed column a k kickoff d validated now later at h) [
        | inl u ↦
            subst (λ n. open_count b.positions ≤ n) (sym u.same_lanes)
              (subst (λ ps. open_count ps ≤ a.config.max_lanes) (sym u.same_positions) w)
        | inr (s, used, r, t, found, e, o, x, entry, fine) ↦
            (let free = x.lane_free in
              let c = call_for column a s used kickoff now later at in
              let more = open_count-append a.positions (new_position column c t r) in
              subst IsWithinLanes (sym x.funded.result) (ground (arith, more)))
      ]

  -- Whatever placements and settlements happen, in whatever order, a bankroll that starts within
  -- its lanes never holds more open positions than it has lanes.
  pub Reaches-IsWithinLanes :
      (a : Account) {b : Account} → IsWithinLanes a → Reaches a b → IsWithinLanes b
  Reaches-IsWithinLanes a w start = w
  Reaches-IsWithinLanes a w (then_step r (place_step k kickoff d v now later at o h)) =
      place-IsWithinLanes _ k kickoff d v now later at (Reaches-IsWithinLanes a w r) h
  Reaches-IsWithinLanes a w (then_step r (settle_step m obs at t h)) =
      let before = Reaches-IsWithinLanes a w r in
      let fewer = settle_position-open_count column ratio _ m obs at h in
      let same = settle_position-max_lanes column ratio _ m obs at h in
      rw same (omega (arith, before, fewer))
