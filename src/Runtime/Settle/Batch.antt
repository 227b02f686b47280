-- ===== src/Runtime/Settle/Batch.antt =====
-- One observation settles the open positions of its match, bankroll by bankroll.
use finsport.Prelude.{ℕ, ◌+◌, ◌≡◌, refl, List, [], ◌∷◌, arith}
use finsport.Decimal.{Decimal}
use finsport.Runtime.State.{Account, open_count}
use finsport.Runtime.Settle.{
  Observation, Settling, settled, idle, failed, settle_position, settle_observation,
}
use finsport.Runtime.Settle.Once.{settle_position-open_count}

-- The open positions of all bankrolls.
abbrev pub total_open : List Account → ℕ
total_open [] = 0
total_open (a ∷ rest) = open_count a.positions + total_open rest

module _ (column ratio : Decimal → Decimal) where
  -- The number that `settle_observation` returns is that of the positions it closed, also when it
  -- stops at an error: the open positions before are those after and that many more.
  pub settle_observation-total_open :
      (accounts : List Account) (obs : Observation) (at : ℕ)
      → total_open accounts
        ≡ total_open (settle_observation column ratio accounts obs at).0
          + (settle_observation column ratio accounts obs at).1.0
  unfolding settle_observation
  settle_observation-total_open [] obs at = omega arith
  settle_observation-total_open (a ∷ rest) obs at =
      go (settle_observation-total_open rest obs at) _ refl
    where
      go :
          total_open rest
            ≡ total_open (settle_observation column ratio rest obs at).0
              + (settle_observation column ratio rest obs at).1.0
          → (s : Settling) → settle_position column ratio a obs.match_id obs at ≡ s
          → total_open (a ∷ rest)
            ≡ total_open (settle_observation column ratio (a ∷ rest) obs at).0
              + (settle_observation column ratio (a ∷ rest) obs at).1.0
      go ih (settled b t) e =
          let one = settle_position-open_count column ratio a obs.match_id obs at e in
          rw (e, settle_observation) (omega (arith, ih, one))
      go ih idle e = rw (e, settle_observation) (omega (arith, ih))
      go ih (failed x) e = rw (e, settle_observation) (omega arith)
