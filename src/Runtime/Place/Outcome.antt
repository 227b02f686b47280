-- ===== src/Runtime/Place/Outcome.antt =====
-- What a call of `place_candidate` leaves: the bankroll as it was, or one more booked position.
use mathlib.Core.Path.{subst}
use finsport.Prelude.{
  ℕ, ◌≡◌, refl, Bool, true, false, Option, some, List, [], ◌∷◌, ◌++◌, arith, Option-cases, ◌⊎◌, inl,
  inr, leb, ltb,
}
use finsport.Decimal.{Decimal, add, lt_decimal, le_decimal}
use finsport.Capital.Contracts.{StakeRequest, has_terminated, is_back}
use finsport.Capital.Policies.{request, zero_decimal}
use finsport.Runtime.State.{
  Account, Candidate, ExecutionState, Reason, Diagnostics, is_active, available_cash, open_count,
  find_state,
}
use finsport.Runtime.Place.{
  Placement, done, Call, position_placed, position_refused, waits_for_capacity, no_work,
  terminal_state, created_code, always_refused, terminalize_pending, refuse, wait_for_lane,
  wait_for_cash, wait_new, with_states,
}
use finsport.Runtime.Place.Steps.{reserve, new_position, placed_states, capital_decision}
use finsport.Runtime.Place.Entry.{is_missing}

abbrev pub is_placed : Placement → Bool
is_placed position_placed = true
is_placed position_refused = false
is_placed waits_for_capacity = false
is_placed no_work = false

-- No position is added and nothing is reserved.
pub record IsUnbooked (a b : Account) (o : Placement) : Type 0 where
  pub same_positions : b.positions ≡ a.positions
  pub same_equity : b.config.bankroll_equity ≡ a.config.bankroll_equity
  pub same_reserved : b.config.reserved_exposure ≡ a.config.reserved_exposure
  pub same_lanes : b.config.max_lanes ≡ a.config.max_lanes
  pub not_placed : is_placed o ≡ false

module _ (column : Decimal → Decimal) where
  -- The stake `r` was reserved and its position opened at `at`.
  pub record IsFunded (c : Call) (r : StakeRequest) (at : ℕ) (b : Account) : Type 0 where
    pub in_time : leb c.kickoff at ≡ false
    pub positive : le_decimal r.applied zero_decimal ≡ false
    pub positive_row : le_decimal (column r.applied) zero_decimal ≡ false
    pub running : has_terminated r.termination_reason ≡ false
    pub affordable : lt_decimal (available_cash c.account.config) r.requested ≡ false
    pub covered :
        lt_decimal c.account.config.bankroll_equity
          (add c.account.config.reserved_exposure r.applied)
        ≡ false
    pub result : b ≡ record {
      config = reserve column c.account.config (add c.account.config.reserved_exposure r.applied);
      states = placed_states column c;
      positions = c.account.positions ++ new_position column c at r ∷ [];
    }

  -- Besides, the configuration was active, the decision a bet, and a lane free.
  pub record IsBooked (c : Call) (r : StakeRequest) (at : ℕ) (b : Account) : Type 0 where
    pub pk : ℕ
    pub decided : c.candidate.decision ≡ some pk
    pub alive : is_active c.account.config.status ≡ true
    pub back : is_back c.candidate.action ≡ true
    pub priced : is_missing column c.candidate.selected_price ≡ false
    pub lane_free : ltb (open_count c.account.positions) c.account.config.max_lanes ≡ true
    pub asked :
        request c.account.config.policy
          (capital_decision column c.candidate pk)
          c.account.config.bankroll_equity
          c.account.config.policy_state
        ≡ some r
    pub funded : IsFunded c r at b

  abbrev pub Funding : Call → StakeRequest → Account → Placement → Type 0
  Funding c r b o =
      IsUnbooked c.account b o ⊎ ((at : ℕ) × (o ≡ position_placed) × IsFunded c r at b)

  abbrev pub Ending : Call → Account → Placement → Type 0
  Ending c b o =
      IsUnbooked c.account b o
      ⊎ ((r : StakeRequest) × (at : ℕ) × (o ≡ position_placed) × IsBooked c r at b)

-- The exits that book nothing.
pub done-IsUnbooked :
    (a x : Account) (p : Placement) {b : Account} {o : Placement}
    → IsUnbooked a x p
    → done x p ≡ done b o
    → IsUnbooked a b o
done-IsUnbooked a x p {b} {o} h e =
    let eb : x ≡ b = cc in
    let eo : p ≡ o = cc in subst (λ o. IsUnbooked a b o) eo (subst (λ b. IsUnbooked a b p) eb h)

pub unchanged : (a : Account) (p : Placement) → is_placed p ≡ false → IsUnbooked a a p
unchanged a p h = record {
  same_positions = refl;
  same_equity = refl;
  same_reserved = refl;
  same_lanes = refl;
  not_placed = h;
}

states_only :
    (a : Account) (states : List ExecutionState) (p : Placement)
    → is_placed p ≡ false
    → IsUnbooked a (with_states a states) p
states_only a states p h = record {
  same_positions = refl;
  same_equity = refl;
  same_reserved = refl;
  same_lanes = refl;
  not_placed = h;
}

terminal_state-IsUnbooked :
    (a : Account) (k : Candidate) (reason : Reason) (at : ℕ) (basis : Option Candidate)
    (notes : Diagnostics) (p : Placement)
    → is_placed p ≡ false
    → IsUnbooked a (terminal_state a k reason at basis notes).0 p
unfolding terminal_state
terminal_state-IsUnbooked a k reason at basis notes p h =
    elim (Option-cases (find_state k.match_id a.states)) [
      | inl e ↦ rw (e, terminal_state) (states_only _ _ _ h)
      | inr (s, e) ↦ rw (e, terminal_state) (unchanged a p h)
    ]

pub terminalize-IsUnbooked :
    (a : Account) (s : ExecutionState) (reason : Reason) (at : ℕ) (ended : Bool) {b : Account}
    {o : Placement}
    → terminalize_pending a s reason at ended ≡ done b o
    → IsUnbooked a b o
unfolding terminalize_pending
terminalize-IsUnbooked a s reason at ended h =
    done-IsUnbooked a _ position_refused (states_only _ _ _ refl) h

pub created-IsUnbooked :
    (a : Account) (k : Candidate) (reason : Reason) (at : ℕ) (basis : Option Candidate)
    (notes : Diagnostics) {b : Account} {o : Placement}
    → created_code (terminal_state a k reason at basis notes) ≡ done b o
    → IsUnbooked a b o
created-IsUnbooked a k reason at basis notes h =
    done-IsUnbooked a _ _ (terminal_state-IsUnbooked a k reason at basis notes _ (ground arith)) h

pub refused-IsUnbooked :
    (a : Account) (k : Candidate) (reason : Reason) (at : ℕ) (basis : Option Candidate)
    (notes : Diagnostics) {b : Account} {o : Placement}
    → always_refused (terminal_state a k reason at basis notes) ≡ done b o
    → IsUnbooked a b o
refused-IsUnbooked a k reason at basis notes h =
    done-IsUnbooked a _ _
      (terminal_state-IsUnbooked a k reason at basis notes position_refused refl) h

pub refuse-IsUnbooked :
    (c : Call) (reason : Reason) (at : ℕ) (basis : Option Candidate) (ended : Bool) {b : Account}
    {o : Placement}
    → refuse c reason at basis ended ≡ done b o
    → IsUnbooked c.account b o
unfolding refuse
refuse-IsUnbooked c reason at basis ended h = elim (Option-cases c.state) [
  | inl e ↦ refused-IsUnbooked c.account c.candidate reason at basis _ (rw (e, refuse) at h)
  | inr (s, e) ↦
      terminalize-IsUnbooked c.account s reason c.placement_at ended (rw (e, refuse) at h)
]

pub wait_for_lane-IsUnbooked :
    (c : Call) {b : Account} {o : Placement} → wait_for_lane c ≡ done b o → IsUnbooked c.account b o
unfolding wait_for_lane wait_new
wait_for_lane-IsUnbooked c h = elim (Option-cases c.state) [
  | inl e ↦
      done-IsUnbooked c.account _ waits_for_capacity (states_only _ _ _ refl)
        (rw (e, wait_for_lane) at h)
  | inr (s, e) ↦
      done-IsUnbooked c.account _ no_work (unchanged c.account no_work refl)
        (rw (e, wait_for_lane) at h)
]

pub wait_for_cash-IsUnbooked :
    (c : Call) (requested : Decimal) {b : Account} {o : Placement}
    → wait_for_cash c requested ≡ done b o
    → IsUnbooked c.account b o
unfolding wait_for_cash wait_new
wait_for_cash-IsUnbooked c requested h = elim (Option-cases c.state) [
  | inl e ↦
      done-IsUnbooked c.account _ waits_for_capacity (states_only _ _ _ refl)
        (rw (e, wait_for_cash) at h)
  | inr (s, e) ↦
      done-IsUnbooked c.account _ no_work (states_only _ _ _ refl) (rw (e, wait_for_cash) at h)
]
