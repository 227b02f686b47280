-- ===== src/Capital/Replay/Settlement.antt =====
-- One batch of `replay`: what the requests and the settlement loop make of its decisions.
use mathlib.Core.Path.{subst}
use finsport.Prelude.{
  ℕ, ◌+◌, ◌≡◌, refl, sym, ap, ◌∙◌, true, false, Option, none, some, List, [], ◌∷◌, map, All, keep,
  Bool-cases, inl, inr, bind-eq-some, same_of_some,
}
use finsport.Decimal.{Decimal, add, sum_from}
use finsport.Capital.Contracts.{CapitalDecision, StakeRequest, PolicyState, actionable, action_won}
use finsport.Capital.Policies.{Policy, request, settle, zero_decimal}
use finsport.Capital.Replay.{
  Asked, is_set, ask, batch_requests, requested_stakes, policy_zero_request,
}
use finsport.Capital.Replay.Loop.{
  Settled, BatchEnd, settle_batch, settled_as, append_length, counts_incomplete, bet_pnl,
}

-- Exactly the bets of a batch have a request.
abbrev pub IsAligned : List Asked → Type 0
IsAligned = All (λ a. is_set a.1 ≡ actionable a.0)

is_set-ask :
    (p : Policy) (bankroll : Decimal) (s : PolicyState) (d : CapitalDecision)
    (r : Option StakeRequest)
    → ask p bankroll s d ≡ some r
    → is_set r ≡ actionable d
unfolding ask
is_set-ask p bankroll s d r h = elim (Bool-cases (actionable d)) [
  | inl bets ↦
      (let (q, found, is) =
          bind-eq-some (request p d bankroll s) (λ q. some (some q)) (rw (bets, ask) at h) in
        rw (← same_of_some is, bets))
  | inr idle ↦ (let is : some none ≡ some r = rw (idle, ask) at h in rw (← same_of_some is, idle))
]

pub batch_requests-IsAligned :
    (p : Policy) (bankroll : Decimal) (s : PolicyState) (ds : List CapitalDecision)
    {asked : List Asked}
    → batch_requests p bankroll s ds ≡ some asked
    → IsAligned asked × (map (λ a. a.0) asked ≡ ds)
unfolding batch_requests
batch_requests-IsAligned p bankroll s [] h =
    subst (λ asked. IsAligned asked × (map (λ a. a.0) asked ≡ [])) (same_of_some h) (tt, refl)
batch_requests-IsAligned p bankroll s (d ∷ ds) h =
    let (r, one, next) = bind-eq-some (ask p bankroll s d) _ h in
    let (rest, others, is) = bind-eq-some (batch_requests p bankroll s ds) _ next in
    let (aligned, same) = batch_requests-IsAligned p bankroll s ds others in
    subst (λ asked. IsAligned asked × (map (λ a. a.0) asked ≡ d ∷ ds)) (same_of_some is)
      ((is_set-ask p bankroll s d r one, aligned), ap (λ xs. d ∷ xs) same)

abbrev pub bets_of : List Settled → List Settled
bets_of = keep (λ x. actionable x.decision)

-- What the settlement loop records of a batch.
pub record IsSettled (pnl : Decimal) (asked : List Asked) (e : BatchEnd) : Type 0 where
  pub total : e.batch_pnl ≡ sum_from pnl (map (λ x. x.pnl) (bets_of e.settled))
  pub stakes : requested_stakes asked ≡ map (λ x. x.request.requested) (bets_of e.settled)
  pub each_pnl :
      All (λ x. actionable x.decision ≡ true → bet_pnl x.decision x.request ≡ some x.pnl) e.settled
  pub decisions : map (λ x. x.decision) e.settled ≡ map (λ a. a.0) asked

idle_settled :
    (s : PolicyState) (pnl : Decimal) (d : CapitalDecision) (rest : List Asked) (e : BatchEnd)
    → actionable d ≡ false
    → IsSettled pnl rest e
    → IsSettled pnl
        ((d, none) ∷ rest)
        (record e { settled = settled_as d policy_zero_request zero_decimal s ∷ e.settled })
unfolding requested_stakes
idle_settled s pnl d rest e idle i = record {
  total = rw idle i.total;
  stakes = rw idle i.stakes;
  each_pnl = ((λ bets. absurd (let c : false ≡ true = sym idle ∙ bets in cc)), i.each_pnl);
  decisions = ap (λ xs. d ∷ xs) i.decisions;
}

bet_settled :
    (s : PolicyState) (pnl gain : Decimal) (d : CapitalDecision) (r : StakeRequest)
    (completed : Option ℕ) (rest : List Asked) (e : BatchEnd)
    → actionable d ≡ true
    → bet_pnl d r ≡ some gain
    → IsSettled (add pnl gain) rest e
    → IsSettled pnl ((d, some r) ∷ rest) (record e {
      settled = settled_as d r gain s ∷ e.settled;
      lengths = append_length completed e.lengths;
      incomplete = counts_incomplete completed r + e.incomplete;
    })
unfolding requested_stakes sum_from
bet_settled s pnl gain d r completed rest e bets gained i = record {
  total = rw bets i.total;
  stakes = rw bets (ap (λ xs. r.requested ∷ xs) i.stakes);
  each_pnl = ((λ b. gained), i.each_pnl);
  decisions = ap (λ xs. d ∷ xs) i.decisions;
}

pub settle_batch-IsSettled :
    (p : Policy) (s : PolicyState) (pnl : Decimal) (asked : List Asked) {e : BatchEnd}
    → IsAligned asked
    → settle_batch p s pnl asked ≡ some e
    → IsSettled pnl asked e
unfolding settle_batch
settle_batch-IsSettled p s pnl [] a h = subst (IsSettled pnl []) (same_of_some h) (
    unfold sum_from requested_stakes in
    record { total = refl; stakes = refl; each_pnl = tt; decisions = refl })
settle_batch-IsSettled p s pnl ((d, none) ∷ rest) a h =
    let (e, others, is) = bind-eq-some (settle_batch p s pnl rest) _ h in
    let i = settle_batch-IsSettled p s pnl rest a.1 others in
    subst (IsSettled pnl ((d, none) ∷ rest)) (same_of_some is)
      (idle_settled s pnl d rest e (sym a.0) i)
settle_batch-IsSettled p s pnl ((d, some r) ∷ rest) a h =
    let (gain, gained, next) = bind-eq-some (bet_pnl d r) _ h in
    let won = action_won d.action d.outcome in
    let (e, others, is) =
      bind-eq-some (settle_batch p (settle p s r won).0 (add pnl gain) rest) _ next in
    let i = settle_batch-IsSettled p (settle p s r won).0 (add pnl gain) rest a.1 others in
    subst (IsSettled pnl ((d, some r) ∷ rest)) (same_of_some is)
      (bet_settled (settle p s r won).0 pnl gain d r (settle p s r won).1 rest e (sym a.0) gained i)
