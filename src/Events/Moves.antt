-- ===== src/Events/Moves.antt =====
-- What the loops of a wake do to the lists of a path: the wakes, what waits, what is open, and what
-- is to come.
use mathlib.Core.Path.{subst}
use finsport.Prelude.{
  ℕ, ◌+◌, ◌*◌, ◌≡◌, refl, ◌∙◌, false, ◌||◌, ◌&&◌, some, Option, List, [], ◌∷◌, ◌++◌, leb, if_elim,
  length, bind-eq-some, same_of_some,
}
use finsport.Decimal.{sub, lt_decimal, le_decimal}
use finsport.Capital.Contracts.{StakeRequest, has_terminated}
use finsport.Capital.Policies.{Policy, request, zero_decimal}
use finsport.Events.{
  EventPath, Opportunity, Opened, PathStatus, take_stock, check_ruin, settle_one, settle_due,
  path_drawdown, settled_path, leave, wait, place, take_request, ask_policy, consider, leave_all,
  schedule, path_decision,
}

pub record SameFrame (p q : EventPath) : Type 0 where
  pub same_wakes : q.wakes ≡ p.wakes
  pub same_pending : q.pending ≡ p.pending
  pub same_opened : q.opened ≡ p.opened
  pub same_coming : q.coming ≡ p.coming

abbrev pub unmoved : (p : EventPath) → SameFrame p p
unmoved p = record {
  same_wakes = refl;
  same_pending = refl;
  same_opened = refl;
  same_coming = refl;
}

SameFrame-trans : {p q r : EventPath} → SameFrame p q → SameFrame q r → SameFrame p r
SameFrame-trans a b = record {
  same_wakes = b.same_wakes ∙ a.same_wakes;
  same_pending = b.same_pending ∙ a.same_pending;
  same_opened = b.same_opened ∙ a.same_opened;
  same_coming = b.same_coming ∙ a.same_coming;
}

pub leave-SameFrame : (o : Opportunity) (s : PathStatus) (p : EventPath) → SameFrame p (leave o s p)
leave-SameFrame o s p = record {
  same_wakes = refl;
  same_pending = refl;
  same_opened = refl;
  same_coming = refl;
}

pub leave_all-SameFrame :
    (os : List Opportunity) (s : PathStatus) (p : EventPath) → SameFrame p (leave_all os s p)
leave_all-SameFrame [] s p = unmoved p
leave_all-SameFrame (o ∷ os) s p =
    SameFrame-trans (leave-SameFrame o s p) (leave_all-SameFrame os s (leave o s p))

take_stock-SameFrame : (p : EventPath) {q : EventPath} → take_stock p ≡ some q → SameFrame p q
unfolding take_stock
take_stock-SameFrame p {q} =
    if_elim {A = Option EventPath} (λ x. x ≡ some q → SameFrame p q)
      (lt_decimal p.equity p.reserved && lt_decimal zero_decimal p.equity) (λ e h. cc)
      (λ e h.
        subst (SameFrame p) (same_of_some h) (record {
          same_wakes = refl;
          same_pending = refl;
          same_opened = refl;
          same_coming = refl;
        }))

check_ruin-SameFrame : (p : EventPath) → SameFrame p (check_ruin p)
check_ruin-SameFrame p =
    if_elim (SameFrame p) (le_decimal p.equity zero_decimal)
      (λ e. record {
        same_wakes = refl;
        same_pending = refl;
        same_opened = refl;
        same_coming = refl;
      })
      (λ e. unmoved p)

settle_one-SameFrame :
    (policy : Policy) (x : Opened) (p : EventPath) {q : EventPath}
    → settle_one policy x p ≡ some q
    → SameFrame p q
unfolding settle_one
settle_one-SameFrame policy x p h =
    let (b, has_bet, h1) = bind-eq-some x.opportunity.bet _ h in
    let (d, divided, h2) = bind-eq-some (path_drawdown x b p) _ h1 in
    let settled = settled_path policy x b d p in
    let (s, stocked, h3) = bind-eq-some (take_stock settled) _ h2 in
    let frame = take_stock-SameFrame settled stocked in
    subst (SameFrame p) (same_of_some h3) (
      SameFrame-trans
        (record {
          same_wakes = frame.same_wakes;
          same_pending = frame.same_pending;
          same_opened = frame.same_opened;
          same_coming = frame.same_coming;
        })
        (check_ruin-SameFrame s))

pub settle_due-SameFrame :
    (policy : Policy) (xs : List Opened) (p : EventPath) {q : EventPath}
    → settle_due policy xs p ≡ some q
    → SameFrame p q
unfolding settle_due
settle_due-SameFrame policy [] p h = subst (SameFrame p) (same_of_some h) (unmoved p)
settle_due-SameFrame policy (x ∷ xs) p h =
    let (s, one, rest) = bind-eq-some (settle_one policy x p) _ h in
    SameFrame-trans (settle_one-SameFrame policy x p one) (settle_due-SameFrame policy xs s rest)

-- One opportunity leaves, waits, or is placed into a free lane.
pub data Moved (max_lanes : ℕ) (p q : EventPath) : Type 0 where
  left_alone : SameFrame p q → Moved max_lanes p q
  waited :
      (o : Opportunity)
      → q.wakes ≡ p.wakes
      → q.pending ≡ p.pending ++ o ∷ []
      → q.opened ≡ p.opened
      → q.coming ≡ p.coming
      → Moved max_lanes p q
  placed_at :
      (x : Opened)
      → leb max_lanes (length p.opened) ≡ false
      → q.wakes ≡ schedule x.settlement_at p.wakes
      → q.pending ≡ p.pending
      → q.opened ≡ p.opened ++ x ∷ []
      → q.coming ≡ p.coming
      → Moved max_lanes p q

alone :
    (max_lanes : ℕ) (p : EventPath) {s q : EventPath}
    → SameFrame p s
    → some s ≡ some q
    → Moved max_lanes p q
alone max_lanes p f h = left_alone (subst (SameFrame p) (same_of_some h) f)

wait-Moved : (max_lanes : ℕ) (o : Opportunity) (p : EventPath) → Moved max_lanes p (wait o p)
wait-Moved max_lanes o p = waited o refl refl refl refl

place-Moved :
    (max_lanes lag : ℕ) (o : Opportunity) (r : StakeRequest) (p : EventPath) {q : EventPath}
    → leb max_lanes (length p.opened) ≡ false
    → place lag o r p ≡ some q
    → Moved max_lanes p q
unfolding place
place-Moved max_lanes lag o r p free h =
    let frame = take_stock-SameFrame _ h in
    placed_at (record { settlement_at = o.kickoff + lag * 60; opportunity = o; stake = r }) free
      frame.same_wakes frame.same_pending frame.same_opened frame.same_coming

take_request-Moved :
    (max_lanes lag : ℕ) (o : Opportunity) (r : StakeRequest) (p : EventPath) {q : EventPath}
    → leb max_lanes (length p.opened) ≡ false
    → take_request lag o r p ≡ some q
    → Moved max_lanes p q
unfolding take_request
take_request-Moved max_lanes lag o r p {q} free =
    let P : Option EventPath → Type 0 = λ x. x ≡ some q → Moved max_lanes p q in
    if_elim P (has_terminated r.termination_reason)
      (λ e.
        alone max_lanes p (record {
          same_wakes = refl;
          same_pending = refl;
          same_opened = refl;
          same_coming = refl;
        }))
      λ e.
        if_elim P (le_decimal r.requested zero_decimal || le_decimal r.applied zero_decimal)
          (λ e. alone max_lanes p (leave-SameFrame o _ p))
          λ e.
            if_elim P (lt_decimal (sub p.equity p.reserved) r.requested)
              (λ e h. subst (Moved max_lanes p) (same_of_some h) (wait-Moved max_lanes o p))
              λ e h. place-Moved max_lanes lag o r p free h

ask_policy-Moved :
    (policy : Policy) (max_lanes lag : ℕ) (o : Opportunity) (p : EventPath) {q : EventPath}
    → leb max_lanes (length p.opened) ≡ false
    → ask_policy policy lag o p ≡ some q
    → Moved max_lanes p q
unfolding ask_policy
ask_policy-Moved policy max_lanes lag o p free h =
    let (b, has_bet, h1) = bind-eq-some o.bet _ h in
    let (r, asked, h2) = bind-eq-some (request policy (path_decision o b) p.equity p.state) _ h1 in
    take_request-Moved max_lanes lag o r p free h2

pub consider-Moved :
    (policy : Policy) (max_lanes lag at : ℕ) (o : Opportunity) (p : EventPath) {q : EventPath}
    → consider policy max_lanes lag at o p ≡ some q
    → Moved max_lanes p q
unfolding consider
consider-Moved policy max_lanes lag at o p {q} =
    let P : Option EventPath → Type 0 = λ x. x ≡ some q → Moved max_lanes p q in
    if_elim P (has_terminated p.termination) (λ e. alone max_lanes p (leave-SameFrame o _ p))
      λ e.
        if_elim P (leb o.kickoff at) (λ e. alone max_lanes p (leave-SameFrame o _ p))
          λ e.
            if_elim P (leb max_lanes (length p.opened))
              (λ e h. subst (Moved max_lanes p) (same_of_some h) (wait-Moved max_lanes o p))
              λ free h. ask_policy-Moved policy max_lanes lag o p free h
