-- ===== src/Capital/Replay/Total.antt =====
-- On a validated history no arithmetic of the replay raises.
use finsport.Prelude.{
  ℕ, suc, ◌≡◌, ◌≢◌, refl, Bool, true, false, Option, none, some, List, [], ◌∷◌, All, Bool-cases,
  Option-cases, inl, inr, ◌>>=◌, if◌then◌else◌, any,
}
use finsport.Decimal.{Decimal, whole, add, sub, mul, neg, sum_from, lt_decimal, le_decimal}
use finsport.Capital.Contracts.{CapitalDecision, StakeRequest, PolicyState, actionable, action_won}
use finsport.Capital.Policies.{Policy, settle, zero_decimal, initial_state}
use finsport.Capital.Policies.Bounds.{request_total}
use finsport.Capital.Replay.{
  Asked, Batch, ask, batch_requests, requested_stakes, ends_run, group_by_time, validate_basis,
  invalid_initial_bankroll, insufficient_resolved_decisions,
}
use finsport.Capital.Replay.Groups.{InBatches, group_by_time-InBatches}
use finsport.Capital.Replay.Validation.{IsBettable, validate_basis_iff}
use finsport.Capital.Replay.Loop.{
  BatchEnd, settle_batch, bet_pnl, after_batch, Progress, replay_batches, replay, replayed_run,
  arithmetic_error, all_unresolved, unavailable,
}

-- `o` is no exception.
abbrev Returns {ℓ} : {A : Type ℓ} → Option A → Type ℓ
Returns {A = A} o = (a : A) × (o ≡ some a)

bind-Returns {ℓ κ} :
    {A : Type ℓ} {B : Type κ} (m : Option A) (f : A → Option B)
    → Returns m
    → ((a : A) → m ≡ some a → Returns (f a))
    → Returns (m >>= f)
bind-Returns m f (a, e) h = let (b, k) = h a e in (b, rw e k)

bind_at {ℓ κ} :
    {A : Type ℓ} {B : Type κ} (m : Option A) (f : A → Option B) (a : A)
    → m ≡ some a
    → Returns (f a)
    → Returns (m >>= f)
bind_at m f a e (b, k) = (b, rw e k)

if-Returns {ℓ} :
    {A : Type ℓ} (b : Bool) (x y : Option A) → Returns x → Returns y → Returns (if b then x else y)
if-Returns true x y h k = h
if-Returns false x y h k = k

-- A request is only made of a decision with a price.
abbrev IsPriced : Asked → Type 0
IsPriced (d, none) = Unit
IsPriced (d, some r) = (q : Decimal) × (d.price ≡ some q)

ask-IsPriced :
    (p : Policy) (b : Decimal) (s : PolicyState) (d : CapitalDecision)
    → IsBettable p d
    → (r : Option StakeRequest) × (ask p b s d ≡ some r) × IsPriced (d, r)
unfolding ask
ask-IsPriced p b s d h = elim (Bool-cases (actionable d)) [
  | inl bets ↦
      (let k = h bets in
        let (q, e, above) = k.priced in
        let (r, made) = request_total p d b s e above k.assessed in
        (some r, rw (bets, made), (q, e)))
  | inr idle ↦ (none, rw idle, tt)
]

batch_requests-IsPriced :
    (p : Policy) (b : Decimal) (s : PolicyState) (ds : List CapitalDecision)
    → All (IsBettable p) ds
    → (asked : List Asked) × (batch_requests p b s ds ≡ some asked) × All IsPriced asked
unfolding batch_requests
batch_requests-IsPriced p b s [] h = ([], refl, tt)
batch_requests-IsPriced p b s (d ∷ ds) h =
    let (r, one, priced) = ask-IsPriced p b s d h.0 in
    let (asked, others, prices) = batch_requests-IsPriced p b s ds h.1 in
    ((d, r) ∷ asked, rw (one, others), (priced, prices))

bet_pnl-Returns :
    (d : CapitalDecision) (r : StakeRequest) (q : Decimal)
    → d.price ≡ some q
    → Returns (bet_pnl d r)
unfolding bet_pnl
bet_pnl-Returns d r q e =
    if-Returns (action_won d.action d.outcome) _ _ (mul r.applied (sub q (whole 1)), rw e)
      (neg r.applied, refl)

settle_batch-Returns :
    (p : Policy) (s : PolicyState) (pnl : Decimal) (asked : List Asked)
    → All IsPriced asked
    → Returns (settle_batch p s pnl asked)
unfolding settle_batch
settle_batch-Returns p s pnl [] h = (_, refl)
settle_batch-Returns p s pnl ((d, none) ∷ rest) h =
    bind-Returns (settle_batch p s pnl rest) _ (settle_batch-Returns p s pnl rest h.1)
      (λ e ran. (_, refl))
settle_batch-Returns p s pnl ((d, some r) ∷ rest) h =
    bind-Returns (bet_pnl d r) _ (bet_pnl-Returns d r h.0.0 h.0.1) (λ gain gained.
      bind-Returns
        (settle_batch p (settle p s r (action_won d.action d.outcome)).0 (add pnl gain) rest) _
        (settle_batch-Returns p (settle p s r (action_won d.action d.outcome)).0 (add pnl gain) rest
          h.1)
        (λ e ran. (_, refl)))

after_batch-Returns :
    (index : ℕ) (b : Decimal) (e : BatchEnd) (later : Option Progress)
    → Returns later
    → Returns (after_batch index b e later)
unfolding after_batch
after_batch-Returns index b e later h =
    if-Returns (le_decimal (add b e.batch_pnl) zero_decimal) _ _ (_, refl)
      (bind-Returns later _ h (λ g ran. (_, refl)))

pub replay_batches-Returns :
    (p : Policy) (index : ℕ) (b : Decimal) (s : PolicyState) (bs : List Batch)
    → InBatches (IsBettable p) bs
    → Returns (replay_batches p index b s bs)
unfolding replay_batches
replay_batches-Returns p index b s [] h = (_, refl)
replay_batches-Returns p index b s ((t, ds) ∷ rest) h =
    let (asked, made, prices) = batch_requests-IsPriced p b s ds h.0 in
    bind_at (batch_requests p b s ds) _ asked made (
      if-Returns (any ends_run asked) _ _ (_, refl)
        (if-Returns (lt_decimal b (sum_from zero_decimal (requested_stakes asked))) _ _ (_, refl)
          (bind-Returns (settle_batch p s zero_decimal asked) _
            (settle_batch-Returns p s zero_decimal asked prices)
            (λ e ran.
              after_batch-Returns index b e _
                (replay_batches-Returns p (suc index) (add b e.batch_pnl) e.state rest h.1)))))

run-ne-error : (p : Policy) (o : Option Progress) → Returns o → replayed_run p o ≢ arithmetic_error
run-ne-error p none (g, e) = cc
run-ne-error p (some g) h = λ e. cc

-- `replay` always ends with a result or one of its own reasons: no division by zero and no missing
-- price or probability is reached, whatever the history, the policy and the bankroll.
pub replay_never_raises :
    (ds : List CapitalDecision) (p : Policy) (b : Decimal) → replay ds p b ≢ arithmetic_error
unfolding replay
replay_never_raises ds p b h = elim (Bool-cases (le_decimal b zero_decimal)) [
  | inl poor ↦
      (let e : unavailable invalid_initial_bankroll ≡ arithmetic_error = rw (poor, replay) at h in
        cc)
  | inr funded ↦ elim (Bool-cases (all_unresolved ds)) [
    | inl open_all ↦
        (let e : unavailable insufficient_resolved_decisions ≡ arithmetic_error =
            rw (funded, open_all, replay) at h in
          cc)
    | inr some_known ↦ elim (Option-cases (validate_basis ds p true)) [
      | inl fine ↦
          run-ne-error p _
            (replay_batches-Returns p 1 b initial_state (group_by_time ds)
              (group_by_time-InBatches (IsBettable p) ds ((validate_basis_iff ds p).0 fine).0))
            (rw (funded, some_known, fine, replay) at h)
      | inr (reason, bad) ↦
          (let e : unavailable reason ≡ arithmetic_error =
              rw (funded, some_known, bad, replay) at h in
            cc)
    ]
  ]
]
