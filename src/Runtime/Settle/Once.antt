-- ===== src/Runtime/Settle/Once.antt =====
-- A settlement closes one open position, once.
use mathlib.Core.Path.{subst}
use finsport.Prelude.{
  ℕ, ◌≡◌, refl, sym, ap, ◌∙◌, true, false, some, List, [], ◌∷◌, ◌==◌, suc, arith, Bool-cases,
  Option-cases, bind-eq-some, inl, inr, same_of_some, if_true, if_false,
}
use finsport.Decimal.{Decimal, lt_decimal}
use finsport.Runtime.State.{Account, Position, PositionStatus, is_open, open_count}
use finsport.Runtime.Settle.{
  Observation, settled, idle, failed, Settlement, settlement, settled_pnl, find_position,
  save_position, closed_position, close, close_config, settle_open, settle_position,
  reserved_exposure_underflow, result_position_match_mismatch, missing_price, is_void, won,
}

-- What `save_position` does to the row that `find_position` found.
pub find_position-match :
    (m : ℕ) (ps : List Position) {p : Position} → find_position m ps ≡ some p → p.match_id ≡ m
unfolding find_position
find_position-match m [] h = cc
find_position-match m (q ∷ ps) {p} h = elim (Bool-cases (q.match_id == m)) [
  | inl e ↦
      (let x : some q ≡ some p = if_true _ e h in
        subst (λ p. p.match_id ≡ m) (same_of_some x) (ground arith))
  | inr e ↦ find_position-match m ps (if_false _ e h)
]

find-save_position :
    (q : Position) (ps : List Position) {p : Position}
    → find_position q.match_id ps ≡ some p
    → find_position q.match_id (save_position q ps) ≡ some q
unfolding find_position save_position
find-save_position q [] h = cc
find-save_position q (r ∷ ps) {p} h = elim (Bool-cases (r.match_id == q.match_id)) [
  | inl e ↦ ground arith
  | inr e ↦ rw e (rw e (find-save_position q ps (if_false _ e h)))
]

save_position-open_count :
    (q : Position) (ps : List Position) {p : Position}
    → find_position q.match_id ps ≡ some p
    → is_open p.status ≡ true
    → is_open q.status ≡ false
    → open_count ps ≡ suc (open_count (save_position q ps))
unfolding find_position save_position
save_position-open_count q [] h o c = cc
save_position-open_count q (r ∷ ps) {p} h o c = elim (Bool-cases (r.match_id == q.match_id)) [
  | inl e ↦
      (let x : r ≡ p = same_of_some (if_true _ e h) in
        let y : is_open r.status ≡ true = ap (λ p. is_open p.status) x ∙ o in
        rw (e, y, c) (omega arith))
  | inr e ↦
      (let ih = save_position-open_count q ps (if_false _ e h) o c in rw (e) (omega (arith, ih)))
]

pub settlement-closed :
    (a : Account) (p : Position) (obs : Observation) {s : Settlement}
    → settlement a.config p obs ≡ some s
    → is_open s.status ≡ false
unfolding settlement settled_pnl
settlement-closed a p obs h = elim (Bool-cases (is_void obs.status_short)) [
  | inl v ↦ subst (λ s. is_open s.status ≡ false) (same_of_some (rw (v, settlement) at h)) refl
  | inr v ↦
      (let (pnl, made, is) = bind-eq-some (settled_pnl p (won p obs)) _ (rw (v, settlement) at h) in
        subst (λ s. is_open s.status ≡ false) (same_of_some is) (ground arith))
]

same_settled :
    {a b : Account} {s t : PositionStatus} → settled a s ≡ settled b t → (a ≡ b) × (s ≡ t)
same_settled h = (let x = h in cc, let x = h in cc)

module _ (column ratio : Decimal → Decimal) where
  -- A settlement that went through.
  pub record IsSettled (a b : Account) (m : ℕ) (obs : Observation) (at : ℕ) (t : PositionStatus)
      : Type 0 where
    pub position : Position
    pub outcome : Settlement
    pub found : find_position m a.positions ≡ some position
    pub was_open : is_open position.status ≡ true
    pub same_match : obs.match_id ≡ position.match_id
    pub computed : settlement a.config position obs ≡ some outcome
    pub funded : lt_decimal a.config.reserved_exposure position.applied_stake ≡ false
    pub coded : outcome.status ≡ t
    pub new_config : b.config ≡ close_config column ratio a.config position outcome at
    pub new_positions :
        b.positions ≡ save_position (closed_position column ratio position outcome at) a.positions
    pub same_states : b.states ≡ a.states

  pub settle_position-IsSettled :
      (a : Account) (m : ℕ) (obs : Observation) (at : ℕ) {b : Account} {t : PositionStatus}
      → settle_position column ratio a m obs at ≡ settled b t
      → IsSettled a b m obs at t
  unfolding settle_position settle_open close
  settle_position-IsSettled a m obs at {b} {t} h =
      elim (Option-cases (find_position m a.positions)) [
        | inl e ↦ absurd (let x : idle ≡ settled b t = rw (e, settle_position) at h in cc)
        | inr (p, e) ↦
            (let h1 = rw (e, settle_position) at h in
              elim (Bool-cases (is_open p.status)) [
                | inr shut ↦ absurd (let x : idle ≡ settled b t = if_false _ shut h1 in cc)
                | inl opened ↦
                    (let h2 = if_true _ opened h1 in
                      elim (Bool-cases (obs.match_id == p.match_id)) [
                        | inr off ↦ absurd (
                            let x : failed result_position_match_mismatch ≡ settled b t =
                              rw (off, settle_open) at h2 in
                            cc)
                        | inl same ↦
                            (let h3 = rw (same, settle_open) at h2 in
                              elim (Option-cases (settlement a.config p obs)) [
                                | inl bare ↦ absurd (
                                    let x : failed missing_price ≡ settled b t = rw bare at h3 in
                                    cc)
                                | inr (s, priced) ↦
                                    closed_by p s e opened (ground arith) priced (rw priced at h3)
                              ])
                      ])
              ])
      ]
    where
      closed_by :
          (p : Position) (s : Settlement)
          → find_position m a.positions ≡ some p
          → is_open p.status ≡ true
          → obs.match_id ≡ p.match_id
          → settlement a.config p obs ≡ some s
          → close column ratio a p s at ≡ settled b t
          → IsSettled a b m obs at t
      closed_by p s found opened same computed h =
          elim (Bool-cases (lt_decimal a.config.reserved_exposure p.applied_stake)) [
            | inl short ↦ absurd (
                let x : failed reserved_exposure_underflow ≡ settled b t = rw (short, close) at h in
                cc)
            | inr funded ↦
                (let (eb, es) = same_settled (rw (funded, close) at h) in
                  record {
                    position = p;
                    outcome = s;
                    found = found;
                    was_open = opened;
                    same_match = same;
                    computed = computed;
                    funded = funded;
                    coded = es;
                    new_config = sym (ap (λ x. x.config) eb);
                    new_positions = sym (ap (λ x. x.positions) eb);
                    same_states = sym (ap (λ x. x.states) eb);
                  })
          ]

  -- A settlement frees exactly one lane: the account has one open position less.
  pub settle_position-open_count :
      (a : Account) (m : ℕ) (obs : Observation) (at : ℕ) {b : Account} {t : PositionStatus}
      → settle_position column ratio a m obs at ≡ settled b t
      → open_count a.positions ≡ suc (open_count b.positions)
  settle_position-open_count a m obs at {b} h =
      let s = settle_position-IsSettled a m obs at h in
      let q = closed_position column ratio s.position s.outcome at in
      let shut = settlement-closed a s.position obs s.computed in
      let here : find_position q.match_id a.positions ≡ some s.position =
        rw (find_position-match m a.positions s.found) s.found in
      subst (λ ps. open_count a.positions ≡ suc (open_count ps)) (sym s.new_positions)
        (save_position-open_count q a.positions here s.was_open shut)

  -- A settlement happens once: when it has gone through, settling the same position again, with
  -- any observation at any time, finds nothing to do.
  pub settle_once :
      (a : Account) (m : ℕ) (obs : Observation) (at : ℕ) {b : Account} {t : PositionStatus}
      (obs' : Observation) (at' : ℕ)
      → settle_position column ratio a m obs at ≡ settled b t
      → settle_position column ratio b m obs' at' ≡ idle
  unfolding settle_position
  settle_once a m obs at {b} obs' at' h =
      let s = settle_position-IsSettled a m obs at h in
      let q = closed_position column ratio s.position s.outcome at in
      let shut : is_open q.status ≡ false = settlement-closed a s.position obs s.computed in
      let e : q.match_id ≡ m = find_position-match m a.positions s.found in
      let here : find_position q.match_id a.positions ≡ some s.position = rw e s.found in
      let there : find_position q.match_id (save_position q a.positions) ≡ some q =
        find-save_position q a.positions here in
      let now : find_position m b.positions ≡ some q =
        subst (λ k. find_position k b.positions ≡ some q) e
          (subst (λ ps. find_position q.match_id ps ≡ some q) (sym s.new_positions) there) in
      rw (now, settle_position) (rw shut refl)
