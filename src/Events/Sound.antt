-- ===== src/Events/Sound.antt =====
-- What a wake of `run_event_path` keeps: the lanes, and a wake in the heap for each open position.
use mathlib.Core.Path.{subst}
use finsport.Prelude.{
  ℕ, suc, ◌+◌, ◌≤◌, ◌≡◌, sym, ap, ◌∙◌, Bool, true, some, List, [], ◌∷◌, ◌==◌, ltb, if_elim, arith,
  length, length-append, any, bind-eq-some, same_of_some, All, All-append, All-weaken, Bool-cases,
  inl, inr,
}
use finsport.Capital.Policies.{Policy}
use finsport.Events.{EventPath, Opportunity, Opened, consider, consider_all, schedule}
use finsport.Events.Moves.{Moved, left_alone, waited, placed_at, consider-Moved}

abbrev pub contains : ℕ → List ℕ → Bool
contains t = any (λ w. w == t)

pub length-schedule : (t : ℕ) (ws : List ℕ) → length (schedule t ws) ≤ suc (length ws)
unfolding schedule
length-schedule t [] = omega arith
length-schedule t (w ∷ ws) =
    let rest = length-schedule t ws in
    if_elim {A = List ℕ} (λ x. length x ≤ suc (suc (length ws))) (t == w) (λ e. omega arith)
      λ e.
        if_elim {A = List ℕ} (λ x. length x ≤ suc (suc (length ws))) (ltb t w) (λ e. omega arith)
          λ e. omega (arith, rest)

schedule-contains : (t : ℕ) (ws : List ℕ) → contains t (schedule t ws) ≡ true
unfolding schedule
schedule-contains t [] = ground arith
schedule-contains t (w ∷ ws) =
    let rest = schedule-contains t ws in
    if_elim {A = List ℕ} (λ x. contains t x ≡ true) (t == w) (λ e. ground arith)
      λ e.
        if_elim {A = List ℕ} (λ x. contains t x ≡ true) (ltb t w) (λ e. ground arith)
          λ e. ground arith

schedule-keeps : (u t : ℕ) (ws : List ℕ) → contains u ws ≡ true → contains u (schedule t ws) ≡ true
unfolding schedule
schedule-keeps u t [] h = cc
schedule-keeps u t (w ∷ ws) h =
    if_elim {A = List ℕ} (λ x. contains u x ≡ true) (t == w) (λ e. h)
      λ e.
        if_elim {A = List ℕ} (λ x. contains u x ≡ true) (ltb t w) (λ e. ground arith)
          λ e. elim (Bool-cases (w == u)) [
            | inl y ↦ ground arith
            | inr y ↦ (let rest = schedule-keeps u t ws (ground arith) in ground arith)
          ]

-- Every open position is to be settled at a wake that is still in the heap.
abbrev pub IsScheduled : EventPath → Type 0
IsScheduled p = All {A = Opened} (λ x. contains x.settlement_at p.wakes ≡ true) p.opened

pub record IsSound (max_lanes : ℕ) (p : EventPath) : Type 0 where
  pub lanes : length p.opened ≤ max_lanes
  pub scheduled : IsScheduled p

abbrev pub size : EventPath → ℕ
size p = length p.wakes + length p.pending

pub Moved-IsSound :
    {max_lanes : ℕ} {p q : EventPath}
    → Moved max_lanes p q
    → IsSound max_lanes p
    → IsSound max_lanes q
Moved-IsSound {max_lanes} (left_alone f) s = record {
  lanes = subst (λ xs. length xs ≤ max_lanes) (sym f.same_opened) s.lanes;
  scheduled = rw (f.same_opened, f.same_wakes) s.scheduled;
}
Moved-IsSound {max_lanes} (waited o w n o' c) s = record {
  lanes = subst (λ xs. length xs ≤ max_lanes) (sym o') s.lanes;
  scheduled = rw (o', w) s.scheduled;
}
Moved-IsSound {max_lanes} {p} (placed_at x free w n o c) s = record {
  lanes =
      let longer = length-append p.opened (x ∷ []) in
      let before = s.lanes in subst (λ xs. length xs ≤ max_lanes) (sym o) (ground (arith, longer));
  scheduled =
      rw (o, w)
        (All-append (λ y. contains y.settlement_at (schedule x.settlement_at p.wakes) ≡ true)
          p.opened (x ∷ [])
          (All-weaken p.opened (λ y. schedule-keeps y.settlement_at x.settlement_at p.wakes)
            s.scheduled)
          (schedule-contains x.settlement_at p.wakes, tt));
}

Moved-size : {max_lanes : ℕ} {p q : EventPath} → Moved max_lanes p q → size q ≤ suc (size p)
Moved-size (left_alone f) = rw (f.same_wakes, f.same_pending) (omega arith)
Moved-size {p = p} (waited o w n o' c) =
    let longer = length-append p.pending (o ∷ []) in rw (w, n) (omega (arith, longer))
Moved-size {p = p} (placed_at x free w n o c) =
    let longer = length-schedule x.settlement_at p.wakes in rw (w, n) (omega (arith, longer))

Moved-coming : {max_lanes : ℕ} {p q : EventPath} → Moved max_lanes p q → q.coming ≡ p.coming
Moved-coming (left_alone f) = f.same_coming
Moved-coming (waited o w n o' c) = c
Moved-coming (placed_at x free w n o c) = c

pub consider_all-Sound :
    (policy : Policy) (max_lanes lag at : ℕ) (os : List Opportunity) (p : EventPath) {q : EventPath}
    → consider_all policy max_lanes lag at os p ≡ some q
    → IsSound max_lanes p
    → IsSound max_lanes q × (size q ≤ length os + size p) × (q.coming ≡ p.coming)
unfolding consider_all
consider_all-Sound policy max_lanes lag at [] p {q} h s =
    let e = same_of_some h in
    (
      subst (IsSound max_lanes) e s,
      subst (λ q. size q ≤ length {A = Opportunity} [] + size p) e (omega arith),
      ap (λ p. p.coming) (sym e),
    )
consider_all-Sound policy max_lanes lag at (o ∷ os) p {q} h s =
    let (r, one, rest) = bind-eq-some (consider policy max_lanes lag at o p) _ h in
    let m = consider-Moved policy max_lanes lag at o p one in
    let (sound, small, same) =
      consider_all-Sound policy max_lanes lag at os r rest (Moved-IsSound m s) in
    let more = Moved-size m in (sound, omega (arith, small, more), same ∙ Moved-coming m)
