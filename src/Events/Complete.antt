-- ===== src/Events/Complete.antt =====
-- The loop of `run_event_path` ends, within the lanes, with every position settled.
use mathlib.Core.Path.{subst}
use finsport.Prelude.{
  ℕ, zero, suc, ◌+◌, ◌*◌, ◌≤◌, ◌≡◌, refl, sym, ap, ◌∙◌, Bool, true, false, not, ◌&&◌, some, Option,
  List, [], ◌∷◌, ◌++◌, ◌==◌, leb, if_elim, arith, length, length-append, keep, bind-eq-some,
  same_of_some, All, Bool-cases, inl, inr, ◌>>=◌, ◌⊎◌,
}
use finsport.Capital.Contracts.{has_terminated}
use finsport.Capital.Policies.{Policy}
use finsport.Events.{
  EventPath, Opportunity, Opened, consider_all, leave_all, schedule, insert_by, sort_by,
  before_rank, before_due, settle_due, path_terminated, expired_capacity, no_bet_status,
}
use finsport.Events.Wake.{
  wake, run_wakes, merged, is_due_at, is_late, is_bet, clear_terminated, take_group, set_due, pop,
  initial_path, all_wakes,
}
use finsport.Events.Moves.{settle_due-SameFrame, leave_all-SameFrame}
use finsport.Events.Sound.{IsSound, contains, size, consider_all-Sound, length-schedule}

length-insert_by {ℓ} :
    {A : Type ℓ} (before : A → A → Bool) (x : A) (ys : List A)
    → length (insert_by before x ys) ≡ suc (length ys)
unfolding insert_by
length-insert_by before x [] = refl
length-insert_by {A = A} before x (y ∷ ys) =
    let rest = length-insert_by before x ys in
    if_elim {A = List A} (λ zs. length zs ≡ suc (suc (length ys))) (before x y) (λ e. refl)
      (λ e. ap suc rest)

length-sort_by {ℓ} :
    {A : Type ℓ} (before : A → A → Bool) (xs : List A) → length (sort_by before xs) ≡ length xs
unfolding sort_by
length-sort_by before [] = refl
length-sort_by before (x ∷ xs) =
    length-insert_by before x (sort_by before xs) ∙ ap suc (length-sort_by before xs)

length-keep_le {ℓ} :
    {A : Type ℓ} (test : A → Bool) (xs : List A) → length (keep test xs) ≤ length xs
length-keep_le test [] = omega arith
length-keep_le test (x ∷ xs) = (let rest = length-keep_le test xs in ground (arith, rest))

-- The group that a wake takes, with what is left.
group_split :
    (at : ℕ) (os : List Opportunity)
    → length (keep (λ o. o.execution_at == at && is_bet o) os)
        + length (keep (λ o. not (o.execution_at == at)) os)
      ≤ length os
group_split at [] = omega arith
group_split at (o ∷ os) =
    let rest = group_split at os in
    elim (Bool-cases (o.execution_at == at)) [
      | inl e ↦ elim (Bool-cases (is_bet o)) [
        | inl b ↦ rw (e, b) (omega (arith, rest))
        | inr b ↦ rw (e, b) (omega (arith, rest))
      ]
      | inr e ↦ rw e (omega (arith, rest))
    ]

length-merged :
    (at : ℕ) (p : EventPath)
    → length (merged at p)
        + length (keep {A = Opportunity} (λ o. not (o.execution_at == at)) p.coming)
      ≤ length p.pending + length p.coming
unfolding merged
length-merged at p =
    let waiting = keep {A = Opportunity} (λ o. not (is_late at o)) p.pending in
    let group = keep {A = Opportunity} (λ o. o.execution_at == at && is_bet o) p.coming in
    let a = length-sort_by before_rank (waiting ++ group) in
    let b = length-append waiting group in
    let c = length-keep_le (λ o. not (is_late at o)) p.pending in
    let d = group_split at p.coming in omega (arith, a, b, c, d)

-- An open position that is not due at a wake is settled at a later one.
later_wake :
    (t at : ℕ) (ws : List ℕ)
    → contains t (at ∷ ws) ≡ true
    → not (leb t at) ≡ true
    → contains t ws ≡ true
later_wake t at ws h n = (let off : (at == t) ≡ false = ground arith in ground arith)

undue-scheduled :
    (at : ℕ) (ws : List ℕ) (xs : List Opened)
    → All {A = Opened} (λ x. contains x.settlement_at (at ∷ ws) ≡ true) xs
    → All {A = Opened}
        (λ x. contains x.settlement_at ws ≡ true)
        (keep (λ x. not (is_due_at at x)) xs)
undue-scheduled at ws [] h = tt
undue-scheduled at ws (x ∷ xs) h =
    let rest = undue-scheduled at ws xs h.1 in
    if_elim {A = List Opened} (All {A = Opened} (λ x. contains x.settlement_at ws ≡ true))
      (not (is_due_at at x)) (λ e. (later_wake x.settlement_at at ws h.0 e, rest)) (λ e. rest)

abbrev pub total : EventPath → ℕ
total p = size p + length p.coming

take_group-lists :
    (at : ℕ) (p : EventPath)
    → ((take_group at p).wakes ≡ p.wakes) × ((take_group at p).opened ≡ p.opened)
take_group-lists at p =
    let late = keep (is_late at) p.pending in
    let passed = keep (λ o. o.execution_at == at && not (is_bet o)) p.coming in
    let a = leave_all-SameFrame late expired_capacity p in
    let b = leave_all-SameFrame passed no_bet_status (leave_all late expired_capacity p) in
    (b.same_wakes ∙ a.same_wakes, b.same_opened ∙ a.same_opened)

clear_terminated-Sound :
    (max_lanes : ℕ) (p : EventPath)
    → IsSound max_lanes p
    → IsSound max_lanes (clear_terminated p) × (total (clear_terminated p) ≤ total p)
clear_terminated-Sound max_lanes p s =
    if_elim (λ q. IsSound max_lanes q × (total q ≤ total p)) (has_terminated p.termination)
      (λ e.
        let f = leave_all-SameFrame p.pending path_terminated p in
        (
          record {
            lanes = subst (λ xs. length xs ≤ max_lanes) (sym f.same_opened) s.lanes;
            scheduled = rw (f.same_opened, f.same_wakes) s.scheduled;
          },
          rw (f.same_wakes, f.same_coming) (omega arith),
        ))
      (λ e. (s, omega arith))

wake-Sound :
    (policy : Policy) (max_lanes lag at : ℕ) (p : EventPath) {q : EventPath}
    → wake policy max_lanes lag at p ≡ some q
    → length p.opened ≤ max_lanes
    → All {A = Opened} (λ x. contains x.settlement_at (at ∷ p.wakes) ≡ true) p.opened
    → IsSound max_lanes q × (total q ≤ total p)
unfolding wake
wake-Sound policy max_lanes lag at p {q} h free covered =
    let due = sort_by before_due (keep (is_due_at at) p.opened) in
    let (s, settled, h1) = bind-eq-some (settle_due policy due (set_due at p)) _ h in
    let (r, placed, h2) =
      bind-eq-some (consider_all policy max_lanes lag at (merged at s) (take_group at s)) _ h1 in
    let f = settle_due-SameFrame policy due (set_due at p) settled in
    let (w, o) = take_group-lists at s in
    let fewer = length-keep_le (λ x. not (is_due_at at x)) p.opened in
    let ready : IsSound max_lanes (take_group at s) = record {
      lanes =
          subst (λ xs. length xs ≤ max_lanes) (sym (o ∙ f.same_opened))
            (omega (arith, fewer, free));
      scheduled =
          rw (o, w, f.same_opened, f.same_wakes) (undue-scheduled at p.wakes p.opened covered);
    } in
    let (sound, small, same) =
      consider_all-Sound policy max_lanes lag at (merged at s) (take_group at s) placed ready in
    let (sound', small') = clear_terminated-Sound max_lanes r sound in
    let taken = length-merged at s in
    let ws = ap length (w ∙ f.same_wakes) in
    let ps = ap length f.same_pending in
    let cs = ap length f.same_coming in
    let rs = ap length same in
    subst (λ q. IsSound max_lanes q × (total q ≤ total p)) (same_of_some h2)
      (sound', omega (arith, small, small', taken, ws, ps, cs, rs))

pop-cases :
    (step : ℕ → EventPath → Option EventPath) (p q : EventPath)
    → pop step p.wakes p ≡ some q
    → ((p.wakes ≡ []) × (p ≡ q))
      ⊎ ((at : ℕ) × (ws : List ℕ) × (p.wakes ≡ at ∷ ws)
          × (step at (record p { wakes = ws }) ≡ some q))
pop-cases step p q h = go p.wakes refl
  where
    go :
        (ws : List ℕ)
        → p.wakes ≡ ws
        → ((p.wakes ≡ []) × (p ≡ q))
          ⊎ ((at : ℕ) × (ws : List ℕ) × (p.wakes ≡ at ∷ ws)
              × (step at (record p { wakes = ws }) ≡ some q))
    go [] e = inl (e, same_of_some (subst (λ ws. pop step ws p ≡ some q) e h))
    go (at ∷ ws) e = inr (at, ws, e, subst (λ ws. pop step ws p ≡ some q) e h)

-- One turn of the loop: it is over, or a wake was taken.
run_wakes-turn :
    (fuel : ℕ) (policy : Policy) (max_lanes lag : ℕ) (p : EventPath) {q : EventPath}
    → run_wakes (suc fuel) policy max_lanes lag p ≡ some q
    → IsSound max_lanes p
    → ((p.wakes ≡ []) × (p ≡ q))
      ⊎ ((r : EventPath) × (run_wakes fuel policy max_lanes lag r ≡ some q)
          × IsSound max_lanes r
          × (suc (total r) ≤ total p))
unfolding run_wakes
run_wakes-turn fuel policy max_lanes lag p {q} h s =
    let step : ℕ → EventPath → Option EventPath =
      λ at r. wake policy max_lanes lag at r >>= λ q. run_wakes fuel policy max_lanes lag q in
    elim (pop-cases step p q h) [
      | inl over ↦ inl over
      | inr (at, ws, e, h') ↦
          (let (r, woken, rest) =
              bind-eq-some (wake policy max_lanes lag at (record p { wakes = ws })) _ h' in
            let covered =
              subst (λ ws. All {A = Opened} (λ x. contains x.settlement_at ws ≡ true) p.opened) e
                s.scheduled in
            let (sound, less) =
              wake-Sound policy max_lanes lag at (record p { wakes = ws }) woken s.lanes covered in
            let popped = ap length e in inr (r, rest, sound, omega (arith, less, popped)))
    ]

-- After any number of wakes the lanes are kept, and every open position has its wake.
run_wakes-IsSound :
    (fuel : ℕ) (policy : Policy) (max_lanes lag : ℕ) (p : EventPath) {q : EventPath}
    → run_wakes fuel policy max_lanes lag p ≡ some q
    → IsSound max_lanes p
    → IsSound max_lanes q
unfolding run_wakes
run_wakes-IsSound zero policy max_lanes lag p h s = subst (IsSound max_lanes) (same_of_some h) s
run_wakes-IsSound (suc fuel) policy max_lanes lag p {q} h s =
    elim (run_wakes-turn fuel policy max_lanes lag p h s) [
      | inl (e, same) ↦ subst (IsSound max_lanes) same s
      | inr (r, rest, sound, less) ↦ run_wakes-IsSound fuel policy max_lanes lag r rest sound
    ]

no_wake : (p : EventPath) → total p ≤ 0 → p.wakes ≡ []
no_wake p h = go p.wakes refl
  where
    go : (ws : List ℕ) → p.wakes ≡ ws → p.wakes ≡ []
    go [] e = e
    go (w ∷ ws) e = absurd (let x = ap length e in omega (arith, x, h))

-- With as much fuel as there are wakes and opportunities the loop ends: no wake is left.
run_wakes-empty :
    (fuel : ℕ) (policy : Policy) (max_lanes lag : ℕ) (p : EventPath) {q : EventPath}
    → run_wakes fuel policy max_lanes lag p ≡ some q
    → IsSound max_lanes p
    → total p ≤ fuel
    → q.wakes ≡ []
unfolding run_wakes
run_wakes-empty zero policy max_lanes lag p h s enough =
    ap (λ q. q.wakes) (sym (same_of_some h)) ∙ no_wake p enough
run_wakes-empty (suc fuel) policy max_lanes lag p {q} h s enough =
    elim (run_wakes-turn fuel policy max_lanes lag p h s) [
      | inl (e, same) ↦ subst (λ q. q.wakes ≡ []) same e
      | inr (r, rest, sound, less) ↦
          run_wakes-empty fuel policy max_lanes lag r rest sound (omega (arith, less, enough))
    ]

length-all_wakes : (os : List Opportunity) → length (all_wakes os) ≤ length os
unfolding schedule
length-all_wakes [] = omega arith
length-all_wakes (o ∷ os) =
    let more = length-schedule o.execution_at (all_wakes os) in
    let rest = length-all_wakes os in omega (arith, more, rest)

initial_path-IsSound : (max_lanes : ℕ) (os : List Opportunity) → IsSound max_lanes (initial_path os)
initial_path-IsSound max_lanes os = record { lanes = omega arith; scheduled = tt }

-- However many wakes have been taken, no more positions are open than there are lanes, and each
-- open one will be settled at a wake that is still in the heap.
pub run_wakes-IsWithinLanes :
    (fuel : ℕ) (policy : Policy) (max_lanes lag : ℕ) (os : List Opportunity) {p : EventPath}
    → run_wakes fuel policy max_lanes lag (initial_path os) ≡ some p
    → IsSound max_lanes p
run_wakes-IsWithinLanes fuel policy max_lanes lag os h =
    run_wakes-IsSound fuel policy max_lanes lag (initial_path os) h
      (initial_path-IsSound max_lanes os)

nothing_open : {max_lanes : ℕ} (p : EventPath) → IsSound max_lanes p → p.wakes ≡ [] → p.opened ≡ []
nothing_open p s none_left = go p.opened refl
  where
    go : (xs : List Opened) → p.opened ≡ xs → p.opened ≡ []
    go [] e = e
    go (x ∷ xs) e =
        absurd
          (let covered = rw (e, none_left) at s.scheduled in let y : false ≡ true = covered.0 in cc)

-- The replay terminates, with nothing left over: two wakes for each opportunity are enough for the
-- loop to empty the heap, and then every position has been settled. So a path is never incomplete
-- for an open position.
pub run_wakes_complete :
    (policy : Policy) (max_lanes lag : ℕ) (os : List Opportunity) {p : EventPath}
    → run_wakes (2 * length os) policy max_lanes lag (initial_path os) ≡ some p
    → (p.wakes ≡ []) × (p.opened ≡ [])
run_wakes_complete policy max_lanes lag os {p} h =
    let sound = run_wakes-IsWithinLanes (2 * length os) policy max_lanes lag os h in
    let few = length-all_wakes os in
    let empty =
      run_wakes-empty (2 * length os) policy max_lanes lag (initial_path os) h
        (initial_path-IsSound max_lanes os) (omega (arith, few)) in
    (empty, nothing_open p sound empty)
