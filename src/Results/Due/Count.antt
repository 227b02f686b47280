-- ===== src/Results/Due/Count.antt =====
-- What `process_due_bsd` closes, and when.
use finsport.Prelude.{
  ℕ, ◌+◌, ◌≡◌, refl, Bool, true, not, ◌||◌, Option, ◌==◌, if_elim, any, arith, Option-cases, inl,
  inr,
}
use finsport.Decimal.{Decimal}
use finsport.Runtime.State.{Position, RefreshError}
use finsport.Runtime.Settle.Batch.{total_open, settle_observation-total_open}
use finsport.Results.Provider.{
  pst, same_status, Result, Normalized, normal, refused, broken, normalize_bsd,
}
use finsport.Results.Record.{
  Disposition, recorded, already_recorded, result_conflict, pending_conflict,
}
use finsport.Results.Record.Steps.{record_result}
use finsport.Results.Route.{Route, ready, success}
use finsport.Results.Settlement.{
  Observed, unobserved, canonical_result_conflict, observed, observe_terminal_result, settled_by,
  update_open-total_open,
}
use finsport.Results.Due.{
  File, World, Fetched, fetched, unfetched, Turn, find_file, find_route, save_file, save_route,
  write_conflict, write_pending, write_postponed, write_nonterminal, is_primary, is_settling,
  was_nonterminal, fail_turn, settle_turn, route_result, by_disposition, receive, ask_bsd,
  process_one,
}

-- What was open is open still, or was counted as settled.
abbrev pub IsCounted : World → Turn → Turn → Type 0
IsCounted w t q = total_open w.accounts + t.settled ≡ total_open q.world.accounts + q.settled

module _ (column ratio : Decimal → Decimal) where
  settle_turn-IsCounted :
      (f : File) (w : World) (now : ℕ) (o : Observed) (t : Turn)
      → IsCounted w t (settle_turn column ratio f w now o t)
  unfolding settle_turn
  settle_turn-IsCounted f w now unobserved t = refl
  settle_turn-IsCounted f w now canonical_result_conflict t = refl
  settle_turn-IsCounted f w now (observed k created) t =
      let closed =
        settle_observation-total_open column ratio w.accounts (settled_by f.match_id k) now in
      omega (arith, closed)

  route_result-IsCounted :
      (f : File) (w : World) (primary : Bool) (error : Option RefreshError) (r : Result)
      (at now : ℕ) (t : Turn)
      → IsCounted w t (route_result column ratio f w primary error r at now t)
  unfolding route_result
  route_result-IsCounted f w primary error r at now t =
      let postponed = update_open-total_open f.match_id write_postponed w.accounts (λ p. refl) in
      let later = update_open-total_open f.match_id (write_nonterminal at) w.accounts (λ p. refl) in
      if_elim (IsCounted w t) (same_status r.status pst) (λ e. omega (arith, postponed))
        λ e.
          if_elim (IsCounted w t) (not primary) (λ e. refl)
            λ e.
              if_elim (IsCounted w t) (is_settling r.status)
                (λ e.
                  settle_turn-IsCounted f w now (observe_terminal_result f.match_row true f.known)
                    t)
                λ e.
                  if_elim (IsCounted w t) (not (was_nonterminal error)) (λ e. omega (arith, later))
                    (λ e. refl)

  by_disposition-IsCounted :
      (f : File) (w : World) (primary : Bool) (error : Option RefreshError) (r : Result)
      (at now : ℕ) (d : Disposition) (t : Turn)
      → IsCounted w t (by_disposition column ratio f w primary error r at now d t)
  unfolding by_disposition
  by_disposition-IsCounted f w primary error r at now result_conflict t =
      let same = update_open-total_open f.match_id write_conflict w.accounts (λ p. refl) in
      omega (arith, same)
  by_disposition-IsCounted f w primary error r at now pending_conflict t =
      let same = update_open-total_open f.match_id (write_pending at) w.accounts (λ p. refl) in
      omega (arith, same)
  by_disposition-IsCounted f w primary error r at now recorded t =
      route_result-IsCounted f w primary error r at now t
  by_disposition-IsCounted f w primary error r at now already_recorded t =
      route_result-IsCounted f w primary error r at now t

  receive-IsCounted :
      (f : File) (route : Route) (error : Option RefreshError) (at now : ℕ) (n : Normalized)
      (t : Turn)
      → IsCounted t.world t (receive column ratio f route error at now n t)
  unfolding receive
  receive-IsCounted f route error at now (refused e) t = refl
  receive-IsCounted f route error at now (broken e) t = refl
  receive-IsCounted f route error at now (normal r) t =
      let after = record_result f.match_row f.rows r (is_primary route) in
      let g : File = record f { match_row = after.match_row; rows = after.rows } in
      let w = t.world in
      by_disposition-IsCounted g
        (record w { files = save_file g w.files; routes = save_route (success route) w.routes })
        (is_primary route) error r at now after.disposition t

  ask_bsd-IsCounted :
      (fetch : ℕ → Fetched) (f : File) (route : Route) (error : Option RefreshError) (at now : ℕ)
      (t : Turn)
      → IsCounted t.world t (ask_bsd column ratio fetch f route error at now t)
  unfolding ask_bsd
  ask_bsd-IsCounted fetch f route error at now t =
      if_elim (IsCounted t.world t) (not route.has_leagues || not (ready route at) || f.stale)
        (λ e. refl) λ e. fetching (fetch f.match_id)
    where
      fetching :
          (x : Fetched)
          → IsCounted t.world t (elim x [
            | unfetched e ↦ fail_turn f e at t
            | fetched bound payload ↦
                receive column ratio f route error at now (normalize_bsd bound payload now) t
          ])
      fetching (unfetched e) = refl
      fetching (fetched bound payload) =
          receive-IsCounted f route error at now (normalize_bsd bound payload now) t

  pub process_one-IsCounted :
      (fetch : ℕ → Fetched) (at now : ℕ) (p : Position) (t : Turn)
      → IsCounted t.world t (process_one column ratio fetch at now p t)
  unfolding process_one
  process_one-IsCounted fetch at now p t =
      if_elim (IsCounted t.world t) (any (λ m. m == p.match_id) t.handled) (λ e. refl)
        λ e. elim (Option-cases (find_file p.match_id t.world.files)) [
          | inl a ↦ rw a refl
          | inr (f, a) ↦ elim (Option-cases (find_route f.competition t.world.routes)) [
            | inl b ↦ rw a (rw b refl)
            | inr (route, b) ↦ rw a (
                rw b (
                  if_elim (IsCounted t.world t) f.bound
                    (λ e. ask_bsd-IsCounted fetch f route p.result_refresh_error at now t)
                    (λ e. refl)))
          ]
        ]
