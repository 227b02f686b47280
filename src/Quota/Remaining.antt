-- ===== src/Quota/Remaining.antt =====
-- What `quota_state` takes to be left: the latest header, less the attempts after it.
use finsport.Prelude.{
  ℕ, ◌≤◌, ◌≡◌, refl, Option, none, some, List, [], ◌∷◌, arith, All, Bool-cases, Option-cases, inl,
  inr,
}
use finsport.Quota.{
  Audit, CallLog, Header, audit_header, header_at, latest_audit, latest_of, later_header,
  latest_run, legacy_of, header_state, quota_state, physical_attempts,
}

-- A header that was observed no later.
abbrev pub NotLater : Header → Option Header → Type 0
NotLater h none = Unit
NotLater h (some k) = k.observed_at ≤ h.observed_at

latest_of-NotLater :
    (h : Header) (x y : Option Header) → NotLater h (latest_of x y) → NotLater h x × NotLater h y
latest_of-NotLater h none y e = (tt, e)
latest_of-NotLater h (some k) none e = (e, tt)
latest_of-NotLater h (some k) (some j) e = elim (Bool-cases (later_header k j)) [
  | inl later ↦ (let low : k.observed_at ≤ h.observed_at = rw later at e in (low, ground arith))
  | inr not_later ↦
      (let low : j.observed_at ≤ h.observed_at = rw not_later at e in (ground arith, low))
]

latest_audit-All :
    (at : ℕ) (h : Header) (audits : List Audit)
    → NotLater h (latest_audit at audits)
    → All (λ a. NotLater h (audit_header at a)) audits
unfolding latest_audit
latest_audit-All at h [] low = tt
latest_audit-All at h (a ∷ rest) low =
    let (here, there) = latest_of-NotLater h (audit_header at a) (latest_audit at rest) low in
    (here, latest_audit-All at h rest there)

-- When the provider has reported what remains, the quota is the latest report: no audit has a
-- report that was observed later, and at most what it said remains.
pub quota_state-latest :
    (at bootstrap : ℕ) (l : CallLog) {h : Header}
    → latest_audit at l.audits ≡ some h
    → ((quota_state at bootstrap l).observed_at ≡ some h.observed_at)
      × ((quota_state at bootstrap l).remaining ≤ h.remaining)
      × All (λ a. NotLater h (audit_header at a)) l.audits
unfolding quota_state header_state
quota_state-latest at bootstrap l {h} e =
    let same : NotLater h (latest_audit at l.audits) = rw e (omega arith) in
    (
      rw (e, quota_state) refl,
      rw (e, quota_state) (omega arith),
      latest_audit-All at h l.audits same,
    )

-- The log with one more call to the provider that reported nothing.
abbrev pub called : Audit → CallLog → CallLog
called x l = record l { audits = x ∷ l.audits }

silent_header : (at : ℕ) (x : Audit) → x.quota_remaining ≡ none → audit_header at x ≡ none
unfolding audit_header header_at
silent_header at x e = elim (Bool-cases x.api_football) [
  | inl own ↦ rw (own, e, audit_header, header_at) refl
  | inr other ↦ rw (other, audit_header) refl
]

-- A further call that reports nothing never makes the quota larger, whatever the log holds.
pub quota_state-called :
    (at bootstrap : ℕ) (l : CallLog) (x : Audit)
    → x.quota_remaining ≡ none
    → (quota_state at bootstrap (called x l)).remaining ≤ (quota_state at bootstrap l).remaining
unfolding quota_state header_state latest_audit physical_attempts
quota_state-called at bootstrap l x e =
    let silent = silent_header at x e in
    elim (Option-cases (latest_audit at l.audits)) [
      | inr (h, found) ↦ rw (silent, found, quota_state, latest_audit) (omega arith)
      | inl missing ↦
          elim (Option-cases
            (legacy_of (latest_run at 0 l.captures) (latest_run at 0 l.maintenance))) [
              | inr (h, found) ↦
                  rw (silent, missing, found, quota_state, latest_audit) (omega arith)
              | inl none_found ↦
                  rw (silent, missing, none_found, quota_state, latest_audit) (omega arith)
            ]
    ]
