-- ===== src/Quota/Tests.antt =====
-- The quota on a small log.
use finsport.Prelude.{◌≡◌, ◌≤◌, refl, true, false, none, some, [], ◌∷◌, All, count_if}
use finsport.Quota.{
  Audit, CallLog, Header, OpenResult, audit_header, latest_audit, quota_state, open_results,
  open_result_reserve,
}
use finsport.Quota.Remaining.{called}
use finsport.Quota.Debt.{open_results-covers, is_covered, is_due}

abbrev reported : Audit
reported = record {
  pk = 1;
  api_football = true;
  started_at = 1000;
  quota_limit = some 100;
  quota_remaining = some 40;
  quota_observed_at = some 1001;
}

abbrev silent : Audit
silent = record {
  pk = 2;
  api_football = true;
  started_at = 1500;
  quota_limit = none;
  quota_remaining = none;
  quota_observed_at = none;
}

abbrev log : CallLog
log = record { audits = reported ∷ []; captures = []; maintenance = [] }

abbrev header : Header
header = record { pk = 1; limit = some 100; remaining = 40; observed_at = 1001 }

one_call_less : (quota_state 2000 5 (called silent log)).remaining ≡ 39
unfolding quota_state latest_audit audit_header
one_call_less = refl

abbrev position : OpenResult
position = record {
  match_id = 7;
  kickoff = 1000;
  local_date = 0;
  next_result_check_at = none;
  directed = false;
}

open_results-covers_example :
    All (λ p. is_covered 2000 (open_results 2000 (position ∷ [])) p ≡ true) (position ∷ [])
    × (open_result_reserve (open_results 2000 (position ∷ []))
        ≤ count_if (is_due 2000) (position ∷ []))
open_results-covers_example = open_results-covers 2000 (position ∷ [])
