-- ===== src/Results/Gate/Pairing.antt =====
-- The two queries of `shadow_gate` (football/result_provider.py): the last full time row of each
-- provider of a match, and the rows in conflict of the competitions with BSD leagues.
use finsport.Prelude.{
  ℕ, ◌+◌, Bool, ◌&&◌, Option, none, some, List, [], ◌∷◌, ◌==◌, any, keep, count_if, if◌then◌else◌,
}
use finsport.Results.Provider.{ft, same_status, bsd, api_football, Provider}
use finsport.Results.Record.{Row, latest}
use finsport.Results.Route.{Route}

-- A match with its result rows; `date` numbers the Lima day of its kickoff, which the time zone
-- database gives.
pub record Tracked : Type 0 where
  pub competition : ℕ
  pub date : ℕ
  pub rows : List Row

pub record Paired : Type 0 where
  pub competition : ℕ
  pub date : ℕ
  pub bsd_row : Row
  pub api_row : Row

abbrev pub is_full_time : Row → Bool
is_full_time row = same_status row.status_short ft

-- `paired[match][provider]`: each row overwrites the one before, in the order of
-- `order_by("provider_observed_at", "id")`.
abbrev pub last_full_time : Provider → List Row → Option Row
last_full_time q rows = latest q (keep is_full_time rows)

-- The matches with a row of both providers.
unfoldable pub paired : List Tracked → List Paired
unfolding latest
paired [] = []
paired (x ∷ xs) =
    let rest = paired xs in
    elim (last_full_time bsd x.rows) [
      | none ↦ rest
      | some b ↦ elim (last_full_time api_football x.rows) [
        | none ↦ rest
        | some a ↦
            record { competition = x.competition; date = x.date; bsd_row = b; api_row = a } ∷ rest
      ]
    ]

abbrev pub with_leagues : List Route → ℕ → Bool
with_leagues routes c = any {A = Route} (λ r. r.competition == c && r.has_leagues) routes

-- The rows in conflict of the matches whose competition has a route with leagues.
unfoldable pub confirmed_conflicts : List Route → List Tracked → ℕ
confirmed_conflicts routes [] = 0
confirmed_conflicts routes (x ∷ xs) =
    (if with_leagues routes x.competition
      then count_if {A = Row} (λ row. row.conflict) x.rows
      else 0)
    + confirmed_conflicts routes xs
