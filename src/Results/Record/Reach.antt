-- ===== src/Results/Record/Reach.antt =====
-- When a result that comes in ends the match in the same call.
use finsport.Prelude.{Option, ℤ}
use finsport.Capital.Contracts.{Outcome, home, away}
use finsport.Results.Provider.{Status, Result}
use finsport.Results.Record.{Row}

-- What a row and a result say of a match.
abbrev pub said_by_row : Row → Status × Option Outcome × Option ℤ × Option ℤ
said_by_row row = (row.status_short, row.outcome, row.home_regulation, row.away_regulation)

abbrev pub said_by : Result → Status × Option Outcome × Option ℤ × Option ℤ
said_by r = (r.status, r.outcome, r.home, r.away)
