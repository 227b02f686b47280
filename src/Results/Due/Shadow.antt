-- ===== src/Results/Due/Shadow.antt =====
-- A route that is not validated settles nothing: the other provider keeps the authority.
use finsport.Prelude.{ℕ, ◌≡◌, ◌⊎◌, Option, some, List}
use finsport.Decimal.{Decimal}
use finsport.Results.Provider.{Bound, Event, object, FieldError}
use finsport.Results.Provider.Errors.{IsUnreadable}
use finsport.Results.Record.{MatchRow}
use finsport.Results.Route.{Route}
use finsport.Results.Due.{File, DueError, reading, Fetched, fetched, Turn, find_file}

-- The exception of a payload that `normalize_bsd` cannot read.
abbrev pub IsBroken : Fetched → Option DueError → Type 0
IsBroken x raised_now =
    (error : FieldError) × (b : Bound) × (e : Event) × (raised_now ≡ some (reading error))
    × (x ≡ fetched b (object e))
    × IsUnreadable b e

-- Nothing is settled or raised, and the files are these.
abbrev pub IsQuiet : List File → Turn → Turn → Type 0
IsQuiet files t q = (q.settled ≡ t.settled) × (q.raised ≡ t.raised) × (q.world.files ≡ files)

-- The match is as it was.
abbrev pub IsKept : ℕ → MatchRow → List File → Type 0
IsKept m row files = (f : File) × (find_file m files ≡ some f) × (f.match_row ≡ row)

module _ (column ratio : Decimal → Decimal) where
  -- What a turn on the file `f` of a route in shadow leaves.
  abbrev pub IsShadowed : File → Fetched → Turn → Turn → Type 0
  IsShadowed f x t q =
      (q.settled ≡ t.settled)
      × IsKept f.match_id f.match_row q.world.files
      × ((q.raised ≡ t.raised) ⊎ IsBroken x q.raised)
