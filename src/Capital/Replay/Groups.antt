-- ===== src/Capital/Replay/Groups.antt =====
-- What holds of every decision of a replay holds in its batches.
use finsport.Prelude.{List, [], ◌∷◌, All, Bool-cases, inl, inr, ◌==◌, join_group}
use finsport.Capital.Contracts.{CapitalDecision}
use finsport.Capital.Replay.{Batch, group_by_time}

-- A predicate of every decision, batch by batch.
abbrev pub InBatches {κ} : (CapitalDecision → Type κ) → List Batch → Type κ
InBatches P = All (λ b. All P b.1)

join_group-InBatches {κ} :
    (P : CapitalDecision → Type κ) (d : CapitalDecision) (bs : List Batch)
    → P d
    → InBatches P bs
    → InBatches P (join_group {A = CapitalDecision} (λ d. d.decision_time) d bs)
join_group-InBatches P d [] h k = ((h, tt), tt)
join_group-InBatches P d ((t, ds) ∷ rest) h k = elim (Bool-cases (d.decision_time == t)) [
  | inl same ↦ rw same ((h, k.0), k.1)
  | inr other ↦ rw other ((h, tt), k)
]

pub group_by_time-InBatches {κ} :
    (P : CapitalDecision → Type κ) (ds : List CapitalDecision)
    → All P ds
    → InBatches P (group_by_time ds)
unfolding group_by_time
group_by_time-InBatches P [] h = tt
group_by_time-InBatches P (d ∷ ds) h =
    join_group-InBatches P d (group_by_time ds) h.0 (group_by_time-InBatches P ds h.1)
