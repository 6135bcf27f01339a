-- ===== src/VehicleSync/Counting.antt =====
-- The counts that a run of the synchronization answers.
use parking_system.Common.{ℕ, ◌+◌, ◌≡◌}
use parking_system.Python.{Python}
use parking_system.VehicleSync.Run.{Stats, Step, next, LoopEnd, finished}

-- The first `k` rows are counted, each once.
pub record Counts (k : ℕ) (s : Stats) : Type 0 where
  pub seen : s.rows_total ≡ k
  pub once : s.rows_created + s.rows_updated + s.rows_skipped + s.conflicts ≡ k
  pub valid : s.rows_valid ≡ 0

-- The counts of rows, without those of errors.
abbrev rows_of : Stats → ℕ × ℕ × ℕ × ℕ × ℕ × ℕ
rows_of s =
    (s.rows_total, s.rows_valid, s.rows_created, s.rows_updated, s.rows_skipped, s.conflicts)

abbrev StepCounts : ℕ → Step → Type 0
StepCounts k (next p) = Counts k p.stats
StepCounts k _ = Unit

-- One row is begun and not counted yet.
abbrev Owes : ℕ → Stats → Type 0
Owes k s =
    (s.rows_created + s.rows_updated + s.rows_skipped + s.conflicts ≡ k)
    × (s.rows_total ≡ k + 1)
    × (s.rows_valid ≡ 0)

abbrev LoopCounts : ℕ → LoopEnd → Type 0
LoopCounts k (finished s d) = Counts k s
LoopCounts k _ = Unit
