-- ===== src/SeqlenBalancing/Microbatches/Rebuilt.antt =====
-- seqlen_balancing.py: `reconstruct_batch_from_microbatches` undoes the split.
use axrl.Prelude.{ℕ, ◌<◌, List, All}

-- Every index is that of a row.
abbrev IsBelow : ℕ → List ℕ → Type 0
IsBelow n is = All (λ i. i < n) is
