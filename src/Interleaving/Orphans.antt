-- ===== src/Interleaving/Orphans.antt =====
-- A request and a reload that take a worker apart.
use bakpia_run.Prelude.{false, ℕ, ◌≡◌, ◌≢◌, false, Option, none, some, List, All}
use bakpia_run.Prelude.Maps.{get}
use bakpia_run.Text.{Text, text_eq}
use bakpia_run.Text.Matching.{text_keys}
use bakpia_run.Config.{Config}
use bakpia_run.Worker.{Worker}
use bakpia_run.Interleaving.{SharedPool}

-- No pool has worker `k`, unless one with the name that is excepted.
abbrev pub IsElsewhere : Option Text → ℕ → List (Text × SharedPool) → Type 0
IsElsewhere none k pools =
    (n : Text) (q : SharedPool) → get n pools ≡ some q → All (λ j. j ≢ k) q.refs
IsElsewhere (some name) k pools =
    (n : Text) (q : SharedPool)
    → text_eq name n ≡ false
    → get n pools ≡ some q
    → All (λ j. j ≢ k) q.refs
