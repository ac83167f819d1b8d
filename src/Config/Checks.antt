-- ===== src/Config/Checks.antt =====
-- What the validation accepts.
use bakpia_run.Prelude.{◌≤◌, ◌≡◌, ◌↔◌, none, arith}
use bakpia_run.Config.{Config, validate}

-- What a valid configuration satisfies.
pub record IsValid (c : Config) : Type 0 where
  pub port : 1 ≤ c.server.port
  pub workers : 1 ≤ c.php.worker_count
  pub memory : 1 ≤ c.php.memory_limit_mb
  pub requests : 1 ≤ c.php.max_requests
  pub timeout : 1000 ≤ c.php.timeout_ms

-- `validate` finds no error exactly in the configurations whose port, worker count, memory limit and
-- request limit are at least 1 and whose timeout is at least a second.
pub validate_iff : (c : Config) → (validate c ≡ none) ↔ IsValid c
unfolding validate
validate_iff c = (λ h. ground arith, λ v. ground arith)
