-- ===== src/Float.antt =====
-- The arithmetic of `f64`, as a parameter of the code that uses it.
use bakpia_run.Prelude.{ℕ, Bool}

-- What the code uses of `f64`: `of_nat` is `as f64` on a `u32` or a `u64`, and `secs` is `as_secs_f64`
-- of nanoseconds.
pub record F64 (F : Type 0) : Type 0 where
  pub of_nat : ℕ → F
  pub secs : ℕ → F
  pub add : F → F → F
  pub sub : F → F → F
  pub mul : F → F → F
  pub div : F → F → F
  pub fmin : F → F → F
  pub ge : F → F → Bool
  pub to_u32 : F → ℕ
  pub ceil_u64 : F → ℕ
