-- ===== src/Config/Sockets.antt =====
-- The sockets of the workers of one pool, and the overrides from the environment.
use bakpia_run.Prelude.{ℕ, ◌^◌, ◌<◌, ◌≡◌, ◌≢◌, refl, sym, ◌∙◌, ap, arith, Option, none, some, ◌++◌}
use bakpia_run.Text.{codes}
use bakpia_run.Text.Decimal.{decimal, parse_uint, parse-decimal}
use bakpia_run.Text.Matching.{append_cancel_left, append_cancel_right}
use bakpia_run.Config.{
  Config, Env, env_number, or_else, get_worker_socket_path, apply_env_overrides,
}

decimal_injective : (i j : ℕ) → i < 2 ^ 64 → j < 2 ^ 64 → decimal i ≡ decimal j → i ≡ j
decimal_injective i j h k e =
    let same : some i ≡ some j =
      sym (parse-decimal (2 ^ 64) i (omega arith) h)
      ∙ ap (parse_uint (2 ^ 64)) e
      ∙ parse-decimal (2 ^ 64) j (omega arith) k in
    ap (λ o. or_else o 0) same

get_worker_socket_path_injective :
    (c : Config) (i j : ℕ)
    → i < 2 ^ 64
    → j < 2 ^ 64
    → get_worker_socket_path c i ≡ get_worker_socket_path c j
    → i ≡ j
unfolding get_worker_socket_path
get_worker_socket_path_injective c i j h k e = decimal_injective i j h k (
    append_cancel_right (decimal i) (decimal j) (codes ".sock") (
      append_cancel_left (codes "/worker_") (decimal i ++ codes ".sock")
        (decimal j ++ codes ".sock")
        (append_cancel_left c.socket_directory (codes "/worker_" ++ (decimal i ++ codes ".sock"))
          (codes "/worker_" ++ (decimal j ++ codes ".sock")) e)))

-- Two workers of one configuration with different indices below 2^64 have different socket paths.
get_worker_socket_path_distinct :
    (c : Config) (i j : ℕ)
    → i < 2 ^ 64
    → j < 2 ^ 64
    → i ≢ j
    → get_worker_socket_path c i ≢ get_worker_socket_path c j
get_worker_socket_path_distinct c i j h k ne e = ne (get_worker_socket_path_injective c i j h k e)

or_else_twice {ℓ} : {A : Type ℓ} (o : Option A) (a : A) → or_else o (or_else o a) ≡ or_else o a
or_else_twice none a = refl
or_else_twice (some b) a = refl

-- Applying the overrides of an environment a second time changes nothing.
apply_env_overrides_idempotent :
    (env : Env) (c : Config)
    → apply_env_overrides env (apply_env_overrides env c) ≡ apply_env_overrides env c
unfolding apply_env_overrides
apply_env_overrides_idempotent env c = λ i. record c {
  server = record server {
    host = or_else_twice (env (codes "BAKPIARUN_HOST")) server.host i;
    port = or_else_twice (env_number (2 ^ 16) env (codes "BAKPIARUN_PORT")) server.port i;
  };
  php = record php {
    docroot = or_else_twice (env (codes "BAKPIARUN_DOCROOT")) php.docroot i;
    binary_path = or_else_twice (env (codes "BAKPIARUN_PHP_BINARY")) php.binary_path i;
    worker_count =
        or_else_twice (env_number (2 ^ 64) env (codes "BAKPIARUN_WORKER_COUNT")) php.worker_count i;
    memory_limit_mb =
        or_else_twice (env_number (2 ^ 64) env (codes "BAKPIARUN_MEMORY_LIMIT_MB"))
          php.memory_limit_mb i;
  };
}
  where
    open c use {server, php}
