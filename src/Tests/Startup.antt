-- ===== src/Tests/Startup.antt =====
-- The start, the routes, the listener of the proxy and the logs.
use bakpia_run.Prelude.{
  ℕ, ◌≡◌, ◌==◌, ◌&&◌, not, refl, ◌⊎◌, arith, Bool, true, false, Option, none, some, List, [], ◌∷◌,
  All, if◌then◌else◌,
}
use bakpia_run.Text.{Text, codes, text_eq}
use bakpia_run.Text.Decimal.{decimal, address}
use bakpia_run.Config.{Config, or_else}
use bakpia_run.Http.{Headers}
use bakpia_run.AdminAuth.{admin_auth, provided_token}
use bakpia_run.Startup.{
  Host, get, health, php, boot_with, app_routes, token_env, admin_allows, reached, dispatch,
}
use bakpia_run.Startup.Outcome.{Booted, boot_with-Booted}
use bakpia_run.Startup.Guarding.{dispatch_guards}
use bakpia_run.DbProxy.Listener.{
  Accepted, client, accept_error, Served, silent, accept_loop, listening, server_version,
}
use bakpia_run.DbProxy.Listener
use bakpia_run.DbProxy.Listener.Local.{start-IsLocal}
use bakpia_run.Logger
use bakpia_run.Logger.{
  Call, complete, failed, access, error, access_line, error_line, to_uppercase, upper,
}
use bakpia_run.Logger.Lines.{IsOneLine, access_lines, error_lines, split_log, history-new-lines}
use bakpia_run.Tests.Samples.{sample_config, good_os}

-- The certificate cannot be loaded.
abbrev host : Host
host = record {
  binds = λ addr. true;
  creates_dir = λ path. true;
  parses_address = λ addr. true;
  loads_tls = λ cert key. false;
}

abbrev https_config : Config
https_config = record sample_config {
  server = record (sample_config.server) {
    tls = record { enabled = true; cert_path = []; key_path = [] };
  };
}

boot_with-Booted_example :
    Booted {F = ℕ} {V = ℕ} host
      (λ p i. good_os)
      7
      https_config
      (boot_with host https_config (λ p i. good_os) 7)
boot_with-Booted_example = boot_with-Booted host (λ p i. good_os) 7 https_config

abbrev token_set : Text → Option Text
token_set var = if text_eq var (codes "BAKPIA_ADMIN_TOKEN") then some (codes "s3") else none

abbrev with_token : Headers
with_token name = if text_eq name (codes "X-Admin-Token") then some (some (codes "s3")) else none

health_reached :
    dispatch
      (λ paths path. some 2)
      (λ methods m. true)
      token_set
      sample_config
      get
      (codes "/health")
      with_token
    ≡ reached health
unfolding dispatch app_routes admin_allows token_env admin_auth provided_token text_eq
health_reached = refl

dispatch_guards_example :
    ((health ≡ php)
      ⊎ (or_else (token_env token_set sample_config) [] ≡ [])
      ⊎ (provided_token with_token ≡ or_else (token_env token_set sample_config) []))
    × Unit {0}
dispatch_guards_example =
    dispatch_guards (λ paths path. some 2) (λ methods m. true) token_set sample_config get
      (codes "/health") with_token health health_reached

abbrev proxy_config : Config
proxy_config = record sample_config {
  db_proxy = record (sample_config.db_proxy) { enabled = true };
}

abbrev some_clients : List Accepted
some_clients =
    client (codes "127.0.0.1:5") true
    ∷ client (codes "10.0.0.2:6") false
    ∷ accept_error (codes "full")
    ∷ []

proxy_listens :
    Listener.start (λ u. none) silent (λ addr. none) some_clients proxy_config
    ≡ listening
        (address (codes "127.0.0.1") 3307)
        (codes "8.0.36")
        (record { clients = codes "127.0.0.1:5" ∷ []; error = some (codes "full") })
unfolding Listener.start accept_loop server_version text_eq
proxy_listens = refl

start-IsLocal_example :
    (true ≡ true)
    × ((address (codes "127.0.0.1") 3307 ≡ address (codes "127.0.0.1") 3307)
        ⊎ (address (codes "127.0.0.1") 3307 ≡ address (codes "localhost") 3307))
    × (codes "8.0.36" ≡ server_version proxy_config.db_proxy silent)
    × (codes "127.0.0.1:5" ∷ [] ≡ codes "127.0.0.1:5" ∷ [])
start-IsLocal_example =
    start-IsLocal (λ u. none) silent (λ addr. none) some_clients proxy_config
      (address (codes "127.0.0.1") 3307) (codes "8.0.36")
      (record { clients = codes "127.0.0.1:5" ∷ []; error = some (codes "full") }) proxy_listens

abbrev no_newline : Text → Bool
no_newline [] = true
no_newline (c ∷ t) = not (c == 10) && no_newline t

no_newline-IsOneLine : (t : Text) → no_newline t ≡ true → IsOneLine t
no_newline-IsOneLine [] h = tt
no_newline-IsOneLine (c ∷ t) h = (ground (arith, h), no_newline-IsOneLine t (ground (arith, h)))

abbrev calls : List Call
calls =
    access complete (codes "t") (codes "10.0.0.1") (codes "GET") (codes "/") 200 3
    ∷ access (failed 0) (codes "t") (codes "10.0.0.1") (codes "GET") (codes "/full") 200 3
    ∷ error complete (codes "t") (codes "warn") (codes "slow")
    ∷ []

access_plain : All IsOneLine (access_lines calls)
unfolding access_line decimal
access_plain = (
  no_newline-IsOneLine (access_line (codes "t") (codes "10.0.0.1") (codes "GET") (codes "/") 200 3)
      refl,
  tt,
)

error_plain : All IsOneLine (error_lines calls)
unfolding error_line to_uppercase upper
error_plain = (no_newline-IsOneLine (error_line (codes "t") (codes "warn") (codes "slow")) refl, tt)

history-new-lines_example :
    (split_log
        (Logger.history calls
          (Logger.new (λ path. true) true (codes "a") true (codes "e"))).access_file
      ≡ some (access_line (codes "t") (codes "10.0.0.1") (codes "GET") (codes "/") 200 3 ∷ [] ∷ []))
    × (split_log
          (Logger.history calls
            (Logger.new (λ path. true) true (codes "a") true (codes "e"))).error_file
        ≡ some (error_line (codes "t") (codes "warn") (codes "slow") ∷ [] ∷ []))
history-new-lines_example =
    history-new-lines (λ path. true) true (codes "a") true (codes "e") calls (tt, (refl, (tt, tt)))
      access_plain error_plain
