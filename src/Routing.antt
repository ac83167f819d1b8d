-- ===== src/Routing.antt =====
-- src-server/src/pool_manager.rs: which worker pool a request goes to. A pool is of any type, and
-- starting one may fail; the headers of a request are its pairs of a name and a value, `none` where
-- the value is not visible ASCII.
pub mod Patterns
pub mod Choice
pub mod Starting
pub mod Making
use bakpia_run.Prelude.{
  ℕ, ◌-◌, Bool, true, false, ◌||◌, Option, none, some, List, [], ◌∷◌, ◌++◌, if◌then◌else◌, length,
  take, drop, any,
}
use bakpia_run.Prelude.Maps.{get, insert, contains_key}
use bakpia_run.Text.{
  Text, codes, text_eq, starts_with, ends_with, trim, to_lowercase, eq_ignore_ascii_case,
}
use bakpia_run.Text.Matching.{text_keys}
use bakpia_run.Config.{Config, PoolConfig, or_else}

pub record RoutingRule : Type 0 where
  pub pool_name : Text
  pub patterns : List Text
  pub headers : List (Text × Text)

pub record PoolManager {ℓ} (Pool : Type ℓ) : Type ℓ where
  pub pools : List (Text × Pool)
  pub routing_table : List RoutingRule

abbrev pub HeaderMap : Type 0
HeaderMap = List (Text × Option Text)

unfoldable pub build_pool_config : Config → PoolConfig → Config
build_pool_config c p = record c {
  socket_directory = c.socket_directory ++ (b'/' ∷ p.name);
  php = record php {
    worker_count = p.worker_count;
    memory_limit_mb = or_else p.memory_limit_mb php.memory_limit_mb;
    max_requests = or_else p.max_requests php.max_requests;
    timeout_ms = or_else p.timeout_ms php.timeout_ms;
  };
}
  where
    open c use {php}

abbrev pub rule_of : PoolConfig → RoutingRule
rule_of p = record { pool_name = p.name; patterns = p.patterns; headers = p.headers }

-- How `PoolManager::new` ends, with the pools that have been started: it panics where the directory of
-- a pool cannot be made.
pub data Made {ℓ} (Pool : Type ℓ) : Type ℓ where
  made : PoolManager Pool → Made Pool
  panicked : PoolManager Pool → Made Pool

module _ {ℓ} {Pool : Type ℓ} where
  -- One round of the loop in `new`: a pool that fails to start is left out.
  pub add_pool :
      (Config → PoolConfig → Option Pool)
      → Config
      → PoolManager Pool
      → PoolConfig
      → PoolManager Pool
  add_pool start c m p = elim (start (build_pool_config c p) p) [
    | none ↦ m
    | some pool ↦ record {
      pools = insert p.name pool m.pools;
      routing_table = m.routing_table ++ (rule_of p ∷ []);
    }
  ]

  pub add_pools :
      (Config → PoolConfig → Option Pool)
      → Config
      → PoolManager Pool
      → List PoolConfig
      → PoolManager Pool
  unfolding add_pool
  add_pools start c m [] = m
  add_pools start c m (p ∷ ps) = add_pools start c (add_pool start c m p) ps

  -- `PoolManager::new` where the socket directory of each pool can be made.
  unfoldable pub new : (Config → PoolConfig → Option Pool) → Config → PoolManager Pool
  unfolding add_pools
  new start c = add_pools start c (record { pools = []; routing_table = [] }) c.pools

  unfoldable pub make_pools :
      (Text → Bool)
      → (Config → PoolConfig → Option Pool)
      → Config
      → PoolManager Pool
      → List PoolConfig
      → Made Pool
  make_pools creates_dir start c m [] = made m
  make_pools creates_dir start c m (p ∷ ps) =
      elim (creates_dir (build_pool_config c p).socket_directory) [
        | true ↦ make_pools creates_dir start c (add_pool start c m p) ps
        | false ↦ panicked m
      ]

  -- `PoolManager::new` with its panic.
  unfoldable pub make : (Text → Bool) → (Config → PoolConfig → Option Pool) → Config → Made Pool
  make creates_dir start c =
      make_pools creates_dir start c (record { pools = []; routing_table = [] }) c.pools

  table_for : List (Text × Pool) → List PoolConfig → List RoutingRule
  table_for pools [] = []
  table_for pools (p ∷ ps) =
      let rest = table_for pools ps in if contains_key p.name pools then rule_of p ∷ rest else rest

  unfoldable pub update_routing_table : PoolManager Pool → Config → PoolManager Pool
  unfolding table_for
  update_routing_table m c = record m { routing_table = table_for m.pools c.pools }

  unfoldable pub get_pool : PoolManager Pool → Text → Option Pool
  get_pool m name = get name m.pools

-- On texts that are already trimmed and in lower case.
match_lowered : Text → Text → Bool
match_lowered actual expected =
    if text_eq expected (codes "*") || text_eq actual expected
    then true
    else if ends_with expected (codes "*")
    then starts_with actual (take (length expected - 1) expected)
    else if starts_with expected (codes "*")
    then ends_with actual (drop 1 expected)
    else false

unfoldable pub match_header_value : Text → Text → Bool
unfolding match_lowered
match_header_value actual expected_pattern =
    match_lowered (to_lowercase (trim actual)) (to_lowercase (trim expected_pattern))

match_header : Text → Text → Text × Option Text → Bool
match_header rule_key rule_val (req_key, none) = false
match_header rule_key rule_val (req_key, some val_str) =
    if eq_ignore_ascii_case req_key rule_key then match_header_value val_str rule_val else false

unfoldable pub match_headers : HeaderMap → List (Text × Text) → Bool
unfolding match_header
match_headers req_headers rule_headers =
    any (λ (rule : Text × Text). any (match_header rule.0 rule.1) req_headers) rule_headers

unfoldable pub match_pattern : Text → Text → Bool
match_pattern path pattern_text =
    if text_eq path pattern_text
    then true
    else if text_eq pattern_text (codes "/*")
    then true
    else if ends_with pattern_text (codes "*")
    then starts_with path (take (length pattern_text - 1) pattern_text)
    else if ends_with pattern_text (codes "/*")
    then starts_with path (take (length pattern_text - 2) pattern_text)
    else if starts_with pattern_text (codes "/*")
    then ends_with path (drop 2 pattern_text)
    else false

first_rule : (RoutingRule → Bool) → List RoutingRule → Option Text
first_rule test [] = none
first_rule test (r ∷ rs) =
    let rest = first_rule test rs in if test r then some r.pool_name else rest

first_name : List RoutingRule → Option Text
first_name [] = none
first_name (r ∷ rs) = some r.pool_name

or_next {ℓ} : {A : Type ℓ} → Option A → Option A → Option A
or_next none next = next
or_next (some a) next = some a

abbrev pub by_headers : HeaderMap → RoutingRule → Bool
by_headers req_headers r = match_headers req_headers r.headers

abbrev pub by_patterns : Text → RoutingRule → Bool
by_patterns path r = any (match_pattern path) r.patterns

module _ {ℓ} {Pool : Type ℓ} where
  unfoldable pub get_pool_name_for_request : PoolManager Pool → Text → HeaderMap → Option Text
  unfolding first_rule first_name or_next
  get_pool_name_for_request m path req_headers =
      or_next (first_rule (by_headers req_headers) m.routing_table)
        (or_next (first_rule (by_patterns path) m.routing_table) (first_name m.routing_table))

  unfoldable pub get_pool_name_for_path : PoolManager Pool → Text → Option Text
  unfolding get_pool_name_for_request
  get_pool_name_for_path m path = get_pool_name_for_request m path []
