-- ===== src/Routing/Choice.antt =====
-- The pool that a request gets.
use mathlib.Core.Path.{subst}
use bakpia_run.Prelude.{
  ◌≡◌, refl, ap, ◌⊎◌, inl, inr, Bool, true, false, ◌||◌, Option, none, some, List, [], ◌∷◌, ◌++◌,
  arith, Bool-cases, Option-cases, All, All-append,
}
use bakpia_run.Prelude.Maps.{insert, contains_key, contains_key-get}
use bakpia_run.Text.{Text, text_eq}
use bakpia_run.Text.Matching.{text_keys, text_eq_refl, text_eq_iff}
use bakpia_run.Config.{Config, PoolConfig}
use bakpia_run.Routing.{
  RoutingRule, PoolManager, HeaderMap, build_pool_config, rule_of, add_pool, add_pools, new,
  table_for, update_routing_table, get_pool, first_rule, first_name, or_next, by_headers,
  by_patterns, get_pool_name_for_request,
}

-- The first rule of the table that passes a test, with the rules before it, which fail it.
abbrev pub IsFirst : (RoutingRule → Bool) → List RoutingRule → Text → Type 0
IsFirst test rs name =
    (before : List RoutingRule) × (r : RoutingRule) × (after : List RoutingRule) × (rs
      ≡ before ++ (r ∷ after))
    × All (λ (q : RoutingRule). test q ≡ false) before
    × (test r ≡ true)
    × (name ≡ r.pool_name)

abbrev NoneFits : (RoutingRule → Bool) → List RoutingRule → Type 0
NoneFits test rs = All (λ (q : RoutingRule). test q ≡ false) rs

first_rule_cases :
    (test : RoutingRule → Bool) (rs : List RoutingRule)
    → ((first_rule test rs ≡ none) × NoneFits test rs)
      ⊎ ((name : Text) × (first_rule test rs ≡ some name) × IsFirst test rs name)
unfolding first_rule
first_rule_cases test [] = inl (refl, tt)
first_rule_cases test (r ∷ rs) = elim (Bool-cases (test r)) [
  | inl t ↦ inr (r.pool_name, rw t, ([], r, rs, refl, tt, t, refl))
  | inr t ↦ elim (first_rule_cases test rs) [
    | inl (e, h) ↦ inl (rw t e, (t, h))
    | inr (name, e, (before, q, after, split, fails, passes, named)) ↦
        inr (name, rw t e, (r ∷ before, q, after, ap (◌∷◌ r) split, (t, fails), passes, named))
  ]
]

first_name_cases :
    (rs : List RoutingRule)
    → ((first_name rs ≡ none) × (rs ≡ []))
      ⊎ ((r : RoutingRule) × (after : List RoutingRule) × (rs ≡ r ∷ after)
          × (first_name rs ≡ some r.pool_name))
unfolding first_name
first_name_cases [] = inl (refl, refl)
first_name_cases (r ∷ rs) = inr (r, rs, refl, refl)

All-middle :
    (P : RoutingRule → Type 0) (before : List RoutingRule) (r : RoutingRule)
    (after : List RoutingRule)
    → All P (before ++ (r ∷ after))
    → P r
All-middle P [] r after h = h.0
All-middle P (b ∷ before) r after h = All-middle P before r after h.1

-- How a request is routed: by the first rule whose headers match; without one, by the first rule one
-- of whose patterns matches; without one, by the first rule of all; and not at all if there is none.
pub data Routed (rs : List RoutingRule) (path : Text) (req_headers : HeaderMap) (o : Option Text)
    : Type 0 where
  header_rule :
      (name : Text)
      → o ≡ some name
      → IsFirst (by_headers req_headers) rs name
      → Routed rs path req_headers o
  pattern_rule :
      (name : Text)
      → o ≡ some name
      → NoneFits (by_headers req_headers) rs
      → IsFirst (by_patterns path) rs name
      → Routed rs path req_headers o
  fallback :
      (r : RoutingRule) (after : List RoutingRule)
      → o ≡ some r.pool_name
      → NoneFits (by_headers req_headers) rs
      → NoneFits (by_patterns path) rs
      → rs ≡ r ∷ after
      → Routed rs path req_headers o
  no_rule : o ≡ none → rs ≡ [] → Routed rs path req_headers o

module _ (rs : List RoutingRule) (P : Text → Type 0)
    (h : All (λ (r : RoutingRule). P r.pool_name) rs) where
  IsFirst-name :
      (test : RoutingRule → Bool) (o : Option Text) (n name : Text)
      → o ≡ some n
      → o ≡ some name
      → IsFirst test rs n
      → P name
  IsFirst-name test o n name e k (before, r, after, split, _, _, named) =
      let there : All (λ (q : RoutingRule). P q.pool_name) (before ++ (r ∷ after)) =
        subst (All (λ (q : RoutingRule). P q.pool_name)) split h in
      let same : r.pool_name ≡ name = cc in
      subst P same (All-middle (λ (q : RoutingRule). P q.pool_name) before r after there)

  Routed-name :
      (path : Text) (hs : HeaderMap) (o : Option Text) (name : Text)
      → Routed rs path hs o
      → o ≡ some name
      → P name
  Routed-name path hs o name (header_rule n e first) k =
      IsFirst-name (by_headers hs) o n name e k first
  Routed-name path hs o name (pattern_rule n e _ first) k =
      IsFirst-name (by_patterns path) o n name e k first
  Routed-name path hs o name (fallback r after e _ _ split) k =
      let there : All (λ (q : RoutingRule). P q.pool_name) (r ∷ after) =
        subst (All (λ (q : RoutingRule). P q.pool_name)) split h in
      let same : r.pool_name ≡ name = cc in subst P same there.0
  Routed-name path hs o name (no_rule e _) k = cc

module _ {ℓ} {Pool : Type ℓ} where
  -- On every table and for every request, the name given is that of the first rule that the
  -- headers fit; if there is none, of the first rule with a pattern that the path fits; if
  -- there is none either, of the first rule; and none is given exactly if the table is empty.
  pub get_pool_name_for_request-Routed :
      (m : PoolManager Pool) (path : Text) (req_headers : HeaderMap)
      → Routed m.routing_table path req_headers (get_pool_name_for_request m path req_headers)
  unfolding get_pool_name_for_request
  get_pool_name_for_request-Routed m path hs =
      elim (first_rule_cases (by_headers hs) m.routing_table) [
        | inr (name, e, first) ↦ rw (e, or_next) (header_rule name refl first)
        | inl (e, no_header) ↦ elim (first_rule_cases (by_patterns path) m.routing_table) [
          | inr (name, k, first) ↦
              rw (e, or_next, k, or_next) (pattern_rule name refl no_header first)
          | inl (k, no_pattern) ↦ elim (first_name_cases m.routing_table) [
            | inl (f, empty) ↦ rw (e, or_next, k, or_next, f) (no_rule refl empty)
            | inr (r, after, split, f) ↦
                rw (e, or_next, k, or_next, f) (fallback r after refl no_header no_pattern split)
          ]
        ]
      ]

  -- Every routing rule leads to a pool that is there.
  abbrev pub IsRouted : PoolManager Pool → Type 0
  IsRouted m = All (λ (r : RoutingRule). contains_key r.pool_name m.pools ≡ true) m.routing_table

  pub contains_key-insert :
      (k j : Text) (pool : Pool) (m : List (Text × Pool))
      → contains_key j (insert k pool m) ≡ (text_eq k j || contains_key j m)
  unfolding contains_key insert
  contains_key-insert k j pool [] = refl
  contains_key-insert k j pool ((i, w) ∷ m) =
      ground
        (arith, text_eq_iff i k, text_eq_iff i j, text_eq_iff k j, contains_key-insert k j pool m)

  All-insert :
      (k : Text) (pool : Pool) (m : List (Text × Pool)) (rs : List RoutingRule)
      → All (λ (r : RoutingRule). contains_key r.pool_name m ≡ true) rs
      → All (λ (r : RoutingRule). contains_key r.pool_name (insert k pool m) ≡ true) rs
  All-insert k pool m [] h = tt
  All-insert k pool m (r ∷ rs) (h, hs) =
      (ground (arith, contains_key-insert k r.pool_name pool m), All-insert k pool m rs hs)

  add_pool-IsRouted :
      (start : Config → PoolConfig → Option Pool) (c : Config) (m : PoolManager Pool)
      (p : PoolConfig)
      → IsRouted m
      → IsRouted (add_pool start c m p)
  unfolding add_pool
  add_pool-IsRouted start c m p h = elim (Option-cases (start (build_pool_config c p) p)) [
    | inl e ↦ rw (e, add_pool) h
    | inr (pool, e) ↦
        rw (e, add_pool)
          (All-append
            (λ (r : RoutingRule). contains_key r.pool_name (insert p.name pool m.pools) ≡ true)
            m.routing_table (rule_of p ∷ []) (All-insert p.name pool m.pools m.routing_table h)
            (
              ground (arith, contains_key-insert p.name p.name pool m.pools, text_eq_refl p.name),
              tt,
            ))
  ]

  add_pools-IsRouted :
      (start : Config → PoolConfig → Option Pool) (c : Config) (m : PoolManager Pool)
      (ps : List PoolConfig)
      → IsRouted m
      → IsRouted (add_pools start c m ps)
  unfolding add_pools
  add_pools-IsRouted start c m [] h = h
  add_pools-IsRouted start c m (p ∷ ps) h =
      add_pools-IsRouted start c (add_pool start c m p) ps (add_pool-IsRouted start c m p h)

  table_for-IsRouted :
      (pools : List (Text × Pool)) (ps : List PoolConfig)
      → All (λ (r : RoutingRule). contains_key r.pool_name pools ≡ true) (table_for pools ps)
  unfolding table_for
  table_for-IsRouted pools [] = tt
  table_for-IsRouted pools (p ∷ ps) = elim (Bool-cases (contains_key p.name pools)) [
    | inl e ↦ rw e (e, table_for-IsRouted pools ps)
    | inr e ↦ rw e (table_for-IsRouted pools ps)
  ]

  pub update_routing_table-IsRouted :
      (m : PoolManager Pool) (c : Config) → IsRouted (update_routing_table m c)
  unfolding update_routing_table
  update_routing_table-IsRouted m c = table_for-IsRouted m.pools c.pools

  -- The managers that the server reaches: started from a configuration, and given a new routing table
  -- by each reload.
  pub data IsReached (start : Config → PoolConfig → Option Pool) : PoolManager Pool → Type ℓ where
    started : (c : Config) → IsReached start (new start c)
    reloaded :
        (m : PoolManager Pool) (c : Config)
        → IsReached start m
        → IsReached start (update_routing_table m c)

  pub IsReached-IsRouted :
      {start : Config → PoolConfig → Option Pool} {m : PoolManager Pool}
      → IsReached start m
      → IsRouted m
  unfolding new update_routing_table
  IsReached-IsRouted {start} (started c) =
      add_pools-IsRouted start c (record { pools = []; routing_table = [] }) c.pools tt
  IsReached-IsRouted (reloaded m c h) = table_for-IsRouted m.pools c.pools

  pub get_pool-IsRouted :
      (m : PoolManager Pool) (path : Text) (req_headers : HeaderMap) (name : Text)
      → IsRouted m
      → get_pool_name_for_request m path req_headers ≡ some name
      → (pool : Pool) × (get_pool m name ≡ some pool)
  unfolding get_pool
  get_pool-IsRouted m path hs name routed e = contains_key-get name m.pools (
      Routed-name m.routing_table (λ n. contains_key n m.pools ≡ true) routed path hs _ name
        (get_pool_name_for_request-Routed m path hs) e)

  -- Whatever pools came up at the start and however often the configuration was reloaded, a request
  -- that is given a pool name is given the name of a pool that exists.
  pub get_pool_of_name :
      (start : Config → PoolConfig → Option Pool) (m : PoolManager Pool) (path : Text)
      (req_headers : HeaderMap) (name : Text)
      → IsReached start m
      → get_pool_name_for_request m path req_headers ≡ some name
      → (pool : Pool) × (get_pool m name ≡ some pool)
  get_pool_of_name start m path hs name reached e =
      get_pool-IsRouted m path hs name (IsReached-IsRouted reached) e
