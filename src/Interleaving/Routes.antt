-- ===== src/Interleaving/Routes.antt =====
-- The pool that a request has been given the name of, with many requests at once.
use mathlib.Core.Path.{subst}
use bakpia_run.Prelude.{
  ◌≡◌, refl, sym, ap, ◌∙◌, inl, inr, arith, true, Bool-cases, some, List, [], ◌∷◌, All,
}
use bakpia_run.Prelude.Maps.{get, insert, contains_key}
use bakpia_run.Text.{Text, text_eq}
use bakpia_run.Text.Matching.{text_keys, text_eq_iff}
use bakpia_run.Routing.{RoutingRule, PoolManager, get_pool}
use bakpia_run.Routing.Choice.{IsRouted, get_pool-IsRouted, contains_key-insert}
use bakpia_run.App.Pools.{IsRouted-names}
use bakpia_run.Interleaving.{
  SharedPool, Shared, Pc, arrived, named, assigned, prepared, waiting, received, recorded,
  over_limit, finished, abandoned, put_pool, Move, turn_away, route, choose, ensure, ensure_fails,
  unreadable, take, receive, record_answer, record_refusal, record_timeout, settle_within,
  settle_over, settle_refusal, settle_timeout, recycle, Leave, leave_named, leave_assigned,
  leave_prepared, leave_waiting, leave_received, leave_recorded, leave_refusal, leave_timeout,
  leave_recycle,
}

get-contains_key :
    (name : Text) (p : SharedPool) (ps : List (Text × SharedPool))
    → get name ps ≡ some p
    → contains_key name ps ≡ true
unfolding get contains_key
get-contains_key name p [] e = absurd (ground (arith, e))
get-contains_key name p ((n, q) ∷ ps) e = elim (Bool-cases (text_eq n name)) [
  | inl same ↦ rw same refl
  | inr other ↦ rw other (get-contains_key name p ps (rw other at e))
]

-- A pool that is put back under its name leaves the names.
put_back-names :
    (name key : Text) (p q : SharedPool) (ps : List (Text × SharedPool))
    → get name ps ≡ some p
    → contains_key key (insert name q ps) ≡ contains_key key ps
put_back-names name key p q ps e =
    ground
      (arith, contains_key-insert name key q ps, text_eq_iff name key, get-contains_key name p ps e)

-- A step leaves the routing table and the names of the pools.
pub record Keeps (m m' : Shared) : Type 0 where
  pub table : m'.pool_manager.routing_table ≡ m.pool_manager.routing_table
  pub names :
      (key : Text) → contains_key key m'.pool_manager.pools ≡ contains_key key m.pool_manager.pools

pub same-Keeps : {m m' : Shared} → m'.pool_manager ≡ m.pool_manager → Keeps m m'
same-Keeps e = record {
  table = ap (λ pm. pm.routing_table) e;
  names = λ key. ap (λ pm. contains_key key pm.pools) e;
}

pub put_pool-Keeps :
    (m : Shared) (name : Text) (p q : SharedPool)
    → get_pool m.pool_manager name ≡ some p
    → Keeps m (put_pool m name q)
unfolding get_pool
put_pool-Keeps m name p q there = record {
  table = refl;
  names = λ key. put_back-names name key p q m.pool_manager.pools there;
}

pub Move-Keeps : {m m' : Shared} {p q : Pc} → Move m p m' q → Keeps m m'
Move-Keeps {m} (choose locked p i k {name} there chosen at) = put_pool-Keeps m name p _ there
Move-Keeps turn_away = same-Keeps refl
Move-Keeps (route path headers name e) = same-Keeps refl
Move-Keeps (ensure os e) = same-Keeps refl
Move-Keeps (ensure_fails os e f) = same-Keeps refl
Move-Keeps unreadable = same-Keeps refl
Move-Keeps take = same-Keeps refl
Move-Keeps (receive sent) = same-Keeps refl
Move-Keeps record_answer = same-Keeps refl
Move-Keeps record_refusal = same-Keeps refl
Move-Keeps record_timeout = same-Keeps refl
Move-Keeps (settle_within os e) = same-Keeps refl
Move-Keeps (settle_over os reason e) = same-Keeps refl
Move-Keeps (settle_refusal os) = same-Keeps refl
Move-Keeps (settle_timeout os) = same-Keeps refl
Move-Keeps (recycle os) = same-Keeps refl

-- A request that has the name of a pool has the name of one that is there.
abbrev pub IsNamed : PoolManager SharedPool → Pc → Type 0
IsNamed pm (named name) = contains_key name pm.pools ≡ true
IsNamed pm arrived = Unit {0}
IsNamed pm (assigned i k c) = Unit {0}
IsNamed pm (prepared i k c) = Unit {0}
IsNamed pm (waiting i k c) = Unit {0}
IsNamed pm (received i k c sent) = Unit {0}
IsNamed pm (recorded k c sent) = Unit {0}
IsNamed pm (over_limit k c) = Unit {0}
IsNamed pm (finished e) = Unit {0}
IsNamed pm (abandoned k e) = Unit {0}

pub IsNamed-Keeps :
    {m m' : Shared} → Keeps m m' → (p : Pc) → IsNamed m.pool_manager p → IsNamed m'.pool_manager p
IsNamed-Keeps keeps (named name) h = keeps.names name ∙ h
IsNamed-Keeps keeps arrived h = tt
IsNamed-Keeps keeps (assigned i k c) h = tt
IsNamed-Keeps keeps (prepared i k c) h = tt
IsNamed-Keeps keeps (waiting i k c) h = tt
IsNamed-Keeps keeps (received i k c sent) h = tt
IsNamed-Keeps keeps (recorded k c sent) h = tt
IsNamed-Keeps keeps (over_limit k c) h = tt
IsNamed-Keeps keeps (finished e) h = tt
IsNamed-Keeps keeps (abandoned k e) h = tt

pub Move-IsNamed :
    {m m' : Shared} {p q : Pc} → Move m p m' q → IsRouted m.pool_manager → IsNamed m.pool_manager q
unfolding get_pool
Move-IsNamed {m} (route path headers name e) routed =
    let (p, there) = get_pool-IsRouted m.pool_manager path headers name routed e in
    get-contains_key name p m.pool_manager.pools there
Move-IsNamed turn_away routed = tt
Move-IsNamed (choose locked p i k there chosen at) routed = tt
Move-IsNamed (ensure os e) routed = tt
Move-IsNamed (ensure_fails os e f) routed = tt
Move-IsNamed unreadable routed = tt
Move-IsNamed take routed = tt
Move-IsNamed (receive sent) routed = tt
Move-IsNamed record_answer routed = tt
Move-IsNamed record_refusal routed = tt
Move-IsNamed record_timeout routed = tt
Move-IsNamed (settle_within os e) routed = tt
Move-IsNamed (settle_over os reason e) routed = tt
Move-IsNamed (settle_refusal os) routed = tt
Move-IsNamed (settle_timeout os) routed = tt
Move-IsNamed (recycle os) routed = tt

pub Leave-IsNamed : {m m' : Shared} {p q : Pc} → Leave m p m' q → IsNamed m.pool_manager q
Leave-IsNamed leave_named = tt
Leave-IsNamed (leave_assigned checked cut) = tt
Leave-IsNamed leave_prepared = tt
Leave-IsNamed leave_waiting = tt
Leave-IsNamed leave_received = tt
Leave-IsNamed leave_recorded = tt
Leave-IsNamed (leave_refusal checked cut) = tt
Leave-IsNamed (leave_timeout cut) = tt
Leave-IsNamed (leave_recycle cut) = tt

pub IsRouted-Keeps :
    {m m' : Shared} → Keeps m m' → IsRouted m.pool_manager → IsRouted m'.pool_manager
IsRouted-Keeps {m} {m'} keeps h =
    subst
      (λ rs. All (λ (r : RoutingRule). contains_key r.pool_name m'.pool_manager.pools ≡ true) rs)
      (sym keeps.table)
      (IsRouted-names m.pool_manager.pools m'.pool_manager.pools keeps.names
        m.pool_manager.routing_table h)
