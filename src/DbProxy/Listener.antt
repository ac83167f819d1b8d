-- ===== src/DbProxy/Listener.antt =====
-- src-server/src/db_proxy/mod.rs: the start of the proxy and the loop that accepts clients. What the
-- mysql_async library and the host answer is an argument; a client is served by
-- `DbProxy.Session.handle_client`.
pub mod Local
use bakpia_run.Prelude.{
  ℕ, ◌≡◌, refl, sym, ap, ◌∙◌, ◌⊎◌, inl, inr, arith, Bool, true, false, Bool-cases, ◌&&◌, not,
  Option, none, some, Option-cases, List, [], ◌∷◌, ◌++◌, if◌then◌else◌,
}
use bakpia_run.Text.{Text, codes, text_eq}
use bakpia_run.Text.Matching.{text_eq_iff}
use bakpia_run.Text.Decimal.{decimal, address}
use bakpia_run.Config.{Config, DbProxyConfig, DbTargetConfig}

unfoldable pub url : DbTargetConfig → Text
url t =
    codes "mysql://"
    ++ t.username
    ++ codes ":"
    ++ t.password
    ++ codes "@"
    ++ t.host
    ++ codes ":"
    ++ decimal t.port
    ++ codes "/"
    ++ t.database

-- A connection to the database: none, one without an answer to `SELECT VERSION()`, or the answer.
pub data Backend : Type 0 where
  unreachable silent : Backend
  answers : Text → Backend

unfoldable pub server_version : DbProxyConfig → Backend → Text
server_version c unreachable = c.spoof_version
server_version c silent = c.spoof_version
server_version c (answers real_version) = real_version ++ codes "-bakpiarun-proxy"

-- What `accept` answers: a client and whether its address is a loopback address, or an error.
pub data Accepted : Type 0 where
  client : Text → Bool → Accepted
  accept_error : Text → Accepted

-- The clients served, and the error that the loop ends in, if it does.
pub record Served : Type 0 where
  pub clients : List Text
  pub error : Option Text

unfoldable pub accept_loop : List Accepted → Served
accept_loop [] = record { clients = []; error = none }
accept_loop (accept_error e ∷ rest) = record { clients = []; error = some e }
accept_loop (client addr is_loopback ∷ rest) =
    let later = accept_loop rest in
    if is_loopback then record later { clients = addr ∷ later.clients } else later

pub data Started : Type 0 where
  disabled : Started
  failed : Text → Started
  listening : Text → Text → Served → Started

-- `from_url` and `bind` answer with an error or succeed.
unfoldable pub start :
    (Text → Option Text) → Backend → (Text → Option Text) → List Accepted → Config → Started
start from_url backend bind accepts config =
    let db = config.db_proxy in
    let addr = address db.listen_address db.listen_port in
    if not db.enabled
    then disabled
    else if not (text_eq db.listen_address (codes "127.0.0.1"))
        && not (text_eq db.listen_address (codes "localhost"))
    then failed (codes "SECURITY ERROR: DB Proxy MUST bind to 127.0.0.1!")
    else elim (from_url (url db.target)) [
      | some e ↦ failed e
      | none ↦ elim (bind addr) [
        | some e ↦ failed e
        | none ↦ listening addr (server_version db backend) (accept_loop accepts)
      ]
    ]
