-- ===== src/Lib.antt =====
-- bakpiaRun is an application server for PHP: an HTTP server in Rust (src-server/) that routes
-- each request to a pool of PHP worker processes, supervises those workers, runs background jobs,
-- and offers a proxy that speaks the MySQL protocol in front of a database.
--
-- The parts, and the files that model them:
-- - Prelude, with Tests, Lists, Seq and Maps below it: shared notation, lists, and association
--   lists for `HashMap`. Text, with Matching, Decimal and Utf8: strings as lists of bytes, with
--   what the code uses of Rust's `str`; case and white space are those of ASCII.
-- - Config: src-server/src/config.rs. The records, the defaults, `apply_env_overrides`,
--   `get_worker_socket_path` and `validate`. Config.Sections has the defaults of single fields.
--   Config.Checks and Config.Sockets are about them. The socket section is the field
--   `socket_directory`.
-- - Routing: src-server/src/pool_manager.rs. `PoolManager` with its routing table, built by `new`
--   and rebuilt by `update_routing_table`; `match_pattern`, `match_headers` and
--   `get_pool_name_for_request`. Routing.Patterns, Choice, Starting and Making are about them.
-- - Worker: src-server/src/worker.rs, and the memory record of src-server/src/anti_oom.rs. Each
--   method takes what the operating system answers and gives the worker afterwards, the error and
--   the time slept. Worker.Command is the command that starts PHP. Worker.Lifecycle, Thresholds,
--   Waiting, Replacing and Activity are about it.
-- - WorkerPool: src-server/src/worker_pool.rs. `get_next_worker` takes which workers others have
--   locked at each attempt. WorkerPool.Choice, Turns, Starting and Invariant are about it.
-- - Queue: src-server/src/queue.rs, the registry of src-server/src/job_handlers/mod.rs, and the
--   queue loop of src-server/src/main.rs as `round`. Queue.Progress is about it. Queue.Handlers
--   has the handlers of src-server/src/job_handlers/email.rs and report.rs.
-- - RateLimiter: src-server/src/rate_limiter.rs, over an abstract `f64`; the theorem that needs
--   arithmetic assumes that `f64` is exact on the values of a `u32`. RateLimiter.Burst is about
--   it.
-- - DbProxy: src-server/src/db_proxy/mod.rs. Packet and Rows build packets, Packet.Framing reads
--   frames, Params parses the parameters of COM_STMT_EXECUTE, Substitute puts them into the query,
--   and Session has the handlers of the commands and the loop.
-- - Ipc: src-server/src/ipc.rs. The frames to and from a PHP worker and the errors of an exchange.
--   Ipc.Frames is about the frames and Ipc.Exchange about an exchange.
-- - StaticFile: src-server/src/static_file.rs, over a file system that is a parameter.
--   StaticFile.Mime, Finding and Access are about it. Http has responses and headers, and
--   Text.Splitting the splitting of strings.
-- - Security: src-server/src/security.rs. Metrics, with Metrics.Counting:
--   src-server/src/metrics.rs. AdminAuth: src-server/src/middleware/admin_auth.rs. Float: the
--   operations of `f64` that the limiter and the monitor use.
-- - AntiOom: src-server/src/anti_oom.rs. `parse_kb_line`, the readers of /proc and of the cgroups,
--   and `monitor_round`, one pass of the monitor's loop. AntiOom.Round and AntiOom.Heaviest are
--   about it.
-- - App: the shared state of src-server/src/types.rs. App.Pools and App.Serving are about changes
--   of its pools; App.Reload has `reload_handler` and the reload on SIGHUP, with Outcome and Ready
--   about them.
-- - Handler: src-server/src/handlers.rs. Request and Upload read the headers and the body; Php has
--   the parts of `php_handler` and Php.Flow their order; Health, Report and Jobs are the other
--   handlers. Upload.Cleanup, Php.Serving, Php.Answers and Health.Alive are about them.
-- - Interleaving: the steps of many requests at once, from src-server/src/handlers.rs,
--   worker_pool.rs, worker.rs and anti_oom.rs, with the workers in a store. Steps puts them
--   together; Counting, Counted, Routes, Choosing, Totals, Abandoned and Orphans are about the
--   states reached, Starting about the first of them; Worker.Lifecycle.Stuck is used there.
-- - Startup: src-server/src/main.rs, the start with the listeners and each way it ends, the routes
--   behind the authentication, and the shutdown. Startup.Outcome and Guarding are about it.
--   DbProxy.Listener, with Local, is `start` of src-server/src/db_proxy/mod.rs. Logger, with
--   Logger.Lines: src-server/src/logger.rs.
-- - Server: src-server/src/main.rs, the state at the start and the events that change it.
--   Server.Lifetime is about all of them together, Server.Shutdown about the end.
-- - Tests: the theorems on concrete data.
--
-- A request passes the limiter, is a static file or goes from the routing to a pool and from there
-- to a worker, which PHP's answer updates together with the metrics; a reload changes the
-- configuration, the routing table and the pools; the monitor recycles workers. These share one
-- state. The database proxy stands by itself.
--
-- In Server, requests, reloads and rounds of the monitor are taken one after the other, each as a
-- whole, and what other tasks hold locked during the choice of a worker is an argument.
-- Interleaving takes them in steps that mix in any order, with clients that leave, so that their
-- handlers are dropped where they wait; an operation on a worker is one step there, cut off or
-- not, and the locks on the pools allow any order.
--
-- Numbers are natural numbers, with the wrap of `u8`, `u16`, `u32` and `u64` written out, as in a
-- release build. A panic of an index, a slice or an `unwrap` is `none`. The fuel of the command
-- loop of the proxy is the length of its input, of which each frame takes four bytes at least. The
-- loops that wait for a socket or for requests in flight run as many rounds as the delay has
-- steps.
--
-- Not modelled: the parsing of the YAML file, the matching of paths by the HTTP library,
-- compression, TLS, printing, build.rs, and the PHP files. The libraries for JSON, multipart
-- bodies and HTTP headers, the database, the operating system, the clock, fresh ids, and the
-- arithmetic and the text of floating-point numbers are parameters.
-- src-server/src/db_proxy/mysql_protocol.rs is an old copy that no module declares.
pub mod Prelude
pub mod Text
pub mod Config
pub mod Routing
pub mod Worker
pub mod WorkerPool
pub mod Queue
pub mod Float
pub mod RateLimiter
pub mod DbProxy
pub mod Ipc
pub mod Http
pub mod Security
pub mod Metrics
pub mod AdminAuth
pub mod StaticFile
pub mod AntiOom
pub mod App
pub mod Handler
pub mod Interleaving
pub mod Server
pub mod Startup
pub mod Logger
pub mod Tests
