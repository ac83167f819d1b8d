-- ===== src/Worker/Command.antt =====
-- src-server/src/worker.rs: the command that starts a PHP worker. The text of the time limit in seconds,
-- an `f64`, is an argument.
use bakpia_run.Prelude.{◌≡◌, refl, Option, none, some, List, [], ◌∷◌, ◌++◌, if◌then◌else◌, ap}
use bakpia_run.Text.{Text, codes, text_eq, is_empty, trim}
use bakpia_run.Text.Decimal.{decimal}
use bakpia_run.Text.Splitting.{rsplit_once}
use bakpia_run.Config.{Config, or_else}
use bakpia_run.Worker.{Worker}

pub record Command : Type 0 where
  pub program : Text
  pub args : List Text
  pub current_dir : Text
  pub envs : List (Text × Text)

-- `Path::parent`, of a path without empty parts.
unfoldable pub parent : Text → Option Text
parent path = elim (rsplit_once b'/' path) [
  | none ↦ if is_empty path then none else some []
  | some (dir, name) ↦ some (if is_empty dir then codes "/" else dir)
]

unfoldable pub worker_dir : Config → Text
worker_dir c = or_else (parent c.php.worker_path) c.php.docroot

abbrev pub open_basedir : Config → Text
open_basedir c =
    c.php.docroot
    ++ codes ":"
    ++ worker_dir c
    ++ codes ":"
    ++ c.socket_directory
    ++ codes ":"
    ++ c.php.upload_tmp_dir
    ++ codes ":/tmp"

-- The settings that are given with `-d`.
unfoldable pub settings : Config → List Text
settings c =
    codes "allow_url_include=0"
    ∷ ((if is_empty (trim c.php.disable_functions)
          then []
          else (codes "disable_functions=" ++ c.php.disable_functions) ∷ [])
        ++ (if c.php.open_basedir_docroot
            then (codes "open_basedir=" ++ open_basedir c) ∷ []
            else []))

abbrev pub flags : List Text → List Text
flags [] = []
flags (s ∷ ss) = codes "-d" ∷ s ∷ flags ss

unfoldable pub connect_host : Config → Text
connect_host c =
    if text_eq c.server.host (codes "0.0.0.0") then codes "127.0.0.1" else c.server.host

abbrev pub token_envs : Option Text → List (Text × Text)
token_envs none = []
token_envs (some token) = (codes "BAKPIARUN_ADMIN_TOKEN", token) ∷ []

unfoldable pub command : Text → Config → Worker → Command
command timeout_sec c w = record {
  program = c.php.binary_path;
  args = flags (settings c) ++ (c.php.worker_path ∷ []);
  current_dir = c.php.docroot;
  envs =
      (codes "BAKPIARUN_SOCKET_PATH", w.socket_path)
      ∷ (codes "BAKPIARUN_TIMEOUT_SEC", timeout_sec)
      ∷ (codes "BAKPIARUN_MAX_PAYLOAD_MB", decimal c.php.max_payload_mb)
      ∷ (codes "BAKPIARUN_SERVER_HOST", c.server.host)
      ∷ (codes "BAKPIARUN_SERVER_PORT", decimal c.server.port)
      ∷ (
        codes "BAKPIARUN_BASE_URL",
        codes "http://" ++ connect_host c ++ codes ":" ++ decimal c.server.port,
      )
      ∷ token_envs c.server.admin_token;
}

-- The settings that PHP reads from a command line: those after `-d`, up to the script.
abbrev pub read_settings : List Text → List Text × List Text
read_settings [] = ([], [])
read_settings (a ∷ []) = ([], a ∷ [])
read_settings (a ∷ b ∷ rest) =
    let (ss, script) = read_settings rest in
    if text_eq a (codes "-d") then (b ∷ ss, script) else ([], a ∷ b ∷ rest)

-- PHP reads back the settings, and the worker's script with nothing behind it.
command-settings :
    (timeout_sec : Text) (c : Config) (w : Worker)
    → read_settings (command timeout_sec c w).args ≡ (settings c, c.php.worker_path ∷ [])
unfolding command text_eq
command-settings timeout_sec c w = read (settings c)
  where
    read :
        (ss : List Text)
        → read_settings (flags ss ++ (c.php.worker_path ∷ [])) ≡ (ss, c.php.worker_path ∷ [])
    read [] = refl
    read (s ∷ ss) = ap (λ r. (s ∷ r.0, r.1)) (read ss)
