-- ===== src/Logger.antt =====
-- src-server/src/logger.rs: the access log and the error log. A file is the text that has been appended
-- through the log's handle since it was opened: where both logs have one path, that file holds what is
-- appended through both. The time stamp, whether a path opens, and how a write ends are arguments.
pub mod Lines
use bakpia_run.Prelude.{
  ℕ, Bool, true, false, ◌+◌, ◌-◌, ◌&&◌, Option, none, some, List, [], ◌∷◌, ◌++◌, map, leb, take,
  if◌then◌else◌,
}
use bakpia_run.Text.{Text, codes}
use bakpia_run.Text.Decimal.{decimal}

pub record Logger : Type 0 where
  pub access_enabled : Bool
  pub access_file : Option Text
  pub error_enabled : Bool
  pub error_file : Option Text

-- A log that is enabled is opened, or not there if that fails.
unfoldable pub open_log : (Text → Bool) → Bool → Text → Option Text
open_log opens enabled path = if enabled && opens path then some [] else none

unfoldable pub new : (Text → Bool) → Bool → Text → Bool → Text → Logger
new opens access_enabled access_path error_enabled error_path = record {
  access_enabled = access_enabled;
  access_file = open_log opens access_enabled access_path;
  error_enabled = error_enabled;
  error_file = open_log opens error_enabled error_path;
}

-- How `write_all` ends: with the whole line written, or with an error after some bytes of it.
pub data Write : Type 0 where
  complete : Write
  failed : ℕ → Write

abbrev pub written_of : Write → Text → Text
written_of complete line = line
written_of (failed n) line = take n line

-- `write_all` on a file that is there; an error is ignored.
unfoldable pub append : Write → Text → Option Text → Option Text
append write line none = none
append write line (some before) = some (before ++ written_of write line)

unfoldable pub access_line : Text → Text → Text → Text → ℕ → ℕ → Text
access_line timestamp ip method uri status duration_ms =
    codes "["
    ++ timestamp
    ++ codes "] "
    ++ ip
    ++ codes " "
    ++ method
    ++ codes " "
    ++ uri
    ++ codes " "
    ++ decimal status
    ++ codes " "
    ++ decimal duration_ms
    ++ codes "ms"

unfoldable pub log_access : Write → Text → Text → Text → Text → ℕ → ℕ → Logger → Logger
log_access write timestamp ip method uri status duration_ms l =
    if l.access_enabled
    then record l {
      access_file =
          append write (access_line timestamp ip method uri status duration_ms ++ codes "\n")
            l.access_file;
    }
    else l

unfoldable pub upper : ℕ → ℕ
upper c = if leb 97 c && leb c 122 then c - 32 else c

unfoldable pub to_uppercase : Text → Text
to_uppercase s = map upper s

unfoldable pub error_line : Text → Text → Text → Text
error_line timestamp level message =
    codes "[" ++ timestamp ++ codes "] [" ++ to_uppercase level ++ codes "] " ++ message

unfoldable pub log_error : Write → Text → Text → Text → Logger → Logger
log_error write timestamp level message l =
    if l.error_enabled
    then record l {
      error_file = append write (error_line timestamp level message ++ codes "\n") l.error_file;
    }
    else l

-- A call of the logger, by the handlers.
pub data Call : Type 0 where
  access : Write → Text → Text → Text → Text → ℕ → ℕ → Call
  error : Write → Text → Text → Text → Call

unfoldable pub after : Call → Logger → Logger
after (access write timestamp ip method uri status duration_ms) l =
    log_access write timestamp ip method uri status duration_ms l
after (error write timestamp level message) l = log_error write timestamp level message l

unfoldable pub history : List Call → Logger → Logger
history [] l = l
history (call ∷ calls) l = history calls (after call l)
