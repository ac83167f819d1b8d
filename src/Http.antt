-- ===== src/Http.antt =====
-- What the handlers share of HTTP: a response as its status, its headers in the order they were
-- added, and its body; the headers of a request by `get`, the inner `none` for a value that is not
-- visible ASCII.
use bakpia_run.Prelude.{ℕ, Option, List, [], ◌∷◌, ◌++◌}
use bakpia_run.Text.{Text}

pub record Response : Type 0 where
  pub status : ℕ
  pub headers : List (Text × Text)
  pub body : Text

abbrev pub Headers : Type 0
Headers = Text → Option (Option Text)

abbrev pub plain : ℕ → Text → Response
plain status body = record { status = status; headers = []; body = body }

-- `builder.header(name, value)`
abbrev pub header : Text → Text → List (Text × Text) → List (Text × Text)
header name value hs = hs ++ ((name, value) ∷ [])
