-- ===== src/Handler/Request.antt =====
-- src-server/src/handlers.rs: what `php_handler` reads out of the request's headers and body, and what
-- it sends to PHP (src-server/src/types.rs). The decoding of percent signs is a parameter.
use bakpia_run.Prelude.{ℕ, Option, none, some, List, [], ◌∷◌, if◌then◌else◌, length, drop}
use bakpia_run.Prelude.Maps.{get, insert}
use bakpia_run.Text.{Text, codes, starts_with, trim}
use bakpia_run.Text.Matching.{text_keys}
use bakpia_run.Text.Splitting.{split, split_once, trim_start_matches, trim_end_matches}
use bakpia_run.Config.{or_else}
use bakpia_run.Routing.{HeaderMap}

pub record FileInfo : Type 0 where
  pub name : Text
  pub content_type : Text
  pub size : ℕ
  pub tmp_path : Text

pub record PhpRequest : Type 0 where
  pub method : Text
  pub uri : Text
  pub file_path : Text
  pub query_string : Text
  pub query_params : List (Text × Text)
  pub post_params : List (Text × Text)
  pub cookies : List (Text × Text)
  pub headers : List (Text × Text)
  pub body : Text
  pub content_type : Text
  pub content_length : Text
  pub files : List (Text × List FileInfo)

pub record PhpResponse : Type 0 where
  pub status : ℕ
  pub body : Text
  pub memory : ℕ
  pub peak : ℕ
  pub headers : List (Text × Text)

-- The address of the client as the headers name it, or that of the connection.
unfoldable pub client_ip : HeaderMap → Text → Text
unfolding get
client_ip headers addr = elim (get (codes "x-forwarded-for") headers) [
  | some forwarded ↦ or_else forwarded (codes "unknown")
  | none ↦ elim (get (codes "x-real-ip") headers) [
    | some real_ip ↦ or_else real_ip (codes "unknown")
    | none ↦ addr
  ]
]

-- The headers with visible values; of several with one name, the last.
pub header_map : HeaderMap → List (Text × Text) → List (Text × Text)
unfolding insert
header_map [] m = m
header_map ((key, none) ∷ hs) m = header_map hs m
header_map ((key, some v) ∷ hs) m = header_map hs (insert key v m)

pub add_cookies : List Text → List (Text × Text) → List (Text × Text)
unfolding split_once trim insert
add_cookies [] m = m
add_cookies (c ∷ cs) m = elim (split_once b'=' (trim c)) [
  | none ↦ add_cookies cs m
  | some (name, value) ↦ add_cookies cs (insert name value m)
]

unfoldable pub cookies_of : HeaderMap → List (Text × Text)
unfolding get split add_cookies
cookies_of headers = elim (get (codes "cookie") headers) [
  | none ↦ []
  | some none ↦ []
  | some (some s) ↦ add_cookies (split b';' s) []
]

unfoldable pub content_type_of : HeaderMap → Text
unfolding get
content_type_of headers = or_else (or_else (get (codes "content-type") headers) none) []

pub add_pairs : (Text → Option Text) → List Text → List (Text × Text) → List (Text × Text)
unfolding split_once insert
add_pairs decode [] m = m
add_pairs decode (p ∷ ps) m = elim (split_once b'=' p) [
  | none ↦ add_pairs decode ps m
  | some (k, v) ↦ elim (decode k) [
    | none ↦ add_pairs decode ps m
    | some key ↦ elim (decode v) [
      | none ↦ add_pairs decode ps m
      | some value ↦ add_pairs decode ps (insert key value m)
    ]
  ]
]

-- The parameters of a form in the body.
unfoldable pub form_params : (Text → Option Text) → Text → List (Text × Text)
unfolding split add_pairs
form_params decode body = add_pairs decode (split b'&' body) []

-- What stands before the first `t` in a text, and behind it.
unfoldable pub split_text : Text → Text → Option (Text × Text)
unfolding starts_with
split_text t [] = none
split_text t (c ∷ s) =
    let rest = split_text t s in
    if starts_with (c ∷ s) t
    then some ([], drop (length t) (c ∷ s))
    else elim rest [ none ↦ none | some (a, b) ↦ some (c ∷ a, b) ]

-- `content_type.split("boundary=").nth(1)`, trimmed, without quotes around it, or nothing.
unfoldable pub boundary_of : Text → Text
unfolding split_text trim trim_start_matches trim_end_matches
boundary_of content_type = elim (split_text (codes "boundary=") content_type) [
  | none ↦ []
  | some (before, rest) ↦
      let piece : Text = elim (split_text (codes "boundary=") rest) [
        | none ↦ rest
        | some (b, more) ↦ b
      ] in
      trim_end_matches b'"' (trim_start_matches b'"' (trim piece))
]
