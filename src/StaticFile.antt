-- ===== src/StaticFile.antt =====
-- src-server/src/static_file.rs: which requests are for files, and the files they get. The file
-- system, and the text of a date, are parameters. Paths are those of Unix, and valid UTF-8.
pub mod Mime
pub mod Access
pub mod Finding
use bakpia_run.Prelude.{
  ℕ, Bool, true, false, ◌&&◌, ◌||◌, not, Option, none, some, List, [], ◌∷◌, ◌++◌, ◌==◌,
  if◌then◌else◌, any, ◌>>=◌,
}
use bakpia_run.Text.{Text, codes, text_eq, is_empty, to_lowercase, starts_with, ends_with}
use bakpia_run.Text.Decimal.{decimal}
use bakpia_run.Text.Splitting.{split, rsplit_once, contains, trim_start_matches}
use bakpia_run.Http.{Response, plain}

-- The arms of the match, each with its patterns.
abbrev pub mime_types : List (List Text × Text)
mime_types =
    (codes "html" ∷ codes "htm" ∷ [], codes "text/html; charset=utf-8")
    ∷ (codes "css" ∷ [], codes "text/css; charset=utf-8")
    ∷ (codes "js" ∷ codes "mjs" ∷ [], codes "application/javascript; charset=utf-8")
    ∷ (codes "json" ∷ [], codes "application/json; charset=utf-8")
    ∷ (codes "xml" ∷ [], codes "application/xml; charset=utf-8")
    ∷ (codes "txt" ∷ [], codes "text/plain; charset=utf-8")
    ∷ (codes "png" ∷ [], codes "image/png")
    ∷ (codes "jpg" ∷ codes "jpeg" ∷ [], codes "image/jpeg")
    ∷ (codes "gif" ∷ [], codes "image/gif")
    ∷ (codes "svg" ∷ [], codes "image/svg+xml")
    ∷ (codes "webp" ∷ [], codes "image/webp")
    ∷ (codes "ico" ∷ [], codes "image/x-icon")
    ∷ (codes "woff" ∷ [], codes "font/woff")
    ∷ (codes "woff2" ∷ [], codes "font/woff2")
    ∷ (codes "ttf" ∷ [], codes "font/ttf")
    ∷ (codes "otf" ∷ [], codes "font/otf")
    ∷ (codes "eot" ∷ [], codes "application/vnd.ms-fontobject")
    ∷ (codes "mp3" ∷ [], codes "audio/mpeg")
    ∷ (codes "mp4" ∷ [], codes "video/mp4")
    ∷ (codes "webm" ∷ [], codes "video/webm")
    ∷ (codes "ogg" ∷ [], codes "audio/ogg")
    ∷ (codes "wav" ∷ [], codes "audio/wav")
    ∷ (codes "pdf" ∷ [], codes "application/pdf")
    ∷ (codes "zip" ∷ [], codes "application/zip")
    ∷ (codes "gz" ∷ codes "gzip" ∷ [], codes "application/gzip")
    ∷ (codes "wasm" ∷ [], codes "application/wasm")
    ∷ (codes "map" ∷ [], codes "application/json")
    ∷ []

abbrev pub octet_stream : Text
octet_stream = codes "application/octet-stream"

pub first_arm : List (List Text × Text) → Text → Text
unfolding text_eq
first_arm [] e = octet_stream
first_arm ((patterns, mime) ∷ arms) e =
    let rest = first_arm arms e in if any (text_eq e) patterns then mime else rest

unfoldable pub get_mime_type : Text → Text
unfolding first_arm
get_mime_type extension = first_arm mime_types (to_lowercase extension)

abbrev pub static_extensions : List Text
static_extensions =
    codes "css"
    ∷ codes "js"
    ∷ codes "mjs"
    ∷ codes "json"
    ∷ codes "xml"
    ∷ codes "txt"
    ∷ codes "png"
    ∷ codes "jpg"
    ∷ codes "jpeg"
    ∷ codes "gif"
    ∷ codes "svg"
    ∷ codes "webp"
    ∷ codes "ico"
    ∷ codes "woff"
    ∷ codes "woff2"
    ∷ codes "ttf"
    ∷ codes "otf"
    ∷ codes "eot"
    ∷ codes "mp3"
    ∷ codes "mp4"
    ∷ codes "webm"
    ∷ codes "ogg"
    ∷ codes "wav"
    ∷ codes "pdf"
    ∷ codes "zip"
    ∷ codes "gz"
    ∷ codes "wasm"
    ∷ codes "map"
    ∷ codes "html"
    ∷ codes "htm"
    ∷ []

-- Of `std::path`: the last component that is a name, with what stands before it.
go_names : Text → List Text → Option (Text × Text) → Option (Text × Text)
unfolding is_empty text_eq
go_names before [] best = best
go_names before (p ∷ ps) best =
    go_names (before ++ (p ++ codes "/")) ps
      (if is_empty p || text_eq p (codes ".") then best else some (before, p))

pub split_name : Text → Option (Text × Text)
unfolding split go_names
split_name path = go_names [] (split b'/' path) none

-- `file_name`, with what stands before it; a path that ends in `..` has none.
pub file_name : Text → Option (Text × Text)
unfolding split_name text_eq
file_name path = do
  (before, name) ← split_name path
  if text_eq name (codes "..") then none else some (before, name)

-- The stem and the extension of a file name; a dot in front begins no extension.
pub stem_and_extension : Text → Text × Option Text
unfolding rsplit_once
stem_and_extension name = elim (rsplit_once b'.' name) [
  | none ↦ (name, none)
  | some (stem, extension) ↦ if is_empty stem then (name, none) else (stem, some extension)
]

-- `path.extension().unwrap_or("")`
pub extension_of : Text → Text
unfolding file_name stem_and_extension
extension_of path = elim (file_name path) [
  | none ↦ []
  | some (before, name) ↦ elim (stem_and_extension name).1 [ none ↦ [] | some e ↦ e ]
]

unfoldable pub is_static_file : Text → Bool
unfolding extension_of text_eq to_lowercase
is_static_file path = any (text_eq (to_lowercase (extension_of path))) static_extensions

pub record Metadata : Type 0 where
  pub len : ℕ
  pub modified_secs : ℕ
  pub last_modified : Text

-- The file system: a name may be there and not be a file, and a file may not be readable.
pub record Files : Type 0 where
  pub exists : Text → Bool
  pub is_file : Text → Bool
  pub read : Text → Option Text
  pub metadata : Text → Option Metadata

abbrev pub clean : Text → Text
clean uri = trim_start_matches b'/' uri

-- `none` is a panic: the file went away after it was read.
unfoldable pub serve_static_file : Files → Text → Text → ℕ → Option Response
unfolding contains trim_start_matches
serve_static_file fs docroot uri cache_max_age =
    let path = docroot ++ (codes "/" ++ clean uri) in
    if contains (clean uri) (codes "..")
    then some (plain 403 (codes "403 Forbidden"))
    else if not (fs.exists path) || not (fs.is_file path)
    then some (plain 404 (codes "404 Not Found"))
    else elim (fs.read path) [
      | none ↦ some (plain 500 (codes "500 Internal Server Error"))
      | some content ↦ elim (fs.metadata path) [
        | none ↦ none
        | some m ↦ some (record {
          status = 200;
          headers =
              (codes "content-type", get_mime_type (extension_of path))
              ∷ (codes "cache-control", codes "public, max-age=" ++ decimal cache_max_age)
              ∷ (
                codes "etag",
                codes "\""
                    ++ (decimal m.len ++ (codes "-" ++ (decimal m.modified_secs ++ codes "\""))),
              )
              ∷ (codes "last-modified", m.last_modified)
              ∷ [];
          body = content;
        })
      ]
    ]

-- `path.join(p)` for a relative `p`
unfoldable pub join : Text → Text → Text
unfolding is_empty ends_with
join path p =
    if is_empty path || ends_with path (codes "/") then path ++ p else path ++ (codes "/" ++ p)

-- `path.with_extension(e)`
unfoldable pub with_extension : Text → Text → Text
unfolding file_name stem_and_extension
with_extension path e = elim (file_name path) [
  | none ↦ path
  | some (before, name) ↦ before ++ ((stem_and_extension name).0 ++ (codes "." ++ e))
]

-- `parent` of a path from what stands before its file name
unfoldable pub parent_of : Text → Text
unfolding split_name starts_with
parent_of before = elim (split_name before) [
  | some (b, name) ↦ b ++ name
  | none ↦
      if starts_with before (codes "/")
      then codes "/"
      else if is_empty before
      then []
      else codes "."
]

abbrev pub present : Files → Text → Bool
present fs path = fs.exists path && fs.is_file path

-- The first of these that is a file.
pub first_file : Files → List Text → Option Text
first_file fs [] = none
first_file fs (p ∷ ps) = let rest = first_file fs ps in if present fs p then some p else rest

-- The paths that `find_php_file` tries, in its order.
unfoldable pub candidates : Text → List Text
unfolding file_name join with_extension parent_of
candidates path =
    path
    ∷ with_extension path (codes "php")
    ∷ join path (codes "index.php")
    ∷ elim (file_name path) [
      | none ↦ []
      | some (before, name) ↦ with_extension (join (parent_of before) name) (codes "php") ∷ []
    ]

unfoldable pub find_php_file : Files → Text → Text → Option Text
unfolding contains trim_start_matches first_file
find_php_file fs docroot uri =
    if contains (clean uri) (codes "..")
    then none
    else first_file fs (candidates (join docroot (clean uri)))
