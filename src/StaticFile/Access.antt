-- ===== src/StaticFile/Access.antt =====
-- The files that requests get.
use bakpia_run.Prelude.{
  ℕ, ◌≡◌, refl, inl, inr, true, false, none, some, [], ◌∷◌, ◌++◌, arith, Bool-cases, All, ◌==◌,
}
use bakpia_run.Text.{Text, codes, text_eq, is_empty, ends_with}
use mathlib.Core.Path.{subst}
use bakpia_run.Text.Matching.{ends_with_split}
use bakpia_run.Text.Splitting.{contains, trim_start_matches, split, rsplit_once}
use bakpia_run.Http.{Response}
use bakpia_run.StaticFile.{
  Files, clean, present, serve_static_file, first_file, candidates, join, find_php_file,
  with_extension, file_name, split_name, stem_and_extension, go_names,
}

abbrev pub served_path : Text → Text → Text
served_path docroot uri = docroot ++ (codes "/" ++ clean uri)

-- A response with status 200 has the content of the file that the path names below the document
-- root, and the path has no `..` in it.
pub serve_static_file_ok :
    (fs : Files) (docroot uri : Text) (age : ℕ) (r : Response)
    → serve_static_file fs docroot uri age ≡ some r
    → r.status ≡ 200
    → (contains (clean uri) (codes "..") ≡ false)
      × (fs.is_file (served_path docroot uri) ≡ true)
      × (fs.read (served_path docroot uri) ≡ some r.body)
unfolding serve_static_file
serve_static_file_ok fs docroot uri age r h ok = ground (arith, h, ok)

pub split-append :
    (sep : ℕ) (d s : Text)
    → All (λ c. (c == sep) ≡ false) d
    → split sep (d ++ (sep ∷ s)) ≡ d ∷ split sep s
unfolding split
split-append sep [] s h = ground arith
split-append sep (c ∷ d) s (k, h) = rw (k, split-append sep d s h) refl

pub rsplit_once-none :
    (sep : ℕ) (d : Text) → All (λ c. (c == sep) ≡ false) d → rsplit_once sep d ≡ none
unfolding rsplit_once
rsplit_once-none sep [] h = refl
rsplit_once-none sep (c ∷ d) (k, h) = rw (rsplit_once-none sep d h, rsplit_once) (rw k)

All-last : (P : ℕ → Type 0) (r : Text) (x : ℕ) → All P (r ++ (x ∷ [])) → P x
All-last P [] x h = h.0
All-last P (y ∷ r) x h = All-last P r x h.1

-- A name without a slash, as a directory.
join-name :
    (c : ℕ) (d : Text)
    → All (λ b. (b == b'/') ≡ false) (c ∷ d)
    → join (c ∷ d) [] ≡ (c ∷ d) ++ codes "/"
unfolding join is_empty
join-name c d h = elim (Bool-cases (ends_with (c ∷ d) (codes "/"))) [
  | inr e ↦ rw e refl
  | inl e ↦
      let (r, split) = ends_with_split (c ∷ d) (codes "/") e in
      let there : All (λ b. (b == b'/') ≡ false) (r ++ codes "/") =
        subst (All (λ (b : ℕ). (b == b'/') ≡ false)) split h in
      absurd (ground (arith, All-last (λ b. (b == b'/') ≡ false) r b'/' there))
]

-- Neither `.` nor `..`.
no_dots : (c : ℕ) (d t : Text) → (c == b'.') ≡ false → text_eq (c ∷ d) (b'.' ∷ t) ≡ false
unfolding text_eq
no_dots c d t h = ground (arith, h)

pub file_name-directory :
    (c : ℕ) (d : Text)
    → All (λ b. (b == b'/') ≡ false) (c ∷ d)
    → (c == b'.') ≡ false
    → file_name ((c ∷ d) ++ codes "/") ≡ some ([], c ∷ d)
unfolding file_name split_name go_names is_empty
file_name-directory c d slash dot =
    rw (split-append b'/' (c ∷ d) [] slash, split_name) (ground (arith, dot))

-- The request for the root of the site is answered with a PHP file next to the document root, not in
-- it, when there is one with the name of that directory: with a document root without a slash and
-- without a dot, `find_php_file` of `/` gives that name with `.php` behind it.
pub find_php_file_outside :
    (fs : Files) (c : ℕ) (d : Text)
    → All (λ b. (b == b'/') ≡ false) (c ∷ d)
    → All (λ b. (b == b'.') ≡ false) (c ∷ d)
    → present fs ((c ∷ d) ++ codes "/") ≡ false
    → present fs ((c ∷ d) ++ codes ".php") ≡ true
    → find_php_file fs (c ∷ d) (codes "/") ≡ some ((c ∷ d) ++ codes ".php")
unfolding find_php_file trim_start_matches contains candidates with_extension stem_and_extension
    first_file
find_php_file_outside fs c d slash dot dir php = rw (join-name c d slash) (
    rw (file_name-directory c d slash dot.0, with_extension)
      (rw (rsplit_once-none b'.' (c ∷ d) dot, stem_and_extension) (rw dir (rw php refl))))
