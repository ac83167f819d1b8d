-- ===== src/StaticFile/Finding.antt =====
-- src-server/src/static_file.rs: the PHP file that a request for a plain name gets.
use bakpia_run.Prelude.{
  ℕ, ◌≡◌, refl, ap, ◌∙◌, inl, inr, true, false, Bool, Option, none, some, [], ◌∷◌, ◌++◌, arith,
  Bool-cases, All, ◌==◌, if◌then◌else◌,
}
use bakpia_run.Text.{Text, codes, text_eq, is_empty, ends_with, starts_with}
use bakpia_run.Text.Matching.{ends_with_split}
use bakpia_run.Text.Splitting.{contains, trim_start_matches, split, push_first}
use bakpia_run.StaticFile.{
  Files, present, first_file, candidates, join, find_php_file, with_extension, file_name,
  split_name, stem_and_extension, go_names, parent_of,
}
use bakpia_run.StaticFile.Access.{split-append, rsplit_once-none}

abbrev pub Without : ℕ → Text → Type 0
Without sep t = All (λ b. (b == sep) ≡ false) t

split-plain : (sep : ℕ) (s : Text) → Without sep s → split sep s ≡ s ∷ []
unfolding split push_first
split-plain sep [] h = refl
split-plain sep (c ∷ s) (k, h) = rw (k, split-plain sep s h) refl

-- The last byte is a slash.
abbrev ends_slash : Text → Bool
ends_slash [] = false
ends_slash (c ∷ []) = c == b'/'
ends_slash (c ∷ x ∷ t) = ends_slash (x ∷ t)

ends_slash-append : (r : Text) (x : ℕ) (t : Text) → ends_slash (r ++ (x ∷ t)) ≡ ends_slash (x ∷ t)
ends_slash-append [] x t = refl
ends_slash-append (c ∷ []) x t = refl
ends_slash-append (c ∷ y ∷ r) x t = ends_slash-append (y ∷ r) x t

ends_slash-plain : (t : Text) → Without b'/' t → ends_slash t ≡ false
ends_slash-plain [] h = refl
ends_slash-plain (c ∷ []) h = h.0
ends_slash-plain (c ∷ x ∷ t) h = ends_slash-plain (x ∷ t) h.1

-- A path that does not end in a slash, with a further component.
join-plain :
    (c : ℕ) (t p : Text) → ends_slash (c ∷ t) ≡ false → join (c ∷ t) p ≡ (c ∷ t) ++ (codes "/" ++ p)
unfolding join is_empty
join-plain c t p h = elim (Bool-cases (ends_with (c ∷ t) (codes "/"))) [
  | inr e ↦ rw e refl
  | inl e ↦
      let (r, split) = ends_with_split (c ∷ t) (codes "/") e in
      absurd (ground (arith, h, ap ends_slash split ∙ ends_slash-append r b'/' []))
]

no_dots-contains : (t : Text) → Without b'.' t → contains t (codes "..") ≡ false
unfolding contains starts_with
no_dots-contains [] h = refl
no_dots-contains (c ∷ t) (k, h) = rw (k, no_dots-contains t h) (ground (arith, k))

-- The fourth try repeats the second one.
tried_again :
    (first second third : Bool) (p q r : Option Text)
    → (if first then p else if second then q else if third then r else if second then q else none)
      ≡ (if first then p else if second then q else if third then r else none)
tried_again true second third p q r = refl
tried_again false true third p q r = refl
tried_again false false true p q r = refl
tried_again false false false p q r = refl

module _ (c : ℕ) (d : Text) (slash : Without b'/' (c ∷ d)) (dot : Without b'.' (c ∷ d)) where
  parent_of-directory : parent_of ((c ∷ d) ++ codes "/") ≡ c ∷ d
  unfolding parent_of split_name go_names is_empty text_eq
  parent_of-directory =
      rw (split-append b'/' (c ∷ d) [] slash, parent_of, split_name) (ground (arith, dot.0))

  module _ (x : ℕ) (n : Text) (name_slash : Without b'/' (x ∷ n))
      (name_dot : Without b'.' (x ∷ n)) where
    file_name-below :
        file_name ((c ∷ d) ++ (codes "/" ++ (x ∷ n))) ≡ some ((c ∷ d) ++ codes "/", x ∷ n)
    unfolding file_name split_name go_names is_empty text_eq
    file_name-below =
        rw (split-append b'/' (c ∷ d) (x ∷ n) slash, split_name)
          (rw (split-plain b'/' (x ∷ n) name_slash) (ground (arith, dot.0, name_dot.0)))

    with_extension-below :
        with_extension ((c ∷ d) ++ (codes "/" ++ (x ∷ n))) (codes "php")
        ≡ ((c ∷ d) ++ codes "/") ++ ((x ∷ n) ++ codes ".php")
    unfolding with_extension stem_and_extension
    with_extension-below =
        rw (file_name-below, with_extension)
          (rw (rsplit_once-none b'.' (x ∷ n) name_dot, stem_and_extension) refl)

    -- The place of the name below the document root.
    abbrev below : Text
    below = (c ∷ d) ++ (codes "/" ++ (x ∷ n))

    below-plain : ends_slash below ≡ false
    below-plain = ends_slash-append (c ∷ d) b'/' (x ∷ n) ∙ ends_slash-plain (x ∷ n) name_slash

    abbrev php_file : Text
    php_file = ((c ∷ d) ++ codes "/") ++ ((x ∷ n) ++ codes ".php")

    fourth :
        with_extension (join (parent_of ((c ∷ d) ++ codes "/")) (x ∷ n)) (codes "php") ≡ php_file
    fourth =
        ap (λ parent. with_extension (join parent (x ∷ n)) (codes "php")) parent_of-directory
        ∙ ap (λ path. with_extension path (codes "php"))
            (join-plain c d (x ∷ n) (ends_slash-plain (c ∷ d) slash))
        ∙ with_extension-below

    -- A request for a name without a dot, with a document root that is a name without a dot: the file
    -- of that name below the document root is found, else the one with `.php` behind the name, else
    -- the `index.php` of the directory of that name, and nothing where none of them is a file.
    pub find_php_file_plain :
        (fs : Files)
        → find_php_file fs (c ∷ d) (b'/' ∷ x ∷ n) ≡ (
            if present fs below
            then some below
            else if present fs php_file
            then some php_file
            else if present fs (below ++ codes "/index.php")
            then some (below ++ codes "/index.php")
            else none)
    unfolding find_php_file trim_start_matches candidates first_file
    find_php_file_plain fs =
        rw (name_slash.0, no_dots-contains (x ∷ n) name_dot)
          (rw (join-plain c d (x ∷ n) (ends_slash-plain (c ∷ d) slash)) (
            rw
              (
                with_extension-below,
                file_name-below,
                fourth,
                join-plain c (d ++ (codes "/" ++ (x ∷ n))) (codes "index.php") below-plain,
              )
              (tried_again (present fs below) (present fs php_file)
                (present fs (below ++ codes "/index.php")) (some below) (some php_file) _)))
