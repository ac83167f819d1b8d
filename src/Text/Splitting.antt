-- ===== src/Text/Splitting.antt =====
-- The pieces of texts: `split`, `splitn`, `lines`, `strip_prefix`, `contains` and trimming of one byte.
use bakpia_run.Prelude.{
  ℕ, Bool, ◌||◌, Option, none, some, List, [], ◌∷◌, ◌==◌, if◌then◌else◌, length, drop,
}
use bakpia_run.Text.{Text, is_space, starts_with}

unfoldable pub push_first : ℕ → List Text → List Text
push_first c [] = (c ∷ []) ∷ []
push_first c (p ∷ ps) = (c ∷ p) ∷ ps

-- `s.split(sep)`: one piece more than there are separators.
unfoldable pub split : ℕ → Text → List Text
unfolding push_first
split sep [] = [] ∷ []
split sep (c ∷ s) = let rest = split sep s in if c == sep then [] ∷ rest else push_first c rest

-- `s.splitn(2, sep)`, where it gives two pieces.
unfoldable pub split_once : ℕ → Text → Option (Text × Text)
split_once sep [] = none
split_once sep (c ∷ s) =
    let rest = split_once sep s in
    if c == sep then some ([], s) else elim rest [ none ↦ none | some (a, b) ↦ some (c ∷ a, b) ]

-- The same at the last separator.
unfoldable pub rsplit_once : ℕ → Text → Option (Text × Text)
rsplit_once sep [] = none
rsplit_once sep (c ∷ s) = elim (rsplit_once sep s) [
  | some (a, b) ↦ some (c ∷ a, b)
  | none ↦ if c == sep then some ([], s) else none
]

-- `s.contains(t)`
unfoldable pub contains : Text → Text → Bool
unfolding starts_with
contains [] t = starts_with [] t
contains (c ∷ s) t = starts_with (c ∷ s) t || contains s t

unfoldable pub strip_prefix : Text → Text → Option Text
unfolding starts_with
strip_prefix s t = if starts_with s t then some (drop (length t) s) else none

-- `s.trim_start_matches(c)` and `s.trim_end_matches(c)` for one byte
unfoldable pub trim_start_matches : ℕ → Text → Text
trim_start_matches b [] = []
trim_start_matches b (c ∷ s) = let rest = trim_start_matches b s in if c == b then rest else c ∷ s

unfoldable pub trim_end_matches : ℕ → Text → Text
trim_end_matches b [] = []
trim_end_matches b (c ∷ s) = elim (trim_end_matches b s) [
  | [] ↦ if c == b then [] else c ∷ []
  | d ∷ r ↦ c ∷ d ∷ r
]

-- The piece before the first white space.
unfoldable pub first_word : Text → Text
unfolding is_space
first_word [] = []
first_word (c ∷ s) = let rest = first_word s in if is_space c then [] else c ∷ rest

-- `s.lines()`: a line ends at a line feed, with the carriage return before it left off; there is no
-- line behind the last line feed.
strip_cr : Text → Text
unfolding trim_end_matches
strip_cr [] = []
strip_cr (c ∷ []) = if c == 13 then [] else c ∷ []
strip_cr (c ∷ d ∷ s) = c ∷ strip_cr (d ∷ s)

lines_of : List Text → List Text
unfolding strip_cr
lines_of [] = []
lines_of ([] ∷ []) = []
lines_of ((c ∷ p) ∷ []) = (c ∷ p) ∷ []
lines_of (p ∷ q ∷ ps) = strip_cr p ∷ lines_of (q ∷ ps)

unfoldable pub lines : Text → List Text
unfolding split lines_of
lines s = lines_of (split b'\n' s)
