-- ===== src/DbProxy/Substitute.antt =====
-- The parameters put into the text of a query.
use bakpia_run.Prelude.{
  ℕ, suc, ◌≡◌, refl, ap, ◌∙◌, ◌≢◌, List, [], ◌∷◌, ◌++◌, arith, ◌==◌, ==_iff, if◌then◌else◌,
  Bool-cases, inl, inr, All,
}
use mathlib.Core.List.{append_assoc}
use bakpia_run.Text.{Text}

-- `query.matches('?').count()`
unfoldable pub count_marks : Text → ℕ
count_marks [] = 0
count_marks (c ∷ s) = let n = count_marks s in if c == b'?' then suc n else n

-- `result.replacen('?', param, 1)`
unfoldable pub replace_first : Text → Text → Text
replace_first [] param = []
replace_first (c ∷ s) param =
    let rest = replace_first s param in if c == b'?' then param ++ s else c ∷ rest

unfoldable pub substitute_parameters : Text → List Text → Text
unfolding replace_first
substitute_parameters query [] = query
substitute_parameters query (param ∷ params) =
    substitute_parameters (replace_first query param) params

-- The query with its marks filled from left to right in one pass; marks without a parameter stay.
unfoldable pub fill : Text → List Text → Text
fill [] params = []
fill (c ∷ s) [] = c ∷ s
fill (c ∷ s) (p ∷ params) =
    let filled = p ++ fill s params in
    let kept = c ∷ fill s (p ∷ params) in if c == b'?' then filled else kept

abbrev pub NoMark : Text → Type 0
NoMark s = All (λ c. c ≢ b'?') s

replace_first-append :
    (s t param : Text) → NoMark s → replace_first (s ++ t) param ≡ s ++ replace_first t param
unfolding replace_first
replace_first-append [] t param h = refl
replace_first-append (c ∷ s) t param (h, hs) = ground (arith, replace_first-append s t param hs)

substitute-append :
    (s t : Text) (params : List Text)
    → NoMark s
    → substitute_parameters (s ++ t) params ≡ s ++ substitute_parameters t params
unfolding substitute_parameters
substitute-append s t [] h = refl
substitute-append s t (p ∷ params) h =
    rw (replace_first-append s t p h) (substitute-append s (replace_first t p) params h)

substitute-nil : (params : List Text) → substitute_parameters [] params ≡ []
unfolding substitute_parameters
substitute-nil [] = refl
substitute-nil (p ∷ params) = substitute-nil params

substitute_other :
    (c : ℕ) (s : Text) (params : List Text)
    → c ≢ b'?'
    → substitute_parameters (c ∷ s) params ≡ c ∷ substitute_parameters s params
substitute_other c s params h = substitute-append (c ∷ []) s params (h, tt)

substitute_mark :
    (c : ℕ) (s p : Text) (params : List Text)
    → c ≡ b'?'
    → substitute_parameters (c ∷ s) (p ∷ params) ≡ substitute_parameters (p ++ s) params
unfolding substitute_parameters
substitute_mark c s p params h = rw h

-- If no parameter holds a question mark, the repeated replacement fills the marks in order.
pub substitute_parameters-eq-fill :
    (query : Text) (params : List Text)
    → All NoMark params
    → substitute_parameters query params ≡ fill query params
unfolding fill
substitute_parameters-eq-fill [] params h = substitute-nil params
substitute_parameters-eq-fill (c ∷ s) [] h = unfold substitute_parameters in refl
substitute_parameters-eq-fill (c ∷ s) (p ∷ params) h = elim (Bool-cases (c == b'?')) [
  | inl e ↦ rw e (
      substitute_mark c s p params ((==_iff c _).0 e)
      ∙ substitute-append p s params h.0
      ∙ ap (◌++◌ p) (substitute_parameters-eq-fill s params h.1))
  | inr e ↦ rw e (
      substitute_other c s (p ∷ params) (ground arith)
      ∙ ap (◌∷◌ c) (substitute_parameters-eq-fill s (p ∷ params) h))
]

-- When neither the query before its first mark nor the first parameter before its own first mark
-- has a question mark, the second of two parameters lands inside the first, at that mark, and the
-- rest of the query keeps its marks.
pub substitute_parameters_nested :
    (s u p q r : Text)
    → NoMark s
    → NoMark p
    → substitute_parameters (s ++ (b'?' ∷ u)) ((p ++ (b'?' ∷ r)) ∷ q ∷ [])
      ≡ s ++ (p ++ (q ++ (r ++ u)))
substitute_parameters_nested s u p q r hs hp =
    substitute-append s (b'?' ∷ u) ((p ++ (b'?' ∷ r)) ∷ q ∷ []) hs
    ∙ ap (◌++◌ s) (substitute_mark b'?' u (p ++ (b'?' ∷ r)) (q ∷ []) refl ∙ inner)
  where
    inner : substitute_parameters ((p ++ (b'?' ∷ r)) ++ u) (q ∷ []) ≡ p ++ (q ++ (r ++ u))
    inner = rw (append_assoc p (b'?' ∷ r) u) (
        substitute-append p (b'?' ∷ (r ++ u)) (q ∷ []) hp
        ∙ ap (◌++◌ p)
            (substitute_mark b'?' (r ++ u) q [] refl ∙ unfold substitute_parameters in refl))
