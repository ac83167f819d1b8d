-- ===== src/Routing/Patterns.antt =====
-- What a URL pattern matches.
use bakpia_run.Prelude.{
  ◌-◌, ◌≡◌, refl, ◌↔◌, inl, inr, true, false, ◌++◌, arith, Bool-cases, length, take, drop,
  length-append, take-length-append,
}
use mathlib.Core.List.{append_assoc}
use bakpia_run.Text.{Text, codes, text_eq, starts_with, ends_with}
use bakpia_run.Text.Matching.{
  text_eq_iff, starts_with_split, starts_with-append, ends_with_split, ends_with-append,
}
use bakpia_run.Routing.{match_pattern}

-- A path fits a pattern if it is the pattern; if the pattern is a prefix with a star behind it and the
-- path begins with the prefix; or if the pattern is "/*" with a suffix behind it that does not end in
-- a star, and the path ends with the suffix. The pattern "/*" fits every path.
pub data Fits (path pattern_text : Text) : Type 0 where
  same : path ≡ pattern_text → Fits path pattern_text
  everything : pattern_text ≡ codes "/*" → Fits path pattern_text
  prefix : (p r : Text) → pattern_text ≡ p ++ codes "*" → path ≡ p ++ r → Fits path pattern_text
  suffix :
      (s r : Text)
      → pattern_text ≡ codes "/*" ++ s
      → ends_with pattern_text (codes "*") ≡ false
      → path ≡ r ++ s
      → Fits path pattern_text

drop_last : (p : Text) → take (length (p ++ codes "*") - 1) (p ++ codes "*") ≡ p
drop_last p = rw one_less (take-length-append p (codes "*"))
  where
    one_less : length (p ++ codes "*") - 1 ≡ length p
    one_less = omega (arith, length-append p (codes "*"))

-- A pattern that ends in "/*" ends in a star, so that its branch is never reached.
slash_star : (s : Text) → ends_with s (codes "*") ≡ false → ends_with s (codes "/*") ≡ false
slash_star s h = elim (Bool-cases (ends_with s (codes "/*"))) [
  | inr no_slash ↦ no_slash
  | inl slash ↦ let (r, e) = ends_with_split s (codes "/*") slash in absurd (clash r e)
]
  where
    clash : (r : Text) → s ≡ r ++ codes "/*" → ⊥
    clash r e =
        let star : ends_with s (codes "*") ≡ true =
          rw (e, ← append_assoc r (codes "/") (codes "*"))
            (ends_with-append (r ++ codes "/") (codes "*")) in
        cc

Fits-prefix :
    (path q : Text)
    → ends_with q (codes "*") ≡ true
    → starts_with path (take (length q - 1) q) ≡ true
    → Fits path q
Fits-prefix path q star h =
    let (p, e) = ends_with_split q (codes "*") star in
    let front : take (length q - 1) q ≡ p = rw e (drop_last p) in
    let (r, k) = starts_with_split path p (rw front at h) in prefix p r e k

Fits-suffix :
    (path q : Text)
    → ends_with q (codes "*") ≡ false
    → starts_with q (codes "/*") ≡ true
    → ends_with path (drop 2 q) ≡ true
    → Fits path q
Fits-suffix path q plain slash h =
    let (s, e) = starts_with_split q (codes "/*") slash in
    let back : drop 2 q ≡ s = rw e refl in
    let (r, k) = ends_with_split path s (rw back at h) in suffix s r e plain k

sound : (path q : Text) → match_pattern path q ≡ true → Fits path q
unfolding match_pattern
sound path q h = elim (Bool-cases (text_eq path q)) [
  | inl e ↦ same ((text_eq_iff path q).0 e)
  | inr n1 ↦ elim (Bool-cases (text_eq q (codes "/*"))) [
    | inl e ↦ everything ((text_eq_iff q (codes "/*")).0 e)
    | inr n2 ↦ elim (Bool-cases (ends_with q (codes "*"))) [
      | inl star ↦ Fits-prefix path q star (rw (n1, n2, star) at h)
      | inr n3 ↦ elim (Bool-cases (starts_with q (codes "/*"))) [
        | inl slash ↦ Fits-suffix path q n3 slash (rw (n1, n2, n3, slash_star q n3, slash) at h)
        | inr n4 ↦ let never : false ≡ true = rw (n1, n2, n3, slash_star q n3, n4) at h in cc
      ]
    ]
  ]
]

complete : (path q : Text) → Fits path q → match_pattern path q ≡ true
unfolding match_pattern
complete path q (same e) = rw ((text_eq_iff path q).1 e)
complete path q (everything e) = ground (arith, (text_eq_iff q (codes "/*")).1 e)
complete path q (prefix p r e k) =
    let star : ends_with q (codes "*") ≡ true = rw e (ends_with-append p (codes "*")) in
    let front : take (length q - 1) q ≡ p = rw e (drop_last p) in
    let begins : starts_with path (take (length q - 1) q) ≡ true =
      rw (front, k) (starts_with-append p r) in
    ground (arith, star, begins)
complete path q (suffix s r e plain k) =
    let slash : starts_with q (codes "/*") ≡ true = rw e (starts_with-append (codes "/*") s) in
    let back : drop 2 q ≡ s = rw e refl in
    let ends : ends_with path (drop 2 q) ≡ true = rw (back, k) (ends_with-append r s) in
    ground (arith, plain, slash_star q plain, slash, ends)

-- `match_pattern` accepts exactly the paths that fit the pattern.
pub match_pattern_iff : (path q : Text) → (match_pattern path q ≡ true) ↔ Fits path q
match_pattern_iff path q = (sound path q, complete path q)
