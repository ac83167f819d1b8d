-- ===== src/Logger/Lines.antt =====
-- The lines of the logs.

use mathlib.Core.List.{append_assoc, append-nil}
use bakpia_run.Prelude.{
  ℕ, ◌≡◌, refl, sym, ap, ◌∙◌, inl, inr, arith, Bool, true, false, Bool-cases, ◌&&◌, ◌==◌, Option,
  none, some, List, [], ◌∷◌, ◌++◌, All, if◌then◌else◌,
}
use bakpia_run.Text.{Text, codes}
use bakpia_run.Text.Splitting.{split, push_first}
use bakpia_run.Logger.{
  Logger, new, open_log, append, access_line, error_line, log_access, log_error, Call, Write,
  complete, failed, access, error, after, history,
}

-- A write that fails leaves no part of its line.
abbrev pub IsClean : Call → Type 0
IsClean (access complete timestamp ip method uri status duration_ms) = Unit {0}
IsClean (access (failed n) timestamp ip method uri status duration_ms) = n ≡ 0
IsClean (error complete timestamp level message) = Unit {0}
IsClean (error (failed n) timestamp level message) = n ≡ 0

-- The lines of the calls whose write succeeds.
abbrev pub access_lines : List Call → List Text
access_lines [] = []
access_lines (access complete timestamp ip method uri status duration_ms ∷ calls) =
    access_line timestamp ip method uri status duration_ms ∷ access_lines calls
access_lines (access (failed n) timestamp ip method uri status duration_ms ∷ calls) =
    access_lines calls
access_lines (error write timestamp level message ∷ calls) = access_lines calls

abbrev pub error_lines : List Call → List Text
error_lines [] = []
error_lines (error complete timestamp level message ∷ calls) =
    error_line timestamp level message ∷ error_lines calls
error_lines (error (failed n) timestamp level message ∷ calls) = error_lines calls
error_lines (access write timestamp ip method uri status duration_ms ∷ calls) = error_lines calls

abbrev joined : List Text → Text
joined [] = []
joined (t ∷ ts) = (t ++ codes "\n") ++ joined ts

abbrev pub IsOneLine : Text → Type 0
IsOneLine t = All (λ b. (b == 10) ≡ false) t

split-line :
    (t rest : Text) → IsOneLine t → split 10 ((t ++ codes "\n") ++ rest) ≡ t ∷ split 10 rest
unfolding split push_first
split-line [] rest h = refl
split-line (c ∷ t) rest (other, h) = rw (other, split-line t rest h) refl

split-joined : (ts : List Text) → All IsOneLine ts → split 10 (joined ts) ≡ ts ++ ([] ∷ [])
unfolding split
split-joined [] h = refl
split-joined (t ∷ ts) (one, h) =
    split-line t (joined ts) one ∙ ap (λ us. t ∷ us) (split-joined ts h)

-- What a log holds after lines have been added to it.
abbrev with_lines : Option Text → List Text → Option Text
with_lines none ts = none
with_lines (some w) ts = some (w ++ joined ts)

with_lines-none : (file : Option Text) → with_lines file [] ≡ file
with_lines-none none = refl
with_lines-none (some w) = ap some (append-nil w)

with_lines-append :
    (line : Text) (file : Option Text) (ts : List Text)
    → with_lines (append complete (line ++ codes "\n") file) ts ≡ with_lines file (line ∷ ts)
unfolding append
with_lines-append line none ts = refl
with_lines-append line (some w) ts = ap some (append_assoc w (line ++ codes "\n") (joined ts))

append-fails :
    (n : ℕ) (line : Text) (file : Option Text) → n ≡ 0 → append (failed n) line file ≡ file
unfolding append
append-fails n line none e = refl
append-fails n line (some w) e = rw e (ap some (append-nil w))

log_access-access :
    (write : Write) (timestamp ip method uri : Text) (status duration_ms : ℕ) (l : Logger)
    → l.access_enabled ≡ true
    → ((log_access write timestamp ip method uri status duration_ms l).access_enabled ≡ true)
      × ((log_access write timestamp ip method uri status duration_ms l).access_file
          ≡ append write
              (access_line timestamp ip method uri status duration_ms ++ codes "\n")
              l.access_file)
unfolding log_access
log_access-access write timestamp ip method uri status duration_ms l on = rw on (refl, refl)

log_error-access :
    (write : Write) (timestamp level message : Text) (l : Logger)
    → ((log_error write timestamp level message l).access_enabled ≡ l.access_enabled)
      × ((log_error write timestamp level message l).access_file ≡ l.access_file)
unfolding log_error
log_error-access write timestamp level message l = elim (Bool-cases l.error_enabled) [
  | inl on ↦ rw on (refl, refl)
  | inr off ↦ rw off (refl, refl)
]

history-access :
    (calls : List Call) (l : Logger)
    → All IsClean calls
    → l.access_enabled ≡ true
    → (history calls l).access_file ≡ with_lines l.access_file (access_lines calls)
unfolding history after
history-access [] l clean on = sym (with_lines-none l.access_file)
history-access (access complete timestamp ip method uri status duration_ms ∷ calls) l (this, clean)
      on =
    let (still, file) =
      log_access-access complete timestamp ip method uri status duration_ms l on in
    history-access calls _ clean still
    ∙ ap (λ f. with_lines f (access_lines calls)) file
    ∙ with_lines-append (access_line timestamp ip method uri status duration_ms) l.access_file
        (access_lines calls)
history-access (access (failed n) timestamp ip method uri status duration_ms ∷ calls) l
      (this, clean) on =
    let (still, file) =
      log_access-access (failed n) timestamp ip method uri status duration_ms l on in
    history-access calls _ clean still
    ∙ ap (λ f. with_lines f (access_lines calls))
        (file
          ∙ append-fails n (access_line timestamp ip method uri status duration_ms ++ codes "\n")
              l.access_file this)
history-access (error write timestamp level message ∷ calls) l (this, clean) on =
    let (same, file) = log_error-access write timestamp level message l in
    history-access calls _ clean (same ∙ on) ∙ ap (λ f. with_lines f (access_lines calls)) file

log_access-none :
    (write : Write) (timestamp ip method uri : Text) (status duration_ms : ℕ) (l : Logger)
    → l.access_file ≡ none
    → (log_access write timestamp ip method uri status duration_ms l).access_file ≡ none
unfolding log_access append
log_access-none write timestamp ip method uri status duration_ms l closed =
    elim (Bool-cases l.access_enabled) [ inl on ↦ rw (on, closed) refl | inr off ↦ rw off closed ]

history-access_closed :
    (calls : List Call) (l : Logger) → l.access_file ≡ none → (history calls l).access_file ≡ none
unfolding history after
history-access_closed [] l closed = closed
history-access_closed (access write timestamp ip method uri status duration_ms ∷ calls) l closed =
    history-access_closed calls _
      (log_access-none write timestamp ip method uri status duration_ms l closed)
history-access_closed (error write timestamp level message ∷ calls) l closed =
    history-access_closed calls _ ((log_error-access write timestamp level message l).1 ∙ closed)

log_error-error :
    (write : Write) (timestamp level message : Text) (l : Logger)
    → l.error_enabled ≡ true
    → ((log_error write timestamp level message l).error_enabled ≡ true)
      × ((log_error write timestamp level message l).error_file
          ≡ append write (error_line timestamp level message ++ codes "\n") l.error_file)
unfolding log_error
log_error-error write timestamp level message l on = rw on (refl, refl)

log_access-error :
    (write : Write) (timestamp ip method uri : Text) (status duration_ms : ℕ) (l : Logger)
    → ((log_access write timestamp ip method uri status duration_ms l).error_enabled
        ≡ l.error_enabled)
      × ((log_access write timestamp ip method uri status duration_ms l).error_file ≡ l.error_file)
unfolding log_access
log_access-error write timestamp ip method uri status duration_ms l =
    elim (Bool-cases l.access_enabled) [
      | inl on ↦ rw on (refl, refl)
      | inr off ↦ rw off (refl, refl)
    ]

history-error :
    (calls : List Call) (l : Logger)
    → All IsClean calls
    → l.error_enabled ≡ true
    → (history calls l).error_file ≡ with_lines l.error_file (error_lines calls)
unfolding history after
history-error [] l clean on = sym (with_lines-none l.error_file)
history-error (error complete timestamp level message ∷ calls) l (this, clean) on =
    let (still, file) = log_error-error complete timestamp level message l on in
    history-error calls _ clean still
    ∙ ap (λ f. with_lines f (error_lines calls)) file
    ∙ with_lines-append (error_line timestamp level message) l.error_file (error_lines calls)
history-error (error (failed n) timestamp level message ∷ calls) l (this, clean) on =
    let (still, file) = log_error-error (failed n) timestamp level message l on in
    history-error calls _ clean still
    ∙ ap (λ f. with_lines f (error_lines calls))
        (file ∙ append-fails n (error_line timestamp level message ++ codes "\n") l.error_file this)
history-error (access write timestamp ip method uri status duration_ms ∷ calls) l (this, clean) on =
    let (same, file) = log_access-error write timestamp ip method uri status duration_ms l in
    history-error calls _ clean (same ∙ on) ∙ ap (λ f. with_lines f (error_lines calls)) file

log_error-none :
    (write : Write) (timestamp level message : Text) (l : Logger)
    → l.error_file ≡ none
    → (log_error write timestamp level message l).error_file ≡ none
unfolding log_error append
log_error-none write timestamp level message l closed = elim (Bool-cases l.error_enabled) [
  | inl on ↦ rw (on, closed) refl
  | inr off ↦ rw off closed
]

history-error_closed :
    (calls : List Call) (l : Logger) → l.error_file ≡ none → (history calls l).error_file ≡ none
unfolding history after
history-error_closed [] l closed = closed
history-error_closed (error write timestamp level message ∷ calls) l closed =
    history-error_closed calls _ (log_error-none write timestamp level message l closed)
history-error_closed (access write timestamp ip method uri status duration_ms ∷ calls) l closed =
    history-error_closed calls _
      ((log_access-error write timestamp ip method uri status duration_ms l).1 ∙ closed)

-- What is in a log, as lines: the last one is empty.
abbrev pub split_log : Option Text → Option (List Text)
split_log none = none
split_log (some w) = some (split 10 w)

logged-access :
    (calls : List Call) (l : Logger) (up : Bool)
    → All IsClean calls
    → l.access_file ≡ (if up then some [] else none)
    → (up ≡ true → l.access_enabled ≡ true)
    → All IsOneLine (access_lines calls)
    → split_log (history calls l).access_file
      ≡ (if up then some (access_lines calls ++ ([] ∷ [])) else none)
logged-access calls l false clean closed on plain =
    ap split_log (history-access_closed calls l closed)
logged-access calls l true clean opened on plain =
    ap split_log
      (history-access calls l clean (on refl) ∙ ap (λ f. with_lines f (access_lines calls)) opened)
    ∙ ap some (split-joined (access_lines calls) plain)

logged-error :
    (calls : List Call) (l : Logger) (up : Bool)
    → All IsClean calls
    → l.error_file ≡ (if up then some [] else none)
    → (up ≡ true → l.error_enabled ≡ true)
    → All IsOneLine (error_lines calls)
    → split_log (history calls l).error_file
      ≡ (if up then some (error_lines calls ++ ([] ∷ [])) else none)
logged-error calls l false clean closed on plain =
    ap split_log (history-error_closed calls l closed)
logged-error calls l true clean opened on plain =
    ap split_log
      (history-error calls l clean (on refl) ∙ ap (λ f. with_lines f (error_lines calls)) opened)
    ∙ ap some (split-joined (error_lines calls) plain)

-- Whatever calls come, as long as no line of theirs has a newline in it and a write that fails leaves no
-- part of its line: through the handle of a log that is enabled and opens goes one line for each of the
-- log's own calls whose write succeeds, in their order, and nothing else; a log that is disabled, or
-- does not open, has no handle.
pub history-new-lines :
    (opens : Text → Bool) (access_enabled : Bool) (access_path : Text) (error_enabled : Bool)
    (error_path : Text) (calls : List Call)
    → All IsClean calls
    → All IsOneLine (access_lines calls)
    → All IsOneLine (error_lines calls)
    → (let l = history calls (new opens access_enabled access_path error_enabled error_path) in
        (split_log l.access_file ≡ (
          if access_enabled && opens access_path
          then some (access_lines calls ++ ([] ∷ []))
          else none))
        × (split_log l.error_file ≡ (
            if error_enabled && opens error_path
            then some (error_lines calls ++ ([] ∷ []))
            else none)))
unfolding new open_log
history-new-lines opens a_on a_path e_on e_path calls clean plain_a plain_e =
    let l = new opens a_on a_path e_on e_path in
    (
      logged-access calls l (a_on && opens a_path) clean refl (λ up. ground (arith, up)) plain_a,
      logged-error calls l (e_on && opens e_path) clean refl (λ up. ground (arith, up)) plain_e,
    )
