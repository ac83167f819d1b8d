-- ===== src/Queue/Handlers.antt =====
-- src-server/src/job_handlers/: the registry with its two sample handlers. The JSON values are a
-- parameter: the text under a key, and an object of texts and truth values. The handlers sleep first.
use bakpia_run.Prelude.{
  ◌≡◌, refl, sym, ◌↔◌, ◌⊎◌, inl, inr, Bool, true, arith, Bool-cases, Option, List, [], ◌∷◌, ◌++◌,
}
use bakpia_run.Prelude.Maps.{get, insert}
use bakpia_run.Text.{Text, codes, text_eq}
use bakpia_run.Text.Matching.{text_keys, text_eq_iff}
use bakpia_run.Config.{or_else}
use bakpia_run.Queue.{Answer, ok, register, execute}

pub data JsonField : Type 0 where
  text : Text → JsonField
  flag : Bool → JsonField

pub record Json (V : Type 0) : Type 0 where
  pub get_str : V → Text → Option Text
  pub object : List (Text × JsonField) → V

-- `HandlerRegistry::list_tasks`
abbrev pub list_tasks : {V : Type 0} → List (Text × (V → Answer V)) → List Text
list_tasks [] = []
list_tasks ((task, handler) ∷ handlers) = task ∷ list_tasks handlers

module _ {V : Type 0} (j : Json V) where
  abbrev pub send_welcome_email : V → Answer V
  send_welcome_email payload =
      let to = or_else (j.get_str payload (codes "to")) (codes "unknown@example.com") in
      let name = or_else (j.get_str payload (codes "name")) (codes "User") in
      ok (
        j.object (
          (codes "success", flag true)
          ∷ (codes "message", text (codes "Welcome email sent to " ++ to))
          ∷ (codes "to", text to)
          ∷ (codes "name", text name)
          ∷ []))

  abbrev pub generate_report : V → Answer V
  generate_report payload =
      let report_type = or_else (j.get_str payload (codes "type")) (codes "general") in
      ok (
        j.object (
          (codes "success", flag true)
          ∷ (codes "message", text (report_type ++ codes " report generated successfully"))
          ∷ (codes "file_size", text (codes "2.5 MB"))
          ∷ []))

  -- `HandlerRegistry::new`
  abbrev pub registry : List (Text × (V → Answer V))
  registry =
      register (codes "generate_report") generate_report
        (register (codes "send_welcome_email") send_welcome_email [])

  -- A task succeeds exactly if it is one of the two that are registered, whatever its payload is.
  execute-registry_iff :
      (task : Text) (payload : V)
      → ((result : V) × (execute task payload registry ≡ ok result))
        ↔ ((task ≡ codes "send_welcome_email") ⊎ (task ≡ codes "generate_report"))
  unfolding get insert text_eq
  execute-registry_iff task payload = (
    λ (result, done). elim (Bool-cases (text_eq (codes "send_welcome_email") task)) [
      | inl mail ↦ inl (sym ((text_eq_iff (codes "send_welcome_email") task).0 mail))
      | inr other ↦ elim (Bool-cases (text_eq (codes "generate_report") task)) [
        | inl report ↦ inr (sym ((text_eq_iff (codes "generate_report") task).0 report))
        | inr neither ↦ absurd (ground (arith, done, other, neither))
      ]
    ],
    λ known. elim known [ inl mail ↦ rw mail (_, refl) | inr report ↦ rw report (_, refl) ],
  )
