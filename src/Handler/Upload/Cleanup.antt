-- ===== src/Handler/Upload/Cleanup.antt =====
-- src-server/src/handlers.rs: the temporary files of a request, from the multipart body to the loop
-- that removes them.
use bakpia_run.Prelude.{
  ℕ, suc, ◌<◌, ◌≤◌, false, inl, inr, ap, Bool-cases, Option-cases, All-map, All-append, Option,
  none, some, List, [], ◌∷◌, ◌++◌, ◌≡◌, refl, sym, ◌∙◌, arith, All,
}
use mathlib.Core.Path.{subst}
use bakpia_run.Config.{or_else}
use bakpia_run.Text.{Text}
use bakpia_run.Handler.Upload.{
  Disk, empty_form, Field, Form, save_chunks, without_file, remove_file, add_file, add_named,
  add_field, add_fields, clean_up,
}

without_file_comm :
    (a b : ℕ) (disk : List ℕ)
    → without_file a (without_file b disk) ≡ without_file b (without_file a disk)
unfolding without_file
without_file_comm a b [] = refl
without_file_comm a b (k ∷ ks) = ground (arith, without_file_comm a b ks)

without_file-absent :
    (id : ℕ) (disk : List ℕ) → All (λ k. k < id) disk → without_file id disk ≡ disk
unfolding without_file
without_file-absent id [] h = refl
without_file-absent id (k ∷ ks) (lt, h) = ground (arith, without_file-absent id ks h)

without_file-head : (id : ℕ) (disk : List ℕ) → without_file id (id ∷ disk) ≡ without_file id disk
unfolding without_file
without_file-head id disk = ground arith

without_file-later :
    (id k : ℕ) (disk : List ℕ) → k < id → without_file k (id ∷ disk) ≡ id ∷ without_file k disk
unfolding without_file
without_file-later id k disk lt = ground (arith, lt)

module _ (d : Disk) where
  remove_file_comm :
      (a b : ℕ) (disk : List ℕ)
      → remove_file d a (remove_file d b disk) ≡ remove_file d b (remove_file d a disk)
  unfolding remove_file
  remove_file_comm a b disk = ground (arith, without_file_comm a b disk)

  clean_up-remove_file :
      (id : ℕ) (ids disk : List ℕ)
      → clean_up d ids (remove_file d id disk) ≡ remove_file d id (clean_up d ids disk)
  unfolding clean_up
  clean_up-remove_file id [] disk = refl
  clean_up-remove_file id (k ∷ ks) disk =
      rw (remove_file_comm k id disk) (clean_up-remove_file id ks (remove_file d k disk))

  clean_up-append :
      (ids more disk : List ℕ)
      → clean_up d (ids ++ more) disk ≡ clean_up d more (clean_up d ids disk)
  unfolding clean_up
  clean_up-append [] more disk = refl
  clean_up-append (k ∷ ks) more disk = clean_up-append ks more (remove_file d k disk)

  remove_file-later :
      (id k : ℕ) (disk : List ℕ) → k < id → remove_file d k (id ∷ disk) ≡ id ∷ remove_file d k disk
  unfolding remove_file
  remove_file-later id k disk lt = ground (arith, without_file-later id k disk lt)

  -- The removal of older files leaves a new one.
  clean_up-later :
      (id : ℕ) (ids disk : List ℕ)
      → All (λ k. k < id) ids
      → clean_up d ids (id ∷ disk) ≡ id ∷ clean_up d ids disk
  unfolding clean_up
  clean_up-later id [] disk h = refl
  clean_up-later id (k ∷ ks) disk (lt, h) =
      rw (remove_file-later id k disk lt) (clean_up-later id ks (remove_file d k disk) h)

  -- The disk afterwards, next to the files that were there before: these, and new ones that could not
  -- be removed, which have numbers from `first` on.
  abbrev pub Leaves : ℕ → List ℕ → List ℕ → Type 0
  Leaves first others after =
      (stuck : List ℕ) × (after ≡ stuck ++ others)
      × All (λ k. (d.remove k ≡ false) × (first ≤ k)) stuck

-- What a form has left, and that the numbers of its files are below the next one.
record IsTracked (d : Disk) (first : ℕ) (others : List ℕ) (id : ℕ) (ids disk : List ℕ)
    : Type 0 where
  left : Leaves d first others (clean_up d ids disk)
  old : All (λ k. k < id) ids
  below : All (λ k. k < id) (clean_up d ids disk)
  start : first ≤ id

All-later : (id : ℕ) (disk : List ℕ) → All (λ k. k < id) disk → All (λ k. k < suc id) disk
All-later id disk h = All-map (λ k. k < id) {Q = λ k. k < suc id} (λ k lt. omega (arith, lt)) disk h

module _ (d : Disk) (first : ℕ) (others : List ℕ) where
  later-IsTracked :
      (id : ℕ) (ids disk : List ℕ)
      → IsTracked d first others id ids disk
      → IsTracked d first others (suc id) ids disk
  later-IsTracked id ids disk v = record {
    left = v.left;
    old = All-later id ids v.old;
    below = All-later id (clean_up d ids disk) v.below;
    start = omega (arith, v.start);
  }

  -- A new file that is removed or cannot be.
  removed :
      (id : ℕ) (ids disk : List ℕ)
      → IsTracked d first others id ids disk
      → Leaves d first others (clean_up d ids (remove_file d id (id ∷ disk)))
        × All (λ k. k < suc id) (clean_up d ids (remove_file d id (id ∷ disk)))
  unfolding remove_file
  removed id ids disk v = elim (Bool-cases (d.remove id)) [
    | inl goes ↦
        let same : clean_up d ids (remove_file d id (id ∷ disk)) ≡ clean_up d ids disk =
          ap (clean_up d ids) (ground (arith, goes, without_file-head id disk))
          ∙ clean_up-remove_file d id ids disk
          ∙ ground (arith, goes, without_file-absent id (clean_up d ids disk) v.below) in
        (
          subst (Leaves d first others) (sym same) v.left,
          subst (All (λ (k : ℕ). k < suc id)) (sym same)
              (All-later id (clean_up d ids disk) v.below),
        )
    | inr stays ↦
        let (stuck, e, fails) = v.left in
        let same : clean_up d ids (remove_file d id (id ∷ disk)) ≡ id ∷ clean_up d ids disk =
          ap (clean_up d ids) (ground (arith, stays)) ∙ clean_up-later d id ids disk v.old in
        (
          (id ∷ stuck, same ∙ ap (λ ks. id ∷ ks) e, ((stays, v.start), fails)),
          subst (All (λ (k : ℕ). k < suc id)) (sym same)
              (omega arith, All-later id (clean_up d ids disk) v.below),
        )
  ]

  failed-IsTracked :
      (id : ℕ) (ids disk : List ℕ)
      → IsTracked d first others id ids disk
      → IsTracked d first others (suc id) ids (remove_file d id (id ∷ disk))
  failed-IsTracked id ids disk v =
      let (left, below) = removed id ids disk v in
      record {
        left = left;
        old = All-later id ids v.old;
        below = below;
        start = omega (arith, v.start);
      }

  saved-IsTracked :
      (id : ℕ) (ids disk : List ℕ)
      → IsTracked d first others id ids disk
      → IsTracked d first others (suc id) (ids ++ (id ∷ [])) (id ∷ disk)
  unfolding clean_up
  saved-IsTracked id ids disk v =
      let (left, below) = removed id ids disk v in
      let same : clean_up d (ids ++ (id ∷ [])) (id ∷ disk)
          ≡ clean_up d ids (remove_file d id (id ∷ disk)) =
        clean_up-append d ids (id ∷ []) (id ∷ disk)
        ∙ sym (clean_up-remove_file d id ids (id ∷ disk)) in
      record {
        left = subst (Leaves d first others) (sym same) left;
        old = All-append (λ k. k < suc id) ids (id ∷ []) (All-later id ids v.old) (omega arith, tt);
        below = subst (All (λ (k : ℕ). k < suc id)) (sym same) below;
        start = omega (arith, v.start);
      }

module _ (d : Disk) (uuid : ℕ → Text) (upload_tmp_dir : Text) (first : ℕ) (others : List ℕ) where
  abbrev Tracks : ℕ → Form → Type 0
  Tracks id form = IsTracked d first others id form.uploaded form.temporary

  add_file-Tracks :
      (id : ℕ) (name fname : Text) (field : Field) (form : Form)
      → Tracks id form
      → Tracks (suc id) (add_file d uuid upload_tmp_dir id name fname field form)
  unfolding add_file
  add_file-Tracks id name fname field form v = elim (Bool-cases (d.create id)) [
    | inr fails ↦ rw fails (later-IsTracked d first others id form.uploaded form.temporary v)
    | inl made ↦ elim (Option-cases (save_chunks d id field.chunks 0)) [
      | inl broken ↦
          rw (made, broken) (failed-IsTracked d first others id form.uploaded form.temporary v)
      | inr (size, saved) ↦
          rw (made, saved) (saved-IsTracked d first others id form.uploaded form.temporary v)
    ]
  ]

  add_named-Tracks :
      (id : ℕ) (file_name : Option Text) (field : Field) (form : Form)
      → Tracks id form
      → Tracks (suc id) (add_named d uuid upload_tmp_dir id file_name field form)
  unfolding add_named
  add_named-Tracks id (some fname) field form v =
      add_file-Tracks id (or_else field.name []) fname field form v
  add_named-Tracks id none field form v = elim (Option-cases field.value) [
    | inl unread ↦ rw unread (later-IsTracked d first others id form.uploaded form.temporary v)
    | inr (value, read) ↦ rw read (later-IsTracked d first others id form.uploaded form.temporary v)
  ]

  add_fields-Leaves :
      (id : ℕ) (fields : List Field) (form : Form)
      → Tracks id form
      → (let after = add_fields d uuid upload_tmp_dir id fields form in
          Leaves d first others (clean_up d after.uploaded after.temporary))
  unfolding add_fields add_field
  add_fields-Leaves id [] form v = v.left
  add_fields-Leaves id (f ∷ fs) form v =
      add_fields-Leaves (suc id) fs (add_field d uuid upload_tmp_dir id f form)
        (add_named-Tracks id f.file_name f form v)

  -- When the request has been answered, the disk holds the temporary files that it held before and no
  -- other one but new files whose removal failed, whatever the multipart body was and whichever files
  -- could not be created or saved: the loop at the end removes each file that the body left. The
  -- numbers of the older files are below those of the new ones.
  pub clean_up-add_fields :
      (fields : List Field)
      → All (λ k. k < first) others
      → (let form =
            add_fields d uuid upload_tmp_dir first fields
              (record empty_form { temporary = others }) in
          Leaves d first others (clean_up d form.uploaded form.temporary))
  unfolding clean_up
  clean_up-add_fields fields h =
      add_fields-Leaves first fields (record empty_form { temporary = others })
        (record { left = ([], refl, tt); old = tt; below = h; start = omega arith })
