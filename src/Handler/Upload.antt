-- ===== src/Handler/Upload.antt =====
-- src-server/src/handlers.rs: the fields of a multipart body. The fields themselves, which the crate
-- multer parses, are data; whether files can be created and written is a parameter. A temporary file
-- has a name that no other file has.
pub mod Cleanup
use bakpia_run.Prelude.{
  ℕ, zero, suc, ◌+◌, Bool, true, false, Option, none, some, List, [], ◌∷◌, ◌++◌, ◌==◌,
  if◌then◌else◌, length,
}
use bakpia_run.Prelude.Maps.{get, insert, nat_eq}
use bakpia_run.Text.{Text, codes}
use bakpia_run.Text.Decimal.{decimal}
use bakpia_run.Text.Splitting.{trim_end_matches}
use bakpia_run.Text.Matching.{text_keys}
use bakpia_run.Config.{or_else}
use bakpia_run.Handler.Request.{FileInfo}

-- The chunks of a file until its end, or until an error of the client's connection.
pub data Chunks : Type 0 where
  finished : Chunks
  broken : Chunks
  chunk : List ℕ → Chunks → Chunks

-- A field with a file name is a file; `value` is the text of another one, where it can be read.
pub record Field : Type 0 where
  pub name : Option Text
  pub file_name : Option Text
  pub content_type : Option Text
  pub value : Option Text
  pub chunks : Chunks

-- The disk: `create`, `write` and `remove` say of each new file, by its number, and of each chunk
-- whether they succeed.
pub record Disk : Type 0 where
  pub create : ℕ → Bool
  pub write : ℕ → List ℕ → Bool
  pub remove : ℕ → Bool

-- What the fields so far have given: `temporary` are the numbers of the files that are on the disk,
-- `uploaded` those that the handler removes at the end.
pub record Form : Type 0 where
  pub post_params : List (Text × Text)
  pub files : List (Text × List FileInfo)
  pub uploaded : List ℕ
  pub temporary : List ℕ

abbrev pub empty_form : Form
empty_form = record { post_params = []; files = []; uploaded = []; temporary = [] }

-- The size of the file when all of it could be read and written.
pub save_chunks : Disk → ℕ → Chunks → ℕ → Option ℕ
save_chunks d id finished total = some total
save_chunks d id broken total = none
save_chunks d id (chunk bytes more) total =
    let rest = save_chunks d id more (total + length bytes) in
    if d.write id bytes then rest else none

-- The path of the temporary file with a number, in the configured directory.
abbrev pub temp_path : (ℕ → Text) → Text → ℕ → Text
temp_path uuid upload_tmp_dir id = trim_end_matches b'/' upload_tmp_dir ++ (codes "/" ++ uuid id)

-- The files without the one with this number.
pub without_file : ℕ → List ℕ → List ℕ
without_file id [] = []
without_file id (k ∷ ks) = let rest = without_file id ks in if k == id then rest else k ∷ rest

-- `let _ = remove_file(..)`: a file that cannot be removed stays.
pub remove_file : Disk → ℕ → List ℕ → List ℕ
remove_file d id disk = if d.remove id then without_file id disk else disk

-- `files.entry(name).or_default().push(info)`
abbrev push_file : Text → FileInfo → List (Text × List FileInfo) → List (Text × List FileInfo)
push_file name info files = insert name (or_else (get name files) [] ++ (info ∷ [])) files

module _ (d : Disk) (uuid : ℕ → Text) (upload_tmp_dir : Text) where
  -- A file: it stays on the disk and in the form, or it is removed when it could not be saved.
  pub add_file : ℕ → Text → Text → Field → Form → Form
  add_file id name fname field form =
      if d.create id
      then (elim (save_chunks d id field.chunks 0) [
        | none ↦ record form { temporary = remove_file d id (id ∷ form.temporary) }
        | some size ↦ record form {
          files =
              push_file name
                (record {
                  name = fname;
                  content_type = or_else field.content_type (codes "application/octet-stream");
                  size = size;
                  tmp_path = temp_path uuid upload_tmp_dir id;
                })
                form.files;
          uploaded = form.uploaded ++ (id ∷ []);
          temporary = id ∷ form.temporary;
        }
      ])
      else form

  -- With a file name the field is a file, without one it is a text.
  pub add_named : ℕ → Option Text → Field → Form → Form
  add_named id (some fname) field form = add_file id (or_else field.name []) fname field form
  add_named id none field form = elim field.value [
    | some value ↦ record form {
      post_params = insert (or_else field.name []) value form.post_params;
    }
    | none ↦ form
  ]

  pub add_field : ℕ → Field → Form → Form
  add_field id field form = add_named id field.file_name field form

  -- The fields in their order; field number `id` gets the temporary file with that number.
  pub add_fields : ℕ → List Field → Form → Form
  add_fields id [] form = form
  add_fields id (field ∷ fields) form = add_fields (suc id) fields (add_field id field form)

-- The end of the request: the uploaded files are removed.
unfoldable pub clean_up : Disk → List ℕ → List ℕ → List ℕ
clean_up d [] disk = disk
clean_up d (id ∷ ids) disk = clean_up d ids (remove_file d id disk)
