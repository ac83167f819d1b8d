-- ===== src/Tests/Site.antt =====
-- The theorems on static files, the admin routes, metrics, jobs, uploads and frames at concrete data.
use bakpia_run.Prelude.{
  ℕ, ◌≡◌, ◌≢◌, ◌↔◌, ◌<◌, refl, true, false, none, some, List, [], ◌∷◌, ◌++◌, arith, length, All,
  ◌==◌, if◌then◌else◌,
}
use bakpia_run.Text.{Text, codes, text_eq, to_lowercase}
use bakpia_run.Text.Splitting.{contains, trim_start_matches}
use bakpia_run.Http.{Headers}
use bakpia_run.StaticFile.{
  Files, is_static_file, get_mime_type, octet_stream, extension_of, serve_static_file,
  find_php_file, clean,
}
use bakpia_run.StaticFile.Finding.{find_php_file_plain}
use bakpia_run.StaticFile.Mime.{is_static_file_iff}
use bakpia_run.StaticFile.Access.{served_path, serve_static_file_ok, find_php_file_outside}
use bakpia_run.Ipc.{Peer, ok, frame, read_frame, send_to_php_worker}
use bakpia_run.Ipc.Exchange.{Succeeds, send_to_php_worker_iff}
use bakpia_run.Handler.Request.{PhpRequest, PhpResponse}
use bakpia_run.Handler.Upload.{
  Disk, Field, empty_form, finished, broken, chunk, add_fields, clean_up,
}
use bakpia_run.Handler.Upload.Cleanup.{Leaves, clean_up-add_fields}

is_static_file_iff_example : (is_static_file (codes "/a/b.CSS") ≡ true) ↔ (
    (get_mime_type (extension_of (codes "/a/b.CSS")) ≢ octet_stream)
    × (to_lowercase (extension_of (codes "/a/b.CSS")) ≢ codes "gzip"))
is_static_file_iff_example = is_static_file_iff (codes "/a/b.CSS")

abbrev sample_headers : Headers
sample_headers name =
    if text_eq name (codes "Authorization") then some (some (codes "Bearer t1")) else none

-- One file on the disk.
abbrev only : Text → Files
only path = record {
  exists = λ q. text_eq q path;
  is_file = λ q. text_eq q path;
  read = λ q. if text_eq q path then some (codes "body") else none;
  metadata = λ q.
      if text_eq q path
      then some (record { len = 4; modified_secs = 9; last_modified = codes "then" })
      else none;
}

abbrev css : Files
css = only (codes "pub/a.css")

serve_static_file_ok_example :
    (contains (clean (codes "/a.css")) (codes "..") ≡ false)
    × (css.is_file (served_path (codes "pub") (codes "/a.css")) ≡ true)
    × (css.read (served_path (codes "pub") (codes "/a.css")) ≡ some (codes "body"))
unfolding serve_static_file text_eq contains trim_start_matches
serve_static_file_ok_example =
    serve_static_file_ok css (codes "pub") (codes "/a.css") 60 _ refl refl

find_php_file_outside_example :
    find_php_file (only (codes "pub.php")) (codes "pub") (codes "/") ≡ some (codes "pub.php")
unfolding text_eq
find_php_file_outside_example =
    find_php_file_outside (only (codes "pub.php")) b'p' (codes "ub") (refl, (refl, (refl, tt)))
      (refl, (refl, (refl, tt))) refl refl

abbrev three_requests : List (ℕ × ℕ)
three_requests = (0, 100) ∷ (1, 200) ∷ (0, 300) ∷ []

-- One chunk cannot be written, one file cannot be created, and one cannot be removed.
abbrev sample_disk : Disk
sample_disk = record {
  create = λ id. if id == 4 then false else true;
  write = λ id bytes. if length bytes == 3 then false else true;
  remove = λ id. if id == 6 then false else true;
}

abbrev file_field : Text → Field
file_field name = record {
  name = some name;
  file_name = some (codes "x.txt");
  content_type = none;
  value = none;
  chunks = chunk (1 ∷ 2 ∷ []) finished;
}

abbrev sample_fields : List Field
sample_fields =
    file_field (codes "a")
    ∷ file_field (codes "b")
    ∷ record (file_field (codes "c")) { chunks = chunk (1 ∷ []) (chunk (1 ∷ 2 ∷ 3 ∷ []) finished) }
    ∷ record (file_field (codes "d")) { chunks = broken }
    ∷ record (file_field (codes "e")) { file_name = none; value = some (codes "v") }
    ∷ []

abbrev sample_uuid : ℕ → Text
sample_uuid id = codes "u"

clean_up-add_fields_example :
    (let form =
        add_fields sample_disk sample_uuid
          (codes "/tmp/")
          3
          sample_fields
          (record empty_form { temporary = 1 ∷ 2 ∷ [] }) in
      Leaves sample_disk 3 (1 ∷ 2 ∷ []) (clean_up sample_disk form.uploaded form.temporary))
clean_up-add_fields_example =
    clean_up-add_fields sample_disk sample_uuid (codes "/tmp/") 3 (1 ∷ 2 ∷ []) sample_fields
      (omega arith, (omega arith, tt))

abbrev sample_request : PhpRequest
sample_request = record {
  method = codes "GET";
  uri = codes "/a.php";
  file_path = codes "public/a.php";
  query_string = [];
  query_params = [];
  post_params = [];
  cookies = [];
  headers = [];
  body = [];
  content_type = [];
  content_length = codes "0";
  files = [];
}

abbrev sample_response : PhpResponse
sample_response = record { status = 200; body = codes "hi"; memory = 1; peak = 2; headers = [] }

abbrev sample_peer : Peer
sample_peer = record {
  connect = λ path. none;
  write = λ bytes. none;
  reply = λ framed. frame (codes "{}") ++ (7 ∷ []);
  io_error = codes "eof";
  to_json = λ r. ok (codes "{}");
  from_json = λ bytes. ok sample_response;
}

sample_peer-bytes : (sent : List ℕ) → All (λ b. b < 256) (sample_peer.reply sent)
unfolding frame
sample_peer-bytes sent = (
  omega arith,
  (omega arith, (omega arith, (omega arith, (omega arith, (omega arith, (omega arith, tt)))))),
)

send_to_php_worker_iff_example :
    (send_to_php_worker sample_peer (codes "/tmp/s/worker_0.sock") sample_request
      ≡ ok sample_response)
    ↔ Succeeds sample_peer (codes "/tmp/s/worker_0.sock") sample_request sample_response
send_to_php_worker_iff_example =
    send_to_php_worker_iff sample_peer (codes "/tmp/s/worker_0.sock") sample_request sample_response
      sample_peer-bytes

-- The exchange succeeds.
exchange-Succeeds :
    Succeeds sample_peer (codes "/tmp/s/worker_0.sock") sample_request sample_response
unfolding send_to_php_worker frame read_frame
exchange-Succeeds =
    (send_to_php_worker_iff sample_peer (codes "/tmp/s/worker_0.sock") sample_request
        sample_response sample_peer-bytes).0
      refl

find_php_file_plain_example :
    find_php_file (only (codes "pub/a.php")) (codes "pub") (codes "/a") ≡ some (codes "pub/a.php")
unfolding text_eq
find_php_file_plain_example =
    find_php_file_plain b'p' (codes "ub") (refl, (refl, (refl, tt))) (refl, (refl, (refl, tt))) b'a'
      [] (refl, tt) (refl, tt) (only (codes "pub/a.php"))
