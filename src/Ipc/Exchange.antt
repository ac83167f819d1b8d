-- ===== src/Ipc/Exchange.antt =====
-- src-server/src/ipc.rs: when an exchange with a worker succeeds.
use bakpia_run.Prelude.{
  ℕ, ◌/◌, ◌%◌, ◌^◌, ◌<◌, ◌≤◌, ◌≡◌, ◌↔◌, ◌⊎◌, refl, sym, ap, ◌∙◌, inl, inr, arith, List, [], ◌∷◌,
  ◌++◌, All, length, length-take, leb, take, drop, suc, zero, none, Bool-cases, Option-cases,
}
use mathlib.Core.Path.{subst}
use bakpia_run.Text.{Text}
use bakpia_run.Handler.Request.{PhpRequest, PhpResponse}
use bakpia_run.Ipc.{
  Peer, SendResult, ok, err, to_be_bytes, send_to_php_worker, write_and_read, parse_reply,
  from_be_bytes, frame, read_frame,
}
use bakpia_run.Ipc.Frames.{read_frame-frame}

-- The connection is made, the request is written whole, and what comes back starts with the frame of
-- an answer that serde reads as the response.
pub record Succeeds (p : Peer) (socket_path : Text) (request : PhpRequest) (response : PhpResponse)
    : Type 0 where
  payload : List ℕ
  answer_payload : List ℕ
  more : List ℕ
  connected : p.connect socket_path ≡ none
  json : p.to_json request ≡ ok payload
  head : p.write (to_be_bytes (length payload % 2 ^ 32)) ≡ none
  body : p.write payload ≡ none
  short : length answer_payload < 2 ^ 32
  replied : p.reply (frame payload) ≡ frame answer_payload ++ more
  parsed : p.from_json answer_payload ≡ ok response

be_bytes_of :
    (b1 b2 b3 b4 : ℕ)
    → b1 < 256
    → b2 < 256
    → b3 < 256
    → b4 < 256
    → (from_be_bytes b1 b2 b3 b4 < 2 ^ 32)
      × (from_be_bytes b1 b2 b3 b4 / 2 ^ 24 % 256 ≡ b1)
      × (from_be_bytes b1 b2 b3 b4 / 2 ^ 16 % 256 ≡ b2)
      × (from_be_bytes b1 b2 b3 b4 / 2 ^ 8 % 256 ≡ b3)
      × (from_be_bytes b1 b2 b3 b4 % 256 ≡ b4)
be_bytes_of b1 b2 b3 b4 h1 h2 h3 h4 = (
  omega (arith, h1, h2, h3, h4),
  omega (arith, h1, h2, h3, h4),
  omega (arith, h1, h2, h3, h4),
  omega (arith, h1, h2, h3, h4),
  omega (arith, h1, h2, h3, h4),
)

take-drop : (n : ℕ) (xs : List ℕ) → take n xs ++ drop n xs ≡ xs
take-drop zero xs = refl
take-drop (suc n) [] = refl
take-drop (suc n) (x ∷ xs) = ap (λ ys. x ∷ ys) (take-drop n xs)

be_bytes_whole : (n : ℕ) → n < 2 ^ 32 → to_be_bytes (n % 2 ^ 32) ≡ to_be_bytes n
be_bytes_whole n h = let same : n % 2 ^ 32 ≡ n = omega (arith, h) in ap to_be_bytes same

frame_of :
    (b1 b2 b3 b4 : ℕ) (rest : List ℕ)
    → b1 < 256
    → b2 < 256
    → b3 < 256
    → b4 < 256
    → from_be_bytes b1 b2 b3 b4 ≤ length rest
    → (length (take (from_be_bytes b1 b2 b3 b4) rest) < 2 ^ 32)
      × ((b1 ∷ b2 ∷ b3 ∷ b4 ∷ rest)
          ≡ frame (take (from_be_bytes b1 b2 b3 b4) rest) ++ drop (from_be_bytes b1 b2 b3 b4) rest)
unfolding frame
frame_of b1 b2 b3 b4 rest h1 h2 h3 h4 fits =
    let n = from_be_bytes b1 b2 b3 b4 in
    let (below, e1, e2, e3, e4) = be_bytes_of b1 b2 b3 b4 h1 h2 h3 h4 in
    let size : length (take n rest) ≡ n = length-take n rest ∙ omega (arith, fits) in
    let bytes : to_be_bytes (length (take n rest) % 2 ^ 32) ≡ b1 ∷ b2 ∷ b3 ∷ b4 ∷ [] =
      ap (λ k. to_be_bytes (k % 2 ^ 32)) size ∙ be_bytes_whole n below ∙ rw (e1, e2, e3, e4) refl in
    (
      omega (arith, size, below),
      sym (
          ap (λ bs. bs ++ (take n rest ++ drop n rest)) bytes
          ∙ ap (λ ys. b1 ∷ b2 ∷ b3 ∷ b4 ∷ ys) (take-drop n rest)),
    )

-- What is read is the payload of a frame that the stream starts with.
read_frame-ok :
    (io_error : Text) (stream answer : List ℕ)
    → All (λ b. b < 256) stream
    → read_frame io_error stream ≡ ok answer
    → (more : List ℕ) × (length answer < 2 ^ 32) × (stream ≡ frame answer ++ more)
unfolding read_frame
read_frame-ok io_error [] answer h e = absurd (ground (arith, e))
read_frame-ok io_error (b1 ∷ []) answer h e = absurd (ground (arith, e))
read_frame-ok io_error (b1 ∷ b2 ∷ []) answer h e = absurd (ground (arith, e))
read_frame-ok io_error (b1 ∷ b2 ∷ b3 ∷ []) answer h e = absurd (ground (arith, e))
read_frame-ok io_error (b1 ∷ b2 ∷ b3 ∷ b4 ∷ rest) answer (h1, (h2, (h3, (h4, h)))) e =
    let n = from_be_bytes b1 b2 b3 b4 in
    elim (Bool-cases (leb n (length rest))) [
      | inr cut ↦ absurd (ground (arith, cut, e))
      | inl fits ↦
          let same : take n rest ≡ answer = ground (arith, fits, e) in
          let (short, split) = frame_of b1 b2 b3 b4 rest h1 h2 h3 h4 (ground (arith, fits)) in
          (
            drop n rest,
            subst (λ (a : List ℕ). length a < 2 ^ 32) same short,
            split ∙ ap (λ a. frame a ++ drop n rest) same,
          )
    ]

parse_reply-ok :
    (p : Peer) (o : SendResult (List ℕ)) (response : PhpResponse)
    → parse_reply p o ≡ ok response
    → (answer : List ℕ) × (o ≡ ok answer) × (p.from_json answer ≡ ok response)
unfolding parse_reply
parse_reply-ok p (err e) response h = absurd (ground (arith, h))
parse_reply-ok p (ok answer) response h = (answer, refl, ground (arith, h))

SendResult-cases :
    {A : Type 0} (o : SendResult A) → ((e : Text) × (o ≡ err e)) ⊎ ((a : A) × (o ≡ ok a))
SendResult-cases (err e) = inl (e, refl)
SendResult-cases (ok a) = inr (a, refl)

send_to_php_worker-Succeeds :
    (p : Peer) (socket_path : Text) (request : PhpRequest) (response : PhpResponse)
    → ((sent : List ℕ) → All (λ b. b < 256) (p.reply sent))
    → send_to_php_worker p socket_path request ≡ ok response
    → Succeeds p socket_path request response
unfolding send_to_php_worker write_and_read
send_to_php_worker-Succeeds p socket_path request response bytes h =
    elim (Option-cases (p.connect socket_path)) [
      | inr (e, fails) ↦ absurd (ground (arith, fails, h))
      | inl connected ↦ elim (SendResult-cases (p.to_json request)) [
        | inl (e, fails) ↦ absurd (ground (arith, connected, fails, h))
        | inr (payload, json) ↦
            elim (Option-cases (p.write (to_be_bytes (length payload % 2 ^ 32)))) [
              | inr (e, fails) ↦ absurd (ground (arith, connected, json, fails, h))
              | inl head ↦ elim (Option-cases (p.write payload)) [
                | inr (e, fails) ↦ absurd (ground (arith, connected, json, head, fails, h))
                | inl body ↦
                    let reply = p.reply (frame payload) in
                    let read : parse_reply p (read_frame p.io_error reply) ≡ ok response =
                      ground (arith, connected, json, head, body, h) in
                    let (answer, got, parsed) = parse_reply-ok p _ response read in
                    let (more, short, replied) =
                      read_frame-ok p.io_error reply answer (bytes (frame payload)) got in
                    record {
                      payload = payload;
                      answer_payload = answer;
                      more = more;
                      connected = connected;
                      json = json;
                      head = head;
                      body = body;
                      short = short;
                      replied = replied;
                      parsed = parsed;
                    }
              ]
            ]
      ]
    ]

Succeeds-send_to_php_worker :
    (p : Peer) (socket_path : Text) (request : PhpRequest) (response : PhpResponse)
    → Succeeds p socket_path request response
    → send_to_php_worker p socket_path request ≡ ok response
unfolding send_to_php_worker write_and_read parse_reply
Succeeds-send_to_php_worker p socket_path request response v =
    simp (v.connected, send_to_php_worker)
      (simp (v.json, send_to_php_worker)
        (simp (v.head, write_and_read)
          (simp (v.body, write_and_read)
            (simp
              (
                v.replied,
                read_frame-frame p.io_error v.answer_payload v.more v.short,
                parse_reply,
                v.parsed,
              )
              refl))))

-- When what comes back over the socket are bytes, the call gives a response exactly when the
-- connection is made, the request is serialized, both of its writes succeed, and what comes back starts
-- with the frame of an answer of less than 4 GiB that serde reads as this response.
pub send_to_php_worker_iff :
    (p : Peer) (socket_path : Text) (request : PhpRequest) (response : PhpResponse)
    → ((sent : List ℕ) → All (λ b. b < 256) (p.reply sent))
    → (send_to_php_worker p socket_path request ≡ ok response)
      ↔ Succeeds p socket_path request response
send_to_php_worker_iff p socket_path request response bytes = (
  (λ h. send_to_php_worker-Succeeds p socket_path request response bytes h),
  (λ v. Succeeds-send_to_php_worker p socket_path request response v),
)
