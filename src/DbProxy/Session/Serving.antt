-- ===== src/DbProxy/Session/Serving.antt =====
-- The command loop, and its specification on lists of frames.
use mathlib.Core.Option
use bakpia_run.Prelude.{
  ℕ, zero, suc, ◌+◌, ◌^◌, ◌<◌, ◌≡◌, refl, ap, ◌∙◌, ◌⊎◌, inl, inr, Option, some, List, [], ◌∷◌, ◌++◌,
  arith, length, length-append, All,
}
use bakpia_run.Text.{Text}
use bakpia_run.DbProxy.Packet.{
  Bytes, build_packet, build_handshake_v10, build_ok_packet_after_handshake,
}
use bakpia_run.DbProxy.Packet.Framing.{
  Frame, received, read_frame, read_frame-build_packet, Shrinks, read_frame-Shrinks, Incoming-cases,
}
use bakpia_run.DbProxy.Session.{
  ConnectionState, new, Backend, Outcome, Status, continues, closed, aborted, Transcript, stopped,
  write_first, then_rest, handle_frame, serve, handle_client,
}

Status-cases : (s : Status) → (s ≡ continues) ⊎ ((s ≡ closed) ⊎ (s ≡ aborted))
Status-cases continues = inl refl
Status-cases closed = inr (inl refl)
Status-cases aborted = inr (inr refl)

-- A transcript comes out.
abbrev Ends : Option Transcript → Type 0
Ends r = (t : Transcript) × (r ≡ some t)

then_rest-Ends :
    (o : Outcome) (sent : List Text) (r : Option Transcript) → Ends r → Ends (then_rest o sent r)
then_rest-Ends o sent r (t, e) = elim (Status-cases o.status) [
  | inl s ↦ rw (s, e) (_, refl)
  | inr (inl s) ↦ rw s (_, refl)
  | inr (inr s) ↦ rw s (_, refl)
]

map-Ends : (f : Transcript → Transcript) (r : Option Transcript) → Ends r → Ends (Option.map f r)
map-Ends f r (t, e) = rw e (_, refl)

abbrev then_run : Outcome → List Text → Transcript → Transcript
then_run o sent more = elim o.status [
  | continues ↦ write_first o.packets more
  | closed ↦ stopped o.state o.packets sent closed
  | aborted ↦ stopped o.state o.packets sent aborted
]

then_rest-some :
    (o : Outcome) (sent : List Text) (t : Transcript)
    → then_rest o sent (some t) ≡ some (then_run o sent t)
then_rest-some o sent t = ground arith

module _ (f32_text f64_text : ℕ → Text) (backend : Backend) where
  serve-Ends :
      (fuel : ℕ) (st : ConnectionState) (sent : List Text) (input : Bytes)
      → length input < fuel
      → Ends (serve f32_text f64_text backend fuel st sent input)
  unfolding serve
  serve-Ends zero st sent input h = absurd (omega arith)
  serve-Ends (suc fuel) st sent input h = elim (Incoming-cases (read_frame input)) [
    | inl e ↦ rw (e, serve) (_, refl)
    | inr (inl e) ↦ rw (e, serve) (_, refl)
    | inr (inr (frame, rest, e)) ↦
        let o = handle_frame f32_text f64_text backend st sent frame.seq_id frame.payload in
        let less : Shrinks input (received frame rest) = rw e at (read_frame-Shrinks input) in
        rw (e, serve)
          (then_rest-Ends o _ _ (serve-Ends fuel o.state (sent ++ o.queries) rest (omega arith)))
  ]

  -- Whatever the client sends, the task of its connection ends, within as many rounds as the input
  -- has bytes.
  handle_client_ends :
      (scramble : Bytes) (server_version : Text) (input : Bytes)
      → (t : Transcript) × (handle_client f32_text f64_text backend
            (length input)
            scramble
            server_version
            input
          ≡ some t)
  unfolding handle_client
  handle_client_ends scramble server_version input = elim (Incoming-cases (read_frame input)) [
    | inl e ↦ rw (e, handle_client) (_, refl)
    | inr (inl e) ↦ rw (e, handle_client) (_, refl)
    | inr (inr (auth, rest, e)) ↦
        let less : Shrinks input (received auth rest) = rw e at (read_frame-Shrinks input) in
        rw (e, handle_client) (map-Ends _ _ (serve-Ends (length input) new [] rest (omega arith)))
  ]

  -- The commands one after the other, with no bytes: the specification of the loop.
  unfoldable pub run_commands : ConnectionState → List Text → List Frame → Transcript
  run_commands st sent [] = stopped st [] sent closed
  run_commands st sent (f ∷ fs) =
      let o = handle_frame f32_text f64_text backend st sent f.seq_id f.payload in
      let more = run_commands o.state (sent ++ o.queries) fs in then_run o (sent ++ o.queries) more

-- The bytes of a list of frames.
abbrev pub encode_frames : List Frame → Bytes
encode_frames [] = []
encode_frames (f ∷ fs) = build_packet f.seq_id f.payload ++ encode_frames fs

abbrev pub FitsFrame : Frame → Type 0
FitsFrame f = length f.payload < 2 ^ 24

length-build_packet :
    (seq_id : ℕ) (payload : Bytes) → length (build_packet seq_id payload) ≡ length payload + 4
unfolding build_packet
length-build_packet seq_id payload = omega arith

module _ (f32_text f64_text : ℕ → Text) (backend : Backend) where
  serve_step :
      (f : Frame) (fs : List Frame) (fuel : ℕ) (st : ConnectionState) (sent : List Text)
      → FitsFrame f
      → (let o = handle_frame f32_text f64_text backend st sent f.seq_id f.payload in
          serve f32_text f64_text backend fuel o.state (sent ++ o.queries) (encode_frames fs)
          ≡ some (run_commands f32_text f64_text backend o.state (sent ++ o.queries) fs))
      → serve f32_text f64_text backend (suc fuel) st sent (encode_frames (f ∷ fs))
        ≡ some (run_commands f32_text f64_text backend st sent (f ∷ fs))
  unfolding run_commands
  serve_step f fs fuel st sent fits ih =
      let o = handle_frame f32_text f64_text backend st sent f.seq_id f.payload in
      unfold serve in
      rw (read_frame-build_packet f.seq_id f.payload (encode_frames fs) fits, serve)
        (ap (then_rest o (sent ++ o.queries)) ih ∙ then_rest-some o _ _)

  serve-encode_frames :
      (fs : List Frame) (fuel : ℕ) (st : ConnectionState) (sent : List Text)
      → All FitsFrame fs
      → length (encode_frames fs) < fuel
      → serve f32_text f64_text backend fuel st sent (encode_frames fs)
        ≡ some (run_commands f32_text f64_text backend st sent fs)
  serve-encode_frames fs zero st sent fit h = absurd (omega arith)
  serve-encode_frames [] (suc fuel) st sent fit h = unfold serve read_frame run_commands in refl
  serve-encode_frames (f ∷ fs) (suc fuel) st sent (fits, fit) h =
      serve_step f fs fuel st sent fits (
        serve-encode_frames fs fuel _ _ fit (
          omega (
            arith,
            length-append (build_packet f.seq_id f.payload) (encode_frames fs),
            length-build_packet f.seq_id f.payload,
          )))

  -- A client that answers the greeting with one frame, sends any list of frames of less than 2^24
  -- bytes each and hangs up gets the greeting, the welcome, and then exactly what its frames call for
  -- when they are handled one after the other.
  pub handle_client-run_commands :
      (scramble : Bytes) (server_version : Text) (auth : Frame) (fs : List Frame)
      → FitsFrame auth
      → All FitsFrame fs
      → (let input = encode_frames (auth ∷ fs) in
          handle_client f32_text f64_text backend (length input) scramble server_version input
          ≡ some (
              write_first
                (build_handshake_v10 scramble server_version
                  ∷ build_ok_packet_after_handshake 2
                  ∷ [])
                (run_commands f32_text f64_text backend new [] fs)))
  unfolding handle_client
  handle_client-run_commands scramble server_version auth fs a fit =
      rw (read_frame-build_packet auth.seq_id auth.payload (encode_frames fs) a, handle_client)
        (rw (
          serve-encode_frames fs (length (encode_frames (auth ∷ fs))) new [] fit (
            omega (
              arith,
              length-append (build_packet auth.seq_id auth.payload) (encode_frames fs),
              length-build_packet auth.seq_id auth.payload,
            ))))
