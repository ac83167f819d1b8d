-- ===== src/DbProxy/Session/Numbering.antt =====
-- The numbers of the packets that answer a command.
use bakpia_run.Prelude.{
  ℕ, zero, suc, ◌+◌, ◌%◌, ◌≡◌, ◌<◌, ◌∙◌, refl, inl, inr, Bool, true, false, Option, none, some,
  List, [], ◌∷◌, ◌++◌, arith, ltb, ◌==◌, if◌then◌else◌, Bool-cases, Option-cases, ◌>>=◌, get_elem?,
}
use bakpia_run.Prelude.Maps.{get, nat_eq}
use bakpia_run.Text.{Text, codes}
use bakpia_run.DbProxy.Packet.{
  Bytes, build_packet, build_ok_packet, build_error_packet, build_eof_packet,
  build_lenenc_int_packet, build_column_def_packet, build_stmt_param_def_packet,
}
use bakpia_run.DbProxy.Rows.{Value, build_row_packet, build_row_packet_binary}
use bakpia_run.DbProxy.Params.{parse_binary_parameters_safe, slice_from}
use bakpia_run.DbProxy.Substitute.{count_marks}
use bakpia_run.DbProxy.Session.{
  ConnectionState, Column, ResultSet, Reply, unavailable, refused, answered, Backend, Outcome,
  next_seq, seq_after, column_packets, row_packets, rows_and_eof, result_packets, answer,
  param_def_packets, prepare_rest, handle_com_stmt_prepare, stmt_id_of, handle_com_stmt_close,
  execute_found, execute_id, handle_frame,
}

-- The packets carry the sequence numbers from the given one on, each one more than the last, mod 256.
abbrev pub Numbered : ℕ → List Bytes → Type 0
Numbered seq [] = Unit {0}
Numbered seq (p ∷ ps) = (get_elem? p 3 ≡ some seq) × Numbered (next_seq seq) ps

Numbered-append :
    (seq : ℕ) (ps qs : List Bytes)
    → Numbered seq ps
    → Numbered (seq_after seq ps) qs
    → Numbered seq (ps ++ qs)
unfolding seq_after
Numbered-append seq [] qs h k = k
Numbered-append seq (p ∷ ps) qs (e, h) k = (e, Numbered-append (next_seq seq) ps qs h k)

-- The packets of columns and rows are as many as these.
column_packets-Numbered :
    (seq : ℕ) (cs : List Column)
    → Numbered seq (column_packets seq cs)
      × (seq_after seq (column_packets seq cs) ≡ seq_after seq cs)
unfolding column_packets seq_after
column_packets-Numbered seq [] = (tt, refl)
column_packets-Numbered seq (c ∷ cs) =
    let (h, e) = column_packets-Numbered (next_seq seq) cs in
    ((unfold build_column_def_packet build_packet in refl, h), e)

abbrev IsPacket : (ℕ → List Value → Bytes) → Type 0
IsPacket row_packet = (seq : ℕ) (vs : List Value) → get_elem? (row_packet seq vs) 3 ≡ some seq

row_packets-Numbered :
    (row_packet : ℕ → List Value → Bytes)
    → IsPacket row_packet
    → (seq : ℕ) (rs : List (List Value))
    → Numbered seq (row_packets row_packet seq rs)
      × (seq_after seq (row_packets row_packet seq rs) ≡ seq_after seq rs)
unfolding row_packets seq_after
row_packets-Numbered row_packet h seq [] = (tt, refl)
row_packets-Numbered row_packet h seq (r ∷ rs) =
    let (k, e) = row_packets-Numbered row_packet h (next_seq seq) rs in ((h seq r, k), e)

eof-Numbered : (seq : ℕ) → Numbered seq (build_eof_packet seq ∷ [])
unfolding build_eof_packet build_packet
eof-Numbered seq = (refl, tt)

error-Numbered : (seq : ℕ) (msg : Text) → Numbered seq (build_error_packet seq 1105 msg ∷ [])
unfolding build_error_packet build_packet
error-Numbered seq msg = (refl, tt)

ok-Numbered : (seq a b : ℕ) → Numbered seq (build_ok_packet seq a b ∷ [])
unfolding build_ok_packet build_packet
ok-Numbered seq a b = (refl, tt)

module _ (row_packet : ℕ → List Value → Bytes) (h : IsPacket row_packet) where
  rows_and_eof-Numbered : (seq : ℕ) (r : ResultSet) → Numbered seq (rows_and_eof row_packet seq r).0
  unfolding rows_and_eof
  rows_and_eof-Numbered seq r =
      let (k, e) = row_packets-Numbered row_packet h seq r.rows in
      elim (Bool-cases r.rows_end_well) [
        | inl b ↦ simp b (
            Numbered-append seq (row_packets row_packet seq r.rows) _ k
              (rw e (eof-Numbered (seq_after seq r.rows))))
        | inr b ↦ simp b k
      ]

  result_packets-Numbered :
      (seq : ℕ) (r : ResultSet) (cs : List Column)
      → Numbered seq (result_packets row_packet seq r cs).0
  unfolding result_packets
  result_packets-Numbered seq r [] = ok-Numbered seq r.affected_rows _
  result_packets-Numbered seq r (c ∷ cs) =
      let (k, e) = column_packets-Numbered (next_seq seq) (c ∷ cs) in
      let eof = seq_after (next_seq seq) (c ∷ cs) in
      (
        unfold build_lenenc_int_packet build_packet in refl,
        Numbered-append (next_seq seq) (column_packets (next_seq seq) (c ∷ cs)) _ k
            (rw e ((eof-Numbered eof).0, rows_and_eof-Numbered (next_seq eof) r)),
      )

  answer-Numbered :
      (seq_id : ℕ) (r : Reply) → Numbered (next_seq seq_id) (answer row_packet seq_id r).0
  unfolding answer
  answer-Numbered seq_id (unavailable e) = error-Numbered _ e
  answer-Numbered seq_id (refused e) = error-Numbered _ e
  answer-Numbered seq_id (answered r) = elim (Option-cases r.columns) [
    | inl e ↦ simp e tt
    | inr (cs, e) ↦ simp e (result_packets-Numbered (next_seq seq_id) r cs)
  ]

param_def_packets-Numbered :
    (n i seq : ℕ)
    → seq < 256
    → Numbered seq (param_def_packets n i seq)
      × (seq_after seq (param_def_packets n i seq) ≡ (seq + n) % 256)
unfolding param_def_packets seq_after
param_def_packets-Numbered zero i seq h = (tt, omega arith)
param_def_packets-Numbered (suc n) i seq h =
    let (k, e) = param_def_packets-Numbered n (i + 1) (next_seq seq) (omega arith) in
    ((unfold build_stmt_param_def_packet build_packet in refl, k), e ∙ omega arith)

prepare_rest-Numbered : (n seq : ℕ) → seq < 256 → Numbered seq (prepare_rest n seq)
unfolding prepare_rest
prepare_rest-Numbered n seq h = elim (Bool-cases (ltb 0 n)) [
  | inl b ↦
      let (k, e) = param_def_packets-Numbered n 0 seq h in
      rw b (
        Numbered-append seq (param_def_packets n 0 seq) _ k
          (rw e ((eof-Numbered ((seq + n) % 256)).0, eof-Numbered (next_seq ((seq + n) % 256)))))
  | inr b ↦ rw b (eof-Numbered seq)
]

prepare-Numbered :
    (st : ConnectionState) (seq_id : ℕ) (query : Text)
    → Numbered (next_seq seq_id) (handle_com_stmt_prepare st seq_id query).packets
unfolding handle_com_stmt_prepare
prepare-Numbered st seq_id query = (
  unfold build_packet in refl,
  prepare_rest-Numbered _ (next_seq (next_seq seq_id)) (omega arith),
)

close-Numbered :
    (st : ConnectionState) (seq_id : ℕ) (payload : Bytes)
    → Numbered (next_seq seq_id) (handle_com_stmt_close st payload).packets
unfolding handle_com_stmt_close
close-Numbered st seq_id payload = elim (Option-cases (stmt_id_of payload)) [
  | inl e ↦ rw (e, handle_com_stmt_close) tt
  | inr (i, e) ↦ rw (e, handle_com_stmt_close) tt
]

if-Numbered :
    (b : Bool) (seq : ℕ) (o p : Outcome)
    → Numbered seq o.packets
    → Numbered seq p.packets
    → Numbered seq (if b then o else p).packets
if-Numbered true seq o p h k = h
if-Numbered false seq o p h k = k

module _ (f32_text f64_text : ℕ → Text) (backend : Backend) where
  text_row-IsPacket : IsPacket (build_row_packet f32_text f64_text)
  unfolding build_row_packet build_packet
  text_row-IsPacket seq vs = refl

  binary_row-IsPacket : IsPacket build_row_packet_binary
  unfolding build_row_packet_binary build_packet
  binary_row-IsPacket seq vs = refl

  execute_found-Numbered :
      (st : ConnectionState) (sent : List Text) (seq_id : ℕ) (payload : Bytes) (query : Text)
      → Numbered
          (next_seq seq_id)
          (execute_found f32_text f64_text backend st sent seq_id payload query).packets
  unfolding execute_found
  execute_found-Numbered st sent seq_id payload query =
      elim (Option-cases
        (slice_from payload 5 >>= λ s. parse_binary_parameters_safe s (count_marks query))) [
          | inl e ↦ rw (e, execute_found) tt
          | inr (ps, e) ↦
              rw (e, execute_found)
                (answer-Numbered build_row_packet_binary binary_row-IsPacket seq_id _)
        ]

  execute_id-Numbered :
      (st : ConnectionState) (sent : List Text) (seq_id : ℕ) (payload : Bytes) (i : Option ℕ)
      → Numbered
          (next_seq seq_id)
          (execute_id f32_text f64_text backend st sent seq_id payload i).packets
  unfolding execute_id
  execute_id-Numbered st sent seq_id payload none = error-Numbered _ _
  execute_id-Numbered st sent seq_id payload (some i) = elim (Option-cases (get i st.statements)) [
    | inl e ↦ rw (e, execute_id) (error-Numbered (next_seq seq_id) (codes "Statement not found"))
    | inr (q, e) ↦ rw (e, execute_id) (execute_found-Numbered st sent seq_id payload q)
  ]

  -- Whatever the command and whatever the database replies, the packets that answer a frame carry the
  -- numbers that follow the frame's own, one after the other and modulo 256.
  pub handle_frame-Numbered :
      (st : ConnectionState) (sent : List Text) (seq_id : ℕ) (payload : Bytes)
      → Numbered
          (next_seq seq_id)
          (handle_frame f32_text f64_text backend st sent seq_id payload).packets
  unfolding handle_frame
  handle_frame-Numbered st sent seq_id [] = tt
  handle_frame-Numbered st sent seq_id (command ∷ tail) =
      if-Numbered (command == 0x03) _ _ _
        (answer-Numbered (build_row_packet f32_text f64_text) text_row-IsPacket seq_id _)
        (if-Numbered (command == 0x09) _ _ _ (prepare-Numbered st seq_id _) (
          if-Numbered (command == 0x17) _ _ _
            (execute_id-Numbered st sent seq_id (command ∷ tail) (stmt_id_of (command ∷ tail)))
            (if-Numbered (command == 0x19) _ _ _ (close-Numbered st seq_id (command ∷ tail)) (
              if-Numbered (command == 0x16) _ _ _ (ok-Numbered (next_seq seq_id) 0 0) (
                if-Numbered (command == 0x02) _ _ _ (ok-Numbered (next_seq seq_id) 0 0) (
                  if-Numbered (command == 0x01) _ _ _ tt (
                    if-Numbered (command == 0x0e) _ _ _ (ok-Numbered (next_seq seq_id) 0 0)
                      tt)))))))
