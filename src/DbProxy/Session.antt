-- ===== src/DbProxy/Session.antt =====
-- The commands of one client connection and the loop that reads them. Arithmetic on `u8`, `u16` and
-- `u32` wraps, as in a release build. The database behind the proxy is a parameter, and a write to
-- the client succeeds.
pub mod Numbering
pub mod Statements
pub mod Serving
use bakpia_run.Prelude.{
  ℕ, zero, suc, ◌+◌, ◌*◌, ◌/◌, ◌%◌, ◌^◌, Bool, true, false, Option, none, some, List, [], ◌∷◌, ◌++◌,
  ltb, leb, ◌==◌, if◌then◌else◌, length, drop, ◌>>=◌,
}
use mathlib.Core.Option
use bakpia_run.Prelude.Maps.{get, insert, remove, nat_eq}
use bakpia_run.Text.{Text, codes}
use bakpia_run.Text.Utf8.{from_utf8_lossy}
use bakpia_run.DbProxy.Packet.{
  Bytes, ColumnType, to_le_bytes, build_packet, build_ok_packet, build_ok_packet_after_handshake,
  build_error_packet, build_eof_packet, build_lenenc_int_packet, build_column_def_packet,
  build_stmt_param_def_packet, build_handshake_v10,
}
use bakpia_run.DbProxy.Packet.Framing.{Frame, Incoming, hung_up, cut_short, received, read_frame}
use bakpia_run.DbProxy.Rows.{Value, build_row_packet, build_row_packet_binary}
use bakpia_run.DbProxy.Params.{parse_binary_parameters_safe, le_at, slice_from}
use bakpia_run.DbProxy.Substitute.{count_marks, substitute_parameters}

pub record ConnectionState : Type 0 where
  pub statements : List (ℕ × Text)
  pub next_stmt_id : ℕ

pub new : ConnectionState
new = record { statements = []; next_stmt_id = 1 }

pub record Column : Type 0 where
  pub name : Text
  pub col_type : ColumnType

-- What a query that the database accepts gives: its columns, or the counts of a statement that has
-- none, and the rows until the end or an error.
pub record ResultSet : Type 0 where
  pub columns : Option (List Column)
  pub rows : List (List Value)
  pub rows_end_well : Bool
  pub affected_rows : ℕ
  pub last_insert_id : Option ℕ

pub data Reply : Type 0 where
  unavailable : Text → Reply
  refused : Text → Reply
  answered : ResultSet → Reply

-- The pool of connections to the database, given the queries that it has been sent so far.
abbrev pub Backend : Type 0
Backend = List Text → Text → Reply

-- How the task of the connection goes on: with the next command, to its end, or to an error or panic.
pub data Status : Type 0 where
  continues closed aborted : Status

-- The packets that a command sends to the client and the queries that it sends to the database.
pub record Outcome : Type 0 where
  pub state : ConnectionState
  pub packets : List Bytes
  pub queries : List Text
  pub status : Status

abbrev pub queries_sent : Reply → Text → List Text
queries_sent (unavailable e) query = []
queries_sent (refused e) query = query ∷ []
queries_sent (answered r) query = query ∷ []

abbrev reply_with : ConnectionState → List Bytes → Outcome
reply_with st packets = record { state = st; packets = packets; queries = []; status = continues }

-- `seq_id + 1` on a `u8`
abbrev pub next_seq : ℕ → ℕ
next_seq s = (s + 1) % 256

unfoldable pub column_packets : ℕ → List Column → List Bytes
column_packets seq [] = []
column_packets seq (c ∷ cs) =
    build_column_def_packet seq c.name c.col_type ∷ column_packets (next_seq seq) cs

unfoldable pub seq_after {ℓ} : {A : Type ℓ} → ℕ → List A → ℕ
seq_after seq [] = seq
seq_after seq (x ∷ xs) = seq_after (next_seq seq) xs

module _ (row_packet : ℕ → List Value → Bytes) where
  pub row_packets : ℕ → List (List Value) → List Bytes
  row_packets seq [] = []
  row_packets seq (r ∷ rs) = row_packet seq r ∷ row_packets (next_seq seq) rs

  -- From the end of the columns on; the last packet is missing if the rows end in an error.
  pub rows_and_eof : ℕ → ResultSet → List Bytes × Status
  unfolding row_packets seq_after
  rows_and_eof seq r =
      if r.rows_end_well
      then (row_packets seq r.rows ++ build_eof_packet (seq_after seq r.rows) ∷ [], continues)
      else (row_packets seq r.rows, aborted)

  result_packets : ℕ → ResultSet → List Column → List Bytes × Status
  unfolding rows_and_eof column_packets seq_after
  result_packets seq r [] = (
    build_ok_packet seq r.affected_rows (elim r.last_insert_id [ none ↦ 0 | some i ↦ i ]) ∷ [],
    continues,
  )
  result_packets seq r (c ∷ cs) =
      let first = next_seq seq in
      let eof = seq_after first (c ∷ cs) in
      let (rest, status) = rows_and_eof (next_seq eof) r in
      (
        build_lenenc_int_packet seq (length (c ∷ cs))
            ∷ (column_packets first (c ∷ cs) ++ build_eof_packet eof ∷ rest),
        status,
      )

  -- `answer` is the part that COM_QUERY and COM_STMT_EXECUTE share.
  unfoldable pub answer : ℕ → Reply → List Bytes × Status
  unfolding result_packets
  answer seq_id (unavailable e) = (build_error_packet (next_seq seq_id) 1105 e ∷ [], continues)
  answer seq_id (refused e) = (build_error_packet (next_seq seq_id) 1105 e ∷ [], continues)
  answer seq_id (answered r) = elim r.columns [
    | none ↦ ([], aborted)
    | some columns ↦ result_packets (next_seq seq_id) r columns
  ]

unfoldable pub param_def_packets : ℕ → ℕ → ℕ → List Bytes
param_def_packets zero i seq = []
param_def_packets (suc n) i seq =
    build_stmt_param_def_packet seq i ∷ param_def_packets n (i + 1) (next_seq seq)

unfoldable pub prepare_ok : ℕ → ℕ → Bytes
prepare_ok stmt_id num_params =
    0x00
    ∷ (to_le_bytes 4 stmt_id
        ++ (to_le_bytes 2 0 ++ (to_le_bytes 2 num_params ++ (0x00 ∷ 0x00 ∷ 0x00 ∷ []))))

-- The packets behind the first: the definitions and their end, if there are any, and one more end.
unfoldable pub prepare_rest : ℕ → ℕ → List Bytes
unfolding param_def_packets
prepare_rest num_params seq =
    if ltb 0 num_params
    then (let eof = (seq + num_params) % 256 in
        param_def_packets num_params 0 seq
        ++ build_eof_packet eof ∷ build_eof_packet (next_seq eof) ∷ [])
    else build_eof_packet seq ∷ []

unfoldable pub handle_com_stmt_prepare : ConnectionState → ℕ → Text → Outcome
unfolding prepare_rest
handle_com_stmt_prepare st seq_id query =
    let stmt_id = st.next_stmt_id in
    let num_params = count_marks query % 2 ^ 16 in
    reply_with
      (record {
        statements = insert stmt_id query st.statements;
        next_stmt_id = (stmt_id + 1) % 2 ^ 32;
      })
      (build_packet (next_seq seq_id) (prepare_ok stmt_id num_params)
        ∷ prepare_rest num_params (next_seq (next_seq seq_id)))

-- `payload[1..5]` as the number of a statement, where the payload has five bytes.
unfoldable pub stmt_id_of : Bytes → Option ℕ
stmt_id_of payload = if ltb (length payload) 5 then none else le_at 4 payload 1

unfoldable pub handle_com_stmt_close : ConnectionState → Bytes → Outcome
handle_com_stmt_close st payload = elim (stmt_id_of payload) [
  | none ↦ reply_with st []
  | some stmt_id ↦ reply_with (record st { statements = remove stmt_id st.statements }) []
]

-- Everything that a connection has done until its task ended.
pub record Transcript : Type 0 where
  pub final : ConnectionState
  pub written : List Bytes
  pub sent : List Text
  pub ending : Status

abbrev stopped : ConnectionState → List Bytes → List Text → Status → Transcript
stopped st packets sent status = record {
  final = st;
  written = packets;
  sent = sent;
  ending = status;
}

abbrev pub write_first : List Bytes → Transcript → Transcript
write_first packets t = record t { written = packets ++ t.written }

-- After a command: the rest of the connection, if the command lets it go on.
abbrev pub then_rest : Outcome → List Text → Option Transcript → Option Transcript
then_rest o sent rest = elim o.status [
  | continues ↦ Option.map (write_first o.packets) rest
  | closed ↦ some (stopped o.state o.packets sent closed)
  | aborted ↦ some (stopped o.state o.packets sent aborted)
]

module _ (f32_text f64_text : ℕ → Text) (backend : Backend) where
  -- Without a connection to the database no query goes out.
  abbrev send : (ℕ → List Value → Bytes) → ConnectionState → List Text → ℕ → Text → Outcome
  send row_packet st sent seq_id query =
      let (packets, status) = answer row_packet seq_id (backend sent query) in
      record {
        state = st;
        packets = packets;
        queries = queries_sent (backend sent query) query;
        status = status;
      }

  unfoldable pub handle_com_query : ConnectionState → List Text → ℕ → Text → Outcome
  handle_com_query st sent seq_id query =
      send (build_row_packet f32_text f64_text) st sent seq_id query

  -- A statement that was found: its parameters are parsed and put in, and the query is sent.
  execute_found : ConnectionState → List Text → ℕ → Bytes → Text → Outcome
  execute_found st sent seq_id payload query =
      elim (slice_from payload 5 >>= λ s. parse_binary_parameters_safe s (count_marks query)) [
        | none ↦ record { state = st; packets = []; queries = []; status = aborted }
        | some params ↦
            send build_row_packet_binary st sent seq_id (substitute_parameters query params)
      ]

  execute_id : ConnectionState → List Text → ℕ → Bytes → Option ℕ → Outcome
  unfolding execute_found
  execute_id st sent seq_id payload none =
      reply_with st
        (build_error_packet (next_seq seq_id) 1105 (codes "Invalid COM_STMT_EXECUTE packet") ∷ [])
  execute_id st sent seq_id payload (some stmt_id) = elim (get stmt_id st.statements) [
    | none ↦
        reply_with st (build_error_packet (next_seq seq_id) 1105 (codes "Statement not found") ∷ [])
    | some query ↦ execute_found st sent seq_id payload query
  ]

  unfoldable pub handle_com_stmt_execute : ConnectionState → List Text → ℕ → Bytes → Outcome
  unfolding execute_id
  handle_com_stmt_execute st sent seq_id payload =
      execute_id st sent seq_id payload (stmt_id_of payload)

  -- The match on the command byte; `tail` is `payload[1..]`.
  dispatch : ConnectionState → List Text → ℕ → ℕ → Bytes → Outcome
  unfolding handle_com_query handle_com_stmt_execute
  dispatch st sent seq_id command tail =
      if command == 0x03
      then handle_com_query st sent seq_id (from_utf8_lossy tail)
      else if command == 0x09
      then handle_com_stmt_prepare st seq_id (from_utf8_lossy tail)
      else if command == 0x17
      then handle_com_stmt_execute st sent seq_id (command ∷ tail)
      else if command == 0x19
      then handle_com_stmt_close st (command ∷ tail)
      else if command == 0x16
      then reply_with st (build_ok_packet (next_seq seq_id) 0 0 ∷ [])
      else if command == 0x02
      then reply_with st (build_ok_packet (next_seq seq_id) 0 0 ∷ [])
      else if command == 0x01
      then record { state = st; packets = []; queries = []; status = closed }
      else if command == 0x0e
      then reply_with st (build_ok_packet (next_seq seq_id) 0 0 ∷ [])
      else reply_with st []

  -- A frame with no payload is passed over.
  unfoldable pub handle_frame : ConnectionState → List Text → ℕ → Bytes → Outcome
  unfolding dispatch
  handle_frame st sent seq_id [] = reply_with st []
  handle_frame st sent seq_id (command ∷ tail) = dispatch st sent seq_id command tail

  -- The command loop on what the client sends until it closes the connection. `none` means that the
  -- fuel ran out; each frame takes four bytes at least.
  unfoldable pub serve : ℕ → ConnectionState → List Text → Bytes → Option Transcript
  serve zero st sent input = none
  serve (suc fuel) st sent input = elim (read_frame input) [
    | hung_up ↦ some (stopped st [] sent closed)
    | cut_short ↦ some (stopped st [] sent aborted)
    | received frame rest ↦
        let o = handle_frame st sent frame.seq_id frame.payload in
        then_rest o (sent ++ o.queries) (serve fuel o.state (sent ++ o.queries) rest)
  ]

  -- The whole task: greeting, whatever the client answers, and then the commands.
  unfoldable pub handle_client : ℕ → Bytes → Text → Bytes → Option Transcript
  unfolding new
  handle_client fuel scramble server_version input =
      let greeting = build_handshake_v10 scramble server_version in
      elim (read_frame input) [
        | hung_up ↦ some (stopped new (greeting ∷ []) [] aborted)
        | cut_short ↦ some (stopped new (greeting ∷ []) [] aborted)
        | received auth rest ↦
            Option.map (write_first (greeting ∷ build_ok_packet_after_handshake 2 ∷ []))
              (serve fuel new [] rest)
      ]
