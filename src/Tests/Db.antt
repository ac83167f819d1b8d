-- ===== src/Tests/Db.antt =====
-- The database proxy: src-server/src/db_proxy/mod.rs.
use bakpia_run.Prelude.{◌≡◌, some, List, [], ◌∷◌, ◌++◌, arith, length, map}
use bakpia_run.Prelude.Maps.{get, nat_eq}
use bakpia_run.Text.{Text, codes}
use bakpia_run.DbProxy.Packet.{
  Bytes, lenenc_str, build_packet, build_handshake_v10, build_ok_packet_after_handshake,
}
use bakpia_run.DbProxy.Packet.Framing.{read_frame, received, read_frame-build_packet}
use bakpia_run.DbProxy.Rows.{null, build_row_packet_binary}
use bakpia_run.DbProxy.Rows.Nulls.{build_row_packet_binary-null}
use bakpia_run.DbProxy.Params.{parse_binary_parameters_safe}
use bakpia_run.DbProxy.Params.Total.{parse_binary_parameters_safe_total}
use bakpia_run.DbProxy.Params.Encoding.{execute_payload}
use bakpia_run.DbProxy.Params.Integers.{
  tiny, long, type_of, body_of, printed, parse-execute_payload,
}
use bakpia_run.DbProxy.Params.Offsets.{parse_second_string}
use bakpia_run.DbProxy.Substitute.{
  count_marks, substitute_parameters, fill, substitute_parameters-eq-fill,
  substitute_parameters_nested,
}
use bakpia_run.DbProxy.Session.{
  new, next_seq, handle_com_stmt_prepare, handle_com_stmt_execute, handle_frame, handle_client,
  write_first,
}
use bakpia_run.DbProxy.Session.Numbering.{Numbered, handle_frame-Numbered}
use bakpia_run.DbProxy.Session.Statements.{stmt_payload, IsFresh, execute-prepare}
use bakpia_run.DbProxy.Session.Serving.{run_commands, encode_frames, handle_client-run_commands}
use bakpia_run.Tests.Samples.{no_float, refusing, auth_frame, two_frames, one_statement}

handle_client-run_commands_example :
    handle_client no_float no_float refusing
      (length (encode_frames (auth_frame ∷ two_frames)))
      (1 ∷ 2 ∷ [])
      (codes "8.0.36")
      (encode_frames (auth_frame ∷ two_frames))
    ≡ some (
        write_first
          (build_handshake_v10 (1 ∷ 2 ∷ []) (codes "8.0.36")
            ∷ build_ok_packet_after_handshake 2
            ∷ [])
          (run_commands no_float no_float refusing new [] two_frames))
handle_client-run_commands_example =
    handle_client-run_commands no_float no_float refusing (1 ∷ 2 ∷ []) (codes "8.0.36") auth_frame
      two_frames (omega arith) (omega arith, (omega arith, tt))

parse_binary_parameters_safe_total_example :
    (ps : List Text) × (parse_binary_parameters_safe (0 ∷ 0 ∷ 0 ∷ 0 ∷ 0 ∷ 0 ∷ 1 ∷ 3 ∷ []) 2
      ≡ some ps)
    × (length ps ≡ 2)
parse_binary_parameters_safe_total_example =
    parse_binary_parameters_safe_total (0 ∷ 0 ∷ 0 ∷ 0 ∷ 0 ∷ 0 ∷ 1 ∷ 3 ∷ []) 2

parse-execute_payload_example :
    parse_binary_parameters_safe
      (execute_payload (map type_of (tiny 200 ∷ long 7 ∷ [])) (body_of (tiny 200 ∷ long 7 ∷ [])))
      (length (tiny 200 ∷ long 7 ∷ []))
    ≡ some (map printed (tiny 200 ∷ long 7 ∷ []))
parse-execute_payload_example =
    parse-execute_payload (tiny 200) (long 7 ∷ []) (omega arith, (omega arith, tt))

parse_second_string_example :
    parse_binary_parameters_safe
      (execute_payload (0xfd ∷ 0xfd ∷ []) (lenenc_str [] ++ lenenc_str (codes "abc")))
      2
    ≡ some (codes "''" ∷ (b'\'' ∷ 0 ∷ b'\'' ∷ []) ∷ [])
parse_second_string_example = parse_second_string (codes "abc")

substitute_parameters-eq-fill_example :
    substitute_parameters (codes "a=? b=?") (codes "1" ∷ codes "2" ∷ [])
    ≡ fill (codes "a=? b=?") (codes "1" ∷ codes "2" ∷ [])
substitute_parameters-eq-fill_example =
    substitute_parameters-eq-fill (codes "a=? b=?") (codes "1" ∷ codes "2" ∷ [])
      ((ground arith, tt), ((ground arith, tt), tt))

substitute_parameters_nested_example :
    substitute_parameters
      (codes "a=" ++ (b'?' ∷ codes ",?"))
      ((codes "'" ++ (b'?' ∷ codes "'")) ∷ codes "2" ∷ [])
    ≡ codes "a=" ++ (codes "'" ++ (codes "2" ++ (codes "'" ++ codes ",?")))
substitute_parameters_nested_example =
    substitute_parameters_nested (codes "a=") (codes ",?") (codes "'") (codes "2") (codes "'")
      (ground arith, (ground arith, tt)) (ground arith, tt)

read_frame-build_packet_example :
    read_frame (build_packet 3 (7 ∷ 8 ∷ []) ++ (9 ∷ []))
    ≡ received (record { seq_id = 3; payload = 7 ∷ 8 ∷ [] }) (9 ∷ [])
read_frame-build_packet_example = read_frame-build_packet 3 (7 ∷ 8 ∷ []) (9 ∷ []) (omega arith)

build_row_packet_binary-null_example :
    build_row_packet_binary 4 ([] ++ (null ∷ null ∷ []))
    ≡ build_row_packet_binary 4 (null ∷ ([] ++ (null ∷ [])))
build_row_packet_binary-null_example = build_row_packet_binary-null 4 [] (null ∷ [])

handle_frame-Numbered_example :
    Numbered
      (next_seq 0)
      (handle_frame no_float no_float refusing new [] 0 (3 ∷ codes "SELECT 1")).packets
handle_frame-Numbered_example =
    handle_frame-Numbered no_float no_float refusing new [] 0 (3 ∷ codes "SELECT 1")

one_statement-IsFresh : IsFresh one_statement
unfolding get
one_statement-IsFresh i le = ground arith

abbrev one_value : Bytes
one_value = execute_payload (map type_of (tiny 200 ∷ [])) (body_of (tiny 200 ∷ []))

one_param :
    parse_binary_parameters_safe one_value (count_marks (codes "SELECT ?"))
    ≡ some (map printed (tiny 200 ∷ []))
unfolding count_marks
one_param = parse-execute_payload (tiny 200) [] (omega arith, tt)

execute-prepare_example :
    (handle_com_stmt_execute no_float no_float refusing
      (handle_com_stmt_prepare one_statement 0 (codes "SELECT ?")).state
      []
      0
      (stmt_payload 0x17 2 one_value)).queries
    ≡ substitute_parameters (codes "SELECT ?") (map printed (tiny 200 ∷ [])) ∷ []
execute-prepare_example =
    execute-prepare no_float no_float refusing one_statement [] 0 0 (codes "SELECT ?") one_value
      (map printed (tiny 200 ∷ [])) (omega arith) one_param
