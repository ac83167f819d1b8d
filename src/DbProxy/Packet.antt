-- ===== src/DbProxy/Packet.antt =====
-- The packet builders of src-server/src/db_proxy/mod.rs. A byte vector is the list of its bytes.
pub mod Framing
use bakpia_run.Prelude.{
  ℕ, zero, suc, ◌+◌, ◌*◌, ◌/◌, ◌%◌, ◌^◌, List, [], ◌∷◌, ◌++◌, ltb, if◌then◌else◌, length, take,
  drop,
}
use bakpia_run.Text.{Text, codes}
use bakpia_run.Text.Decimal.{decimal}

abbrev pub Bytes : Type 0
Bytes = List ℕ

-- `(v >> k) as u8`
abbrev pub byte_at : ℕ → ℕ → ℕ
byte_at k v = v / 2 ^ k % 256

-- `v.to_le_bytes()` for a value of `n` bytes
abbrev pub to_le_bytes : ℕ → ℕ → Bytes
to_le_bytes zero v = []
to_le_bytes (suc n) v = v % 256 ∷ to_le_bytes n (v / 256)

unfoldable pub lenenc_int : ℕ → Bytes
lenenc_int val =
    if ltb val 251
    then byte_at 0 val ∷ []
    else if ltb val 65536
    then 0xfc ∷ byte_at 0 val ∷ byte_at 8 val ∷ []
    else if ltb val 16777216
    then 0xfd ∷ byte_at 0 val ∷ byte_at 8 val ∷ byte_at 16 val ∷ []
    else 0xfe
      ∷ byte_at 0 val
      ∷ byte_at 8 val
      ∷ byte_at 16 val
      ∷ byte_at 24 val
      ∷ byte_at 32 val
      ∷ byte_at 40 val
      ∷ byte_at 48 val
      ∷ byte_at 56 val
      ∷ []

unfoldable pub lenenc_str : Bytes → Bytes
unfolding lenenc_int
lenenc_str data_bytes = lenenc_int (length data_bytes) ++ data_bytes

-- `& 0xFF` is `% 256`.
unfoldable pub build_packet : ℕ → Bytes → Bytes
build_packet seq_id payload =
    let len = length payload in
    len % 256 ∷ len / 2 ^ 8 % 256 ∷ len / 2 ^ 16 % 256 ∷ seq_id ∷ payload

unfoldable pub ok_payload : ℕ → ℕ → Bytes
ok_payload affected_rows last_insert_id =
    0x00 ∷ lenenc_int affected_rows ++ lenenc_int last_insert_id ++ 0x02 ∷ 0x00 ∷ 0x00 ∷ 0x00 ∷ []

unfoldable pub build_ok_packet : ℕ → ℕ → ℕ → Bytes
unfolding ok_payload
build_ok_packet seq_id affected_rows last_insert_id =
    build_packet seq_id (ok_payload affected_rows last_insert_id)

unfoldable pub build_ok_packet_after_handshake : ℕ → Bytes
unfolding ok_payload
build_ok_packet_after_handshake seq_id = build_packet seq_id (ok_payload 0 0 ++ lenenc_str [])

unfoldable pub build_error_packet : ℕ → ℕ → Text → Bytes
build_error_packet seq_id error_code msg =
    build_packet seq_id (0xff ∷ error_code % 256 ∷ error_code / 2 ^ 8 % 256 ∷ codes "#HY000" ++ msg)

unfoldable pub build_eof_packet : ℕ → Bytes
build_eof_packet seq_id = build_packet seq_id (0xfe ∷ 0x00 ∷ 0x00 ∷ 0x02 ∷ 0x00 ∷ [])

unfoldable pub build_lenenc_int_packet : ℕ → ℕ → Bytes
build_lenenc_int_packet seq_id val = build_packet seq_id (lenenc_int val)

-- The column types that the match names; `unlisted` stands for the rest.
pub data ColumnType : Type 0 where
  tiny short long float double null longlong int24 date newdate time datetime : ColumnType
  timestamp year varchar var_string bit json newdecimal enum set blob : ColumnType
  tiny_blob medium_blob long_blob string geometry unlisted : ColumnType

unfoldable pub map_column_type : ColumnType → ℕ
map_column_type tiny = 1
map_column_type short = 2
map_column_type long = 3
map_column_type float = 4
map_column_type double = 5
map_column_type null = 6
map_column_type longlong = 8
map_column_type int24 = 9
map_column_type date = 10
map_column_type newdate = 10
map_column_type time = 11
map_column_type datetime = 12
map_column_type timestamp = 12
map_column_type year = 13
map_column_type varchar = 15
map_column_type var_string = 15
map_column_type bit = 16
map_column_type json = 245
map_column_type newdecimal = 246
map_column_type enum = 247
map_column_type set = 248
map_column_type blob = 252
map_column_type tiny_blob = 252
map_column_type medium_blob = 252
map_column_type long_blob = 252
map_column_type string = 253
map_column_type geometry = 255
map_column_type unlisted = 253

-- The payload that a column definition and a parameter definition share.
unfoldable pub definition_payload : Text → ℕ → Bytes
definition_payload name type_id =
    lenenc_str (codes "def")
    ++ lenenc_str []
    ++ lenenc_str []
    ++ lenenc_str []
    ++ lenenc_str name
    ++ lenenc_str name
    ++ 0x0c ∷ 0x21 ∷ 0x00 ∷ 0xff ∷ 0xff ∷ 0xff ∷ 0xff ∷ type_id ∷ 0x00 ∷ 0x00 ∷ 0x00 ∷ 0x00 ∷ 0x00
      ∷ []

unfoldable pub build_column_def_packet : ℕ → Text → ColumnType → Bytes
unfolding definition_payload map_column_type
build_column_def_packet seq_id name col_type =
    build_packet seq_id (definition_payload name (map_column_type col_type))

unfoldable pub build_stmt_param_def_packet : ℕ → ℕ → Bytes
unfolding definition_payload
build_stmt_param_def_packet seq_id param_num =
    build_packet seq_id (definition_payload (b'?' ∷ decimal param_num) 0xfd)

-- Twenty bytes from a clock reading in nanoseconds.
unfoldable pub scramble_from : ℕ → ℕ → ℕ → Bytes
scramble_from zero i seed = []
scramble_from (suc n) i seed = seed / 2 ^ (i % 8) % 256 ∷ scramble_from n (i + 1) seed

unfoldable pub generate_scramble : ℕ → Bytes
unfolding scramble_from
generate_scramble nanos = scramble_from 20 0 (nanos % 2 ^ 64)

unfoldable pub build_handshake_v10 : Bytes → Text → Bytes
build_handshake_v10 scramble version = build_packet 0 (
    10 ∷ (version ++ 0 ∷ [])
    ++ 1 ∷ 0 ∷ 0 ∷ 0 ∷ take 8 scramble
    ++ 0
      ∷ 0xff
      ∷ 0xc1
      ∷ 0x21
      ∷ 0x02
      ∷ 0x00
      ∷ 0x00
      ∷ 0x80
      ∷ 21
      ∷ 0
      ∷ 0
      ∷ 0
      ∷ 0
      ∷ 0
      ∷ 0
      ∷ 0
      ∷ 0
      ∷ 0
      ∷ 0
      ∷ take 12 (drop 8 scramble)
    ++ 0 ∷ codes "mysql_native_password"
    ++ 0 ∷ [])
