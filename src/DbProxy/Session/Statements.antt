-- ===== src/DbProxy/Session/Statements.antt =====
-- Prepared statements.
use bakpia_run.Prelude.{
  ◌==◌, if◌then◌else◌, ℕ, ◌+◌, ◌^◌, ◌≤◌, ◌<◌, ◌≡◌, refl, none, some, List, [], ◌∷◌, ◌++◌, arith,
  ==_refl,
}
use bakpia_run.Prelude.Maps.{get, nat_eq, get-insert, get-remove}
use bakpia_run.Text.{Text, codes}
use bakpia_run.DbProxy.Packet.{Bytes, to_le_bytes, build_error_packet}
use bakpia_run.DbProxy.Params.{parse_binary_parameters_safe, slice_from, le_at}
use bakpia_run.DbProxy.Substitute.{count_marks, substitute_parameters}
use bakpia_run.DbProxy.Session.{
  ConnectionState, Backend, queries_sent, continues, next_seq, handle_com_stmt_prepare,
  handle_com_stmt_close, handle_com_stmt_execute, stmt_id_of, execute_id, execute_found,
}

-- The payload of a command about a statement.
abbrev pub stmt_payload : ℕ → ℕ → Bytes → Bytes
stmt_payload command stmt_id tail = command ∷ (to_le_bytes 4 stmt_id ++ tail)

stmt_id_of_payload :
    (command stmt_id : ℕ) (tail : Bytes)
    → stmt_id < 2 ^ 32
    → stmt_id_of (stmt_payload command stmt_id tail) ≡ some stmt_id
unfolding stmt_id_of le_at
stmt_id_of_payload command i tail h = ground arith

-- Every statement has a number below the next one.
abbrev pub IsFresh : ConnectionState → Type 0
IsFresh st = (i : ℕ) → st.next_stmt_id ≤ i → get i st.statements ≡ none

-- Until the numbers wrap, a prepare takes a number that no statement has, gives it to its query, and
-- leaves every other statement as it was.
prepare-IsFresh :
    (st : ConnectionState) (seq_id : ℕ) (query : Text)
    → st.next_stmt_id + 1 < 2 ^ 32
    → IsFresh st
    → (let st' = (handle_com_stmt_prepare st seq_id query).state in
        IsFresh st'
        × (get st.next_stmt_id st.statements ≡ none)
        × ((i : ℕ)
            → get i st'.statements
              ≡ (if st.next_stmt_id == i then some query else get i st.statements)))
unfolding handle_com_stmt_prepare
prepare-IsFresh st seq_id query h fresh =
    let n = st.next_stmt_id in
    (
      λ i le. rw (get-insert n i query st.statements) (ground (arith, fresh i)),
      fresh n (omega arith),
      λ i. get-insert n i query st.statements,
    )

slice_from_payload :
    (command stmt_id : ℕ) (tail : Bytes)
    → slice_from (stmt_payload command stmt_id tail) 5 ≡ some tail
unfolding slice_from
slice_from_payload command i tail = ground arith

module _ (f32_text f64_text : ℕ → Text) (backend : Backend) where
  execute_found-queries :
      (st : ConnectionState) (sent : List Text) (seq_id : ℕ) (payload tail : Bytes) (query : Text)
      (params : List Text)
      → slice_from payload 5 ≡ some tail
      → parse_binary_parameters_safe tail (count_marks query) ≡ some params
      → (let filled = substitute_parameters query params in
          (execute_found f32_text f64_text backend st sent seq_id payload query).queries
          ≡ queries_sent (backend sent filled) filled)
  unfolding execute_found
  execute_found-queries st sent seq_id payload tail query params sl e =
      rw (sl, execute_found) (rw e)

  -- While the numbers are below 2^32, executing a statement right after it was prepared, with
  -- parameters that the parse reads, sends the database one query, the prepared text with the
  -- parsed parameters put in, or none if there is no connection to the database.
  pub execute-prepare :
      (st : ConnectionState) (sent : List Text) (seq_id seq_id' : ℕ) (query : Text) (tail : Bytes)
      (params : List Text)
      → st.next_stmt_id < 2 ^ 32
      → parse_binary_parameters_safe tail (count_marks query) ≡ some params
      → (let st' = (handle_com_stmt_prepare st seq_id query).state in
          let filled = substitute_parameters query params in
          (handle_com_stmt_execute f32_text f64_text backend st' sent seq_id'
            (stmt_payload 0x17 st.next_stmt_id tail)).queries
          ≡ queries_sent (backend sent filled) filled)
  unfolding handle_com_stmt_prepare handle_com_stmt_execute
  execute-prepare st sent seq_id seq_id' query tail params h e =
      let n = st.next_stmt_id in
      rw (stmt_id_of_payload 0x17 n tail h, handle_com_stmt_execute)
        (rw (get-insert n n query st.statements, execute_id, ==_refl n)
          (execute_found-queries _ sent seq_id' (stmt_payload 0x17 n tail) tail query params
            (slice_from_payload 0x17 n tail) e))

  -- Once a statement with a number below 2^32 is closed, executing it is answered by the error
  -- `Statement not found`, with nothing sent to the database and the connection going on. Every
  -- other statement stays.
  execute-close :
      (st : ConnectionState) (sent : List Text) (seq_id' stmt_id : ℕ) (tail tail' : Bytes)
      → stmt_id < 2 ^ 32
      → (let st' = (handle_com_stmt_close st (stmt_payload 0x19 stmt_id tail)).state in
          (handle_com_stmt_execute f32_text f64_text backend st' sent seq_id'
              (stmt_payload 0x17 stmt_id tail')
            ≡ record {
              state = st';
              packets =
                  build_error_packet (next_seq seq_id') 1105 (codes "Statement not found") ∷ [];
              queries = [];
              status = continues;
            })
          × ((i : ℕ) → get i st'.statements ≡ (if stmt_id == i then none else get i st.statements)))
  unfolding handle_com_stmt_close handle_com_stmt_execute
  execute-close st sent seq_id' stmt_id tail tail' h =
      rw (stmt_id_of_payload 0x19 stmt_id tail h, handle_com_stmt_close)
        (rw (stmt_id_of_payload 0x17 stmt_id tail' h, handle_com_stmt_execute)
          (
            rw (get-remove stmt_id stmt_id st.statements, execute_id, ==_refl stmt_id) refl,
            λ i. get-remove stmt_id i st.statements,
          ))
