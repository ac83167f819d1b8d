-- ===== src/DbProxy/Packet/Framing.antt =====
-- The frames of the wire: three bytes of length, one of sequence number, and the payload.
use bakpia_run.Prelude.{
  ℕ, ◌+◌, ◌*◌, ◌^◌, ◌<◌, ◌≡◌, refl, ◌⊎◌, inl, inr, ◌≤◌, Bool-cases, length-drop, [], ◌∷◌, ◌++◌,
  arith, leb, if◌then◌else◌, length, take, drop, length-append, take-length-append,
  drop-length-append,
}
use bakpia_run.DbProxy.Packet.{Bytes, build_packet}

pub record Frame : Type 0 where
  pub seq_id : ℕ
  pub payload : Bytes

-- What reading a frame from the connection gives.
pub data Incoming : Type 0 where
  hung_up : Incoming
  cut_short : Incoming
  received : Frame → Bytes → Incoming

-- The bytes of the length take disjoint bits, so that `|` is `+`.
unfoldable pub payload_len : ℕ → ℕ → ℕ → ℕ
payload_len a b c = a + b * 2 ^ 8 + c * 2 ^ 16

read_payload : ℕ → ℕ → Bytes → Incoming
read_payload len seq_id rest =
    if leb len (length rest)
    then received (record { seq_id = seq_id; payload = take len rest }) (drop len rest)
    else cut_short

-- Two calls of `read_exact` on what the client sends before it closes the connection.
unfoldable pub read_frame : Bytes → Incoming
unfolding payload_len read_payload
read_frame [] = hung_up
read_frame (a ∷ []) = hung_up
read_frame (a ∷ b ∷ []) = hung_up
read_frame (a ∷ b ∷ c ∷ []) = hung_up
read_frame (a ∷ b ∷ c ∷ seq_id ∷ rest) = read_payload (payload_len a b c) seq_id rest

read_payload-append :
    (len seq_id : ℕ) (payload rest : Bytes)
    → len ≡ length payload
    → read_payload len seq_id (payload ++ rest)
      ≡ received (record { seq_id = seq_id; payload = payload }) rest
unfolding read_payload
read_payload-append len seq_id payload rest e =
    rw (e, take-length-append payload rest, drop-length-append payload rest)
      (ground (arith, length-append payload rest))

-- A built packet of less than 2^24 bytes is read back whole, with its number, whatever follows it.
pub read_frame-build_packet :
    (seq_id : ℕ) (payload rest : Bytes)
    → length payload < 2 ^ 24
    → read_frame (build_packet seq_id payload ++ rest)
      ≡ received (record { seq_id = seq_id; payload = payload }) rest
unfolding read_frame build_packet
read_frame-build_packet seq_id payload rest h =
    read_payload-append _ seq_id payload rest (omega arith)

-- Reading a frame takes its four bytes at least.
abbrev pub Shrinks : Bytes → Incoming → Type 0
Shrinks input hung_up = Unit {0}
Shrinks input cut_short = Unit {0}
Shrinks input (received frame rest) = length rest + 4 ≤ length input

pub read_frame-Shrinks : (input : Bytes) → Shrinks input (read_frame input)
unfolding read_frame
read_frame-Shrinks [] = tt
read_frame-Shrinks (a ∷ []) = tt
read_frame-Shrinks (a ∷ b ∷ []) = tt
read_frame-Shrinks (a ∷ b ∷ c ∷ []) = tt
read_frame-Shrinks (a ∷ b ∷ c ∷ seq_id ∷ rest) =
    elim (Bool-cases (leb (payload_len a b c) (length rest))) [
      | inl fits ↦ rw fits (omega (arith, length-drop (payload_len a b c) rest))
      | inr short ↦ rw short tt
    ]

pub Incoming-cases :
    (r : Incoming)
    → (r ≡ hung_up) ⊎ ((r ≡ cut_short) ⊎ ((f : Frame) × (rest : Bytes) × (r ≡ received f rest)))
Incoming-cases hung_up = inl refl
Incoming-cases cut_short = inr (inl refl)
Incoming-cases (received f rest) = inr (inr (f, rest, refl))
