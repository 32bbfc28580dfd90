-- ===== src/Wire.antt =====
-- network/stream.go and `SerializeMessage` of network/utils.go: how messages are framed, written
-- and read. The encoding of messages is protobuf's and the connection the operating system's.
pub mod Words
pub mod Serialize
pub mod Reads
pub mod Stream
mod Tests
use noise.Base.{
  ◌%◌, ◌*◌, ◌+◌, ◌++◌, ◌-◌, ◌/◌, ◌>>=◌, Bool, Bytes, List, Option, Outcome, [], done, drop, false,
  if◌then◌else◌, leb, length, ltb, nat_beq, panic, replicate, suc, take, true, zero, ℕ, ◌∷◌, ◌&&◌,
  Result, err, none, ok, some, ◌||◌,
}

-- The least significant bytes of a number, four of them.
unfoldable pub le32 : ℕ → Bytes
le32 v = v % 256 ∷ v / 256 % 256 ∷ v / 65536 % 256 ∷ v / 16777216 % 256 ∷ []

unfoldable pub be32 : ℕ → Bytes
be32 v = v / 16777216 % 256 ∷ v / 65536 % 256 ∷ v / 256 % 256 ∷ v % 256 ∷ []

-- `binary.BigEndian.Uint32`, which reads four bytes.
unfoldable pub from_be32 : Bytes → ℕ
from_be32 (a ∷ b ∷ c ∷ d ∷ rest) = a * 16777216 + b * 65536 + c * 256 + d
from_be32 bs = 0

abbrev pub u32_mod : ℕ
u32_mod = 4294967296

-- `protobuf.ID`; `none` is a nil slice.
pub record SenderId : Type 0 where
  pub public_key : Option Bytes
  pub address : Bytes
  pub id : Bytes

-- `protobuf.Message`.
pub record Message : Type 0 where
  pub message : Bytes
  pub opcode : ℕ
  pub sender : Option SenderId
  pub signature : Option Bytes
  pub request_nonce : ℕ
  pub message_nonce : ℕ
  pub reply_flag : Bool

-- `copy` onto the front.
unfoldable pub overwrite : Bytes → Bytes → Bytes
overwrite [] src = []
overwrite (d ∷ ds) [] = d ∷ ds
overwrite (d ∷ ds) (s ∷ ss) = s ∷ overwrite ds ss

-- `copy(dst[pos:], src)`: a slice from beyond the end panics.
unfoldable pub copy : Bytes → ℕ → Bytes → Outcome Bytes
unfolding overwrite
copy dst zero src = done (overwrite dst src)
copy [] (suc pos) src = panic
copy (d ∷ ds) (suc pos) src = copy ds pos src >>= λ out. done (d ∷ out)

-- `binary.LittleEndian.PutUint32(dst[pos:], v)`: four bytes must be there.
unfoldable pub put_uint32 : Bytes → ℕ → ℕ → Outcome Bytes
unfolding copy le32
put_uint32 dst pos v =
    if ltb (length dst) (pos + 4) then panic else copy dst pos (le32 (v % u32_mod))

unfoldable pub serialize_message : SenderId → Bytes → Outcome Bytes
unfolding copy put_uint32
serialize_message id message =
    let size = 4 + length id.address + 4 + length id.id + length message in
    put_uint32 (replicate size 0) 0 (length id.address) >>= λ s1. copy s1 4 id.address >>= λ s2.
    put_uint32 s2 (4 + length id.address) (length id.id) >>= λ s3.
    copy s3 (4 + length id.address + 4) id.id >>= λ s4.
    copy s4 (4 + length id.address + 4 + length id.id) message >>= λ s5.
    if nat_beq (4 + length id.address + 4 + length id.id + length message) size
    then done s5
    else panic

-- What one `Read` finds: the bytes there are, and whether an error comes with the last of them.
pub record Segment : Type 0 where
  pub bytes : Bytes
  pub fails : Bool

-- The bytes that are read, whether there was an error, and what is left of the connection. After
-- its last segment a connection is at its end, which is an error.
pub record Reading : Type 0 where
  pub read : Bytes
  pub failed : Bool
  pub left : List Segment

-- The loop that reads until `need` bytes are there or a `Read` fails.
unfoldable pub read_loop : ℕ → List Segment → Reading
read_loop need [] =
    if nat_beq need 0
    then record { read = []; failed = false; left = [] }
    else record { read = []; failed = true; left = [] }
read_loop need (s ∷ ss) =
    let rest = read_loop (need - length s.bytes) ss in
    if nat_beq need 0
    then record { read = []; failed = false; left = s ∷ ss }
    else if leb (length s.bytes) need
    then if s.fails
      then record { read = s.bytes; failed = true; left = ss }
      else record { read = s.bytes ++ rest.read; failed = rest.failed; left = rest.left }
    else record {
      read = take need s.bytes;
      failed = false;
      left = record s { bytes = drop need s.bytes } ∷ ss;
    }

-- The buffer of `size` bytes after the loop: what was not read is zero.
unfoldable pub padded : ℕ → Bytes → Bytes
padded size bs = bs ++ replicate (size - length bs) 0

-- What the functions answer with in place of a value.
pub data WireError (E : Type 0) : Type 0 where
  not_marshalled : E → WireError E
  not_flushed : E → WireError E
  not_written : E → WireError E
  empty_msg : WireError E
  too_large : ℕ → WireError E
  not_unmarshalled : E → WireError E
  invalid_headers : WireError E
  bad_signature : WireError E

-- An `io.Writer`: for a `bufio.Writer` its `Buffered()` and `Available()`; the error of `Flush`; and
-- of each `Write` in turn, how many bytes it takes and its error. After these, one takes all.
pub record Writer (E : Type 0) : Type 0 where
  pub buffered : Option (ℕ × ℕ)
  pub flush_error : Option E
  pub writes : List (ℕ × Option E)

-- The loop that writes until all is written or a `Write` fails: the bytes and the error.
unfoldable pub write_loop : {E : Type 0} → Bytes → List (ℕ × Option E) → Bytes × Option E
write_loop buffer [] = (buffer, none)
write_loop [] (w ∷ ws) = ([], none)
write_loop (b ∷ bs) ((n, some e) ∷ ws) = (take n (b ∷ bs), some e)
write_loop (b ∷ bs) ((n, none) ∷ ws) =
    let (out, e) = write_loop (drop n (b ∷ bs)) ws in (take n (b ∷ bs) ++ out, e)

-- `isBuffered && (bw.Buffered() > 0) && (bw.Available() < totalSize)`.
unfoldable pub must_flush : Option (ℕ × ℕ) → ℕ → Bool
must_flush none size = false
must_flush (some (held, available)) size = ltb 0 held && ltb available size

-- `buffer` before it is written.
unfoldable pub frame : Bytes → Bytes
unfolding be32
frame bytes = be32 (length bytes % u32_mod) ++ bytes

module _ {E : Type 0} (marshal : Message → Result E Bytes) (unmarshal : Bytes → Result E Message)
    (verify : Bytes → Bytes → Bytes → Bool) where
  -- The bytes that the writer gets, and the error: none is nil.
  unfoldable pub send_message : Writer E → Message → Bytes × Option (WireError E)
  unfolding frame must_flush write_loop
  send_message w message = elim (marshal message) [
    | err e ↦ ([], some (not_marshalled e))
    | ok bytes ↦
        let (out, failure) = write_loop (frame bytes) w.writes in
        let written : Bytes × Option (WireError E) = elim failure [
          | none ↦ (out, none)
          | some e ↦ (out, some (not_written e))
        ] in
        if must_flush w.buffered (length (frame bytes))
        then elim w.flush_error [ none ↦ written | some e ↦ ([], some (not_flushed e)) ]
        else written
  ]

  -- The checks of a message from line 109 of the file on.
  unfoldable pub check_message : Message → Outcome (Result (WireError E) Message)
  unfolding serialize_message
  check_message msg = elim msg.sender [
    | none ↦ done (err invalid_headers)
    | some sender ↦ elim sender.public_key [
      | none ↦ done (err invalid_headers)
      | some public_key ↦
          if nat_beq msg.opcode 0 || nat_beq (length sender.address) 0
          then done (err invalid_headers)
          else elim msg.signature [
            | none ↦ done (ok msg)
            | some signature ↦ serialize_message sender msg.message >>= λ signed.
                if verify public_key signed signature
                then done (ok msg)
                else done (err bad_signature)
          ]
    ]
  ]

  unfoldable pub accept : Bytes → Outcome (Result (WireError E) Message)
  unfolding check_message
  accept buffer = elim (unmarshal buffer) [
    | err e ↦ done (err (not_unmarshalled e))
    | ok msg ↦ check_message msg
  ]

  -- What the loop for the body starts with: an error of the loop for the header keeps it from
  -- reading.
  unfoldable pub read_body : Reading → ℕ → Reading
  unfolding read_loop
  read_body header size =
      if header.failed
      then record { read = []; failed = true; left = header.left }
      else read_loop size header.left

  -- The message, and what is left of the connection.
  unfoldable pub receive_message :
      List Segment → Outcome (Result (WireError E) Message) × List Segment
  unfolding accept read_body padded from_be32
  receive_message conn =
      let header = read_loop 4 conn in
      let size = from_be32 (padded 4 header.read) in
      let body = read_body header size in
      if nat_beq size 0
      then (done (err empty_msg), header.left)
      else if ltb 4000000 size
      then (done (err (too_large size)), header.left)
      else (accept (padded size body.read), body.left)
