-- ===== src/Wire/Tests.antt =====
-- Messages on a connection, where the encoding of a message is its content.
use noise.Wire.Stream.{receive_message_cut, receive_message-send_message}
use noise.Wire.Reads.{flat, Sound}
use noise.Wire.Serialize.{serialize_message_injective}
use noise.Base.{
  Bool, Bytes, List, Result, [], arith, done, false, none, ok, refl, some, ℕ, ◌∷◌, ◌≡◌,
}
use noise.Wire.{
  write_loop, Segment, SenderId, Message, Writer, send_message, receive_message, serialize_message,
  read_loop, check_message, accept, read_body, frame, be32, from_be32, padded, copy, overwrite,
  put_uint32, le32, write_loop, must_flush,
}

program : Unit {0}
unfolding send_message receive_message read_loop read_body frame be32 from_be32 padded accept
    check_message serialize_message copy overwrite put_uint32 le32 write_loop must_flush
program = tt

abbrev alice : SenderId
alice = record { public_key = some (1 ∷ []); address = 97 ∷ []; id = 9 ∷ [] }

abbrev body : Bytes
body = 5 ∷ []

abbrev hello : Message
hello = record {
  message = 5 ∷ 6 ∷ [];
  opcode = 1000;
  sender = some alice;
  signature = none;
  request_nonce = 0;
  message_nonce = 0;
  reply_flag = false;
}

abbrev encode : Message → Result ℕ Bytes
encode m = ok m.message

abbrev decode : Bytes → Result ℕ Message
decode bs = ok (record hello { message = bs })

abbrev never : Bytes → Bytes → Bytes → Bool
never key signed signature = false

abbrev plain : Writer ℕ
plain = record { buffered = none; flush_error = none; writes = (2, none) ∷ [] }

-- The frame of `hello` in three reads, and one byte of the next.
abbrev cut_up : List Segment
cut_up =
    record { bytes = 0 ∷ []; fails = false }
    ∷ record { bytes = 0 ∷ 0 ∷ 2 ∷ 5 ∷ []; fails = false }
    ∷ record { bytes = 6 ∷ 0 ∷ []; fails = false }
    ∷ []

sent : send_message encode decode never plain hello ≡ (0 ∷ 0 ∷ 0 ∷ 2 ∷ 5 ∷ 6 ∷ [], none)
unfolding program
sent = refl

received :
    receive_message encode decode never cut_up
    ≡ (done (ok hello), record { bytes = 0 ∷ []; fails = false } ∷ [])
unfolding program
received = refl

-- A header that says 4 with one byte after it: the message has three zeros.
cut_short :
    (receive_message encode decode never
      (record { bytes = 0 ∷ 0 ∷ 0 ∷ 4 ∷ 7 ∷ []; fails = false } ∷ [])).0
    ≡ done (ok (record hello { message = 7 ∷ 0 ∷ 0 ∷ 0 ∷ [] }))
unfolding program
cut_short = refl

signed_bytes :
    serialize_message alice (5 ∷ []) ≡ done (1 ∷ 0 ∷ 0 ∷ 0 ∷ 97 ∷ 1 ∷ 0 ∷ 0 ∷ 0 ∷ 9 ∷ 5 ∷ [])
unfolding program
signed_bytes = refl

serialize_message_injective_example :
    (alice.address ≡ alice.address) × (alice.id ≡ alice.id) × (body ≡ body)
serialize_message_injective_example =
    serialize_message_injective alice alice body body (omega arith) (omega arith) (omega arith)
      (omega arith) refl

receive_message-send_message_example :
    (left : List Segment) × (receive_message encode decode never cut_up
      ≡ (check_message encode decode never hello, left))
    × (flat left ≡ 0 ∷ [])
    × Sound left
unfolding program
receive_message-send_message_example =
    receive_message-send_message encode decode never plain hello (5 ∷ 6 ∷ []) (0 ∷ []) cut_up refl
      refl refl (refl, tt) (omega arith) (omega arith) refl (refl, (refl, (refl, tt)))

receive_message_cut_example :
    (receive_message encode decode never
      (record { bytes = 0 ∷ 0 ∷ 0 ∷ 4 ∷ 7 ∷ []; fails = false } ∷ [])).0
    ≡ accept encode decode never (7 ∷ 0 ∷ 0 ∷ 0 ∷ [])
unfolding program
receive_message_cut_example =
    receive_message_cut encode decode never 4 (7 ∷ [])
      (record { bytes = 0 ∷ 0 ∷ 0 ∷ 4 ∷ 7 ∷ []; fails = false } ∷ []) refl (refl, tt) (omega arith)
      (omega arith)
