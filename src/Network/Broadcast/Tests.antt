-- ===== src/Network/Broadcast/Tests.antt =====
-- A broadcast to two addresses, of which the first fails after two bytes.
use noise.Base.{
  ◌++◌, bytes_Key, number_Key, Bytes, List, [], arith, bytes_beq, done, false, none, ok, refl, some,
  ℕ, ◌∷◌, ◌≡◌, zero, suc, get_elem?, true,
}
use noise.Base.Maps.{load}
use noise.Client.{ping}
use noise.Crypto.{verify}
use noise.Network.Broadcast.{Passes, broadcast_by_addresses-Reaches}
use noise.Network.Context.{with_sign_message}
use noise.Network.Messages.{broadcast_by_addresses, numbered, prepare_message, unsigned_message}
use noise.Network.Samples.{
  key_policy-Lawful, net2, opcodes, other_address, peer_address, quiet, world,
}
use noise.Network.Signed.{HasIdentity}
use noise.Network.State.{ConnState, Network, World}
use noise.Network.Writes.{StandsOnce}
use noise.Opcode.{get_opcode}
use noise.Wire.{Message, Segment, Writer, frame, receive_message}
use noise.Wire.Reads.{flat}

abbrev signed : Message
signed = record (unsigned_message net2 1000 (5 ∷ [])) {
  signature = some (1 ∷ 2 ∷ 1 ∷ 0 ∷ 0 ∷ 0 ∷ 97 ∷ 1 ∷ 0 ∷ 0 ∷ 0 ∷ 3 ∷ 5 ∷ []);
}

-- Its encoding of a message is the body, and any bytes are decoded to the signed message with the
-- bytes as its body.
abbrev reading : World ℕ ℕ ℕ
reading = record world {
  unmarshal_message = λ bs. ok (record (numbered signed 5) { message = bs });
}

net2-HasIdentity : HasIdentity reading net2
net2-HasIdentity = record {
  lawful = key_policy-Lawful;
  paired = record { sized = refl; paired = refl };
  own_key = refl;
  has_address = omega arith;
  short_address = omega arith;
  short_id = omega arith;
}

opcode_of_ping :
    get_opcode reading.type_of reading.marshal reading.clone opcodes ping ≡ (1000, none)
unfolding get_opcode load
opcode_of_ping = refl

signed_prepared :
    prepare_message reading opcodes net2 (with_sign_message [] true) (some ping) ≡ done (ok signed)
unfolding prepare_message unsigned_message with_sign_message bytes_beq
signed_prepared = refl

abbrev listed : List Bytes
listed = other_address ∷ peer_address ∷ []

abbrev writers : ℕ → Writer ℕ
writers zero = record quiet { writes = (2, some 7) ∷ [] }
writers (suc n) = quiet

listed-StandsOnce : StandsOnce listed peer_address 1
listed-StandsOnce = record { here = refl; only = only_there }
  where
    only_there : (j : ℕ) → get_elem? listed j ≡ some peer_address → j ≡ 1
    only_there zero e = absurd (ground (arith, e))
    only_there (suc zero) e = refl
    only_there (suc (suc j)) e = absurd (ground (arith, e))

signed-Passes : Passes reading (writers 1) (numbered signed 5) (5 ∷ [])
unfolding numbered unsigned_message
signed-Passes = record {
  flushes = refl;
  takes = tt;
  encoded = refl;
  decoded = refl;
  some_bytes = omega arith;
  few_bytes = omega arith;
}

-- The frame in two reads, and a byte after it.
abbrev cut : List Segment
cut =
    record { bytes = 0 ∷ 0 ∷ []; fails = false }
    ∷ record { bytes = 0 ∷ 1 ∷ 5 ∷ 9 ∷ []; fails = false }
    ∷ []

cut-frame : flat cut ≡ frame (5 ∷ []) ++ (9 ∷ [])
unfolding frame
cut-frame = refl

peer_found :
    load peer_address net2.connections
    ≡ some (record { message_nonce = 4; written = []; write_deadline = 0 })
unfolding load bytes_beq
peer_found = refl

broadcast_by_addresses-Reaches_example :
    (net' : Network ℕ ℕ ℕ) × (st' : ConnState) × (broadcast_by_addresses reading writers 1 opcodes
        net2
        (with_sign_message [] true)
        (some ping)
        listed
      ≡ done net')
    × (load peer_address net'.connections ≡ some st')
    × (st'.message_nonce ≡ 5)
    × (st'.written ≡ [] ++ frame (5 ∷ []))
    × (left : List Segment) × (receive_message reading.marshal_message reading.unmarshal_message
          (verify reading.signature_policy reading.hash_policy)
          cut
        ≡ (done (ok (numbered signed 5)), left))
    × (flat left ≡ 9 ∷ [])
broadcast_by_addresses-Reaches_example =
    broadcast_by_addresses-Reaches reading writers 1 opcodes net2 (with_sign_message [] true) ping
      1000 (5 ∷ []) signed listed peer_address 1
      (record { message_nonce = 4; written = []; write_deadline = 0 }) (5 ∷ []) (9 ∷ []) cut
      net2-HasIdentity opcode_of_ping (omega arith) refl signed_prepared listed-StandsOnce
      peer_found signed-Passes cut-frame (refl, (refl, tt))
