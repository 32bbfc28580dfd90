-- ===== src/Peer/Tests.antt =====
-- Identities and distances at concrete values, as in peer/identity_test.go.
use noise.Peer.Bits.{common_prefix, bits}
use noise.Base.Hex.{hex_encode}
use noise.Base.Int.{pos}
use noise.Peer.Distance.{IsPair, prefix_len-xor_id}
use noise.Base.{
  ◌*◌, ◌+◌, ◌-◌, [], arith, bytes_beq, false, length, map, min, refl, some, true, ◌∷◌, ◌≡◌,
}
use noise.Peer.{
  PeerId, create_id, xor_id, prefix_len, xor, less, equals, public_key_hex, bytes_lt, pos,
  hex_encode, xor_bytes, leading_zeros8, prefix_from,
}

program : Unit {0}
unfolding create_id equals bytes_beq bytes_lt less public_key_hex hex_encode xor_bytes xor xor_id
    leading_zeros8 prefix_from prefix_len
program = tt

abbrev left : PeerId
left = record { address = b'a' ∷ []; public_key = 49 ∷ 50 ∷ []; id = 0x10 ∷ 0x0f ∷ [] }

abbrev right : PeerId
right = record { address = b'b' ∷ []; public_key = 49 ∷ 51 ∷ []; id = 0x10 ∷ 0x1f ∷ [] }

create_id_runs :
    create_id (λ k. map (λ b. b + 1) k) (b'a' ∷ []) (1 ∷ 2 ∷ [])
    ≡ record { address = b'a' ∷ []; public_key = 1 ∷ 2 ∷ []; id = 2 ∷ 3 ∷ [] }
unfolding program
create_id_runs = refl

distance_runs : (xor_id left right).id ≡ 0 ∷ 0x10 ∷ []
unfolding program
distance_runs = refl

prefix_len_runs : prefix_len (xor_id left right) ≡ pos 11
unfolding program
prefix_len_runs = refl

xor_runs : (xor left right).public_key ≡ 0 ∷ 1 ∷ []
unfolding program
xor_runs = refl

less_runs : less left (some right) ≡ true
unfolding program
less_runs = refl

equals_runs : equals left right ≡ false
unfolding program
equals_runs = refl

hex_runs : public_key_hex left ≡ b'3' ∷ b'1' ∷ b'3' ∷ b'2' ∷ []
unfolding program
hex_runs = refl

close-IsPair : IsPair left right
close-IsPair = record { same_length = refl; left_bytes = omega arith; right_bytes = omega arith }

prefix_len-xor_id_example :
    prefix_len (xor_id left right)
    ≡ pos (min (common_prefix (bits left.id) (bits right.id)) (length left.id * 8 - 1))
prefix_len-xor_id_example = prefix_len-xor_id left right close-IsPair (omega arith)
