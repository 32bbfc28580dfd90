-- ===== src/Opcode/Tests.antt =====
-- Registrations of messages, where a message is the number of its type and its encoding.
use noise.Opcode.Tables.{
  Agree, Allowed, init-Agree, register_message_type-get, Reason, register_message_type-Reason,
}
use noise.Opcode.{
  store_pair, Registry, register_message_type, get_opcode, get_message_type, init, reserved,
  not_empty, ping_code, Fault,
}
use noise.Base.{number_Key, Bytes, Result, [], arith, none, ok, refl, some, ℕ, ◌∷◌, ◌≡◌, ◌≢◌, ◌⊎◌}
use noise.Base.Maps.{load, store, delete}

program : Unit {0}
unfolding load store delete store_pair init register_message_type get_message_type get_opcode
program = tt

abbrev Sample : Type 0
Sample = ℕ × Bytes

abbrev kind : Sample → ℕ
kind (t, raw) = t

abbrev encode : Sample → Result ℕ Bytes
encode (t, raw) = ok raw

abbrev copied : Sample → Sample
copied m = m

-- The tables of `init`.
abbrev started : Registry Sample ℕ
started = init kind encode copied (1, []) (2, []) (3, []) (4, []) (5, [])

abbrev chat : Sample
chat = (6, [])

started-Agree : Agree kind encode copied started
started-Agree = init-Agree kind encode copied (1, []) (2, []) (3, []) (4, []) (5, [])

chat-Allowed : Allowed kind encode copied started 1000 chat
unfolding program
chat-Allowed = (omega arith, refl, refl)

low_code : register_message_type kind encode copied started 999 chat ≡ (started, some reserved)
unfolding program
low_code = refl

full_message :
    register_message_type kind encode copied started 1000 (6, 1 ∷ []) ≡ (started, some not_empty)
unfolding program
full_message = refl

ping_known : get_opcode kind encode copied started (2, []) ≡ (ping_code, none)
unfolding program
ping_known = refl

register_message_type-Reason_example :
    (Allowed kind encode copied started 1000 chat
      × (register_message_type kind encode copied started 1000 chat
          ≡ (store_pair kind encode copied started chat 1000, none)))
    ⊎ ((f : Fault ℕ) × Reason kind encode copied started 1000 chat f
        × (register_message_type kind encode copied started 1000 chat ≡ (started, some f)))
register_message_type-Reason_example =
    register_message_type-Reason kind encode copied started 1000 chat

register_message_type-get_example :
    (r' : Registry Sample ℕ) × (register_message_type kind encode copied started 1000 chat
      ≡ (r', none))
    × (get_message_type kind encode copied r' 1000 ≡ ok (copied chat))
    × (get_opcode kind encode copied r' chat ≡ (1000, none))
    × ((code : ℕ)
        → code ≢ 1000
        → get_message_type kind encode copied r' code
          ≡ get_message_type kind encode copied started code)
    × ((m : Sample)
        → kind m ≢ kind chat
        → get_opcode kind encode copied r' m ≡ get_opcode kind encode copied started m)
register_message_type-get_example =
    register_message_type-get kind encode copied started 1000 chat chat-Allowed
