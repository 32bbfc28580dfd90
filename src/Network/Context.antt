-- ===== src/Network/Context.antt =====
-- network/context.go: whether a message is to be signed, as a value in a context. A context is the
-- list of its keys and values, the last one first; a value may be of any type.
use noise.Base.{bytes_Key, Bool, Bytes, List, [], false, none, some, ◌∷◌}
use noise.Base.Maps.{load}

pub data Value : Type 0 where
  flag : Bool → Value
  other_value : Bytes → Value

abbrev pub Context : Type 0
Context = List (Bytes × Value)

-- "signMessage", of its own type, which no other package's key has.
abbrev pub sign_message_key : Bytes
sign_message_key = b's' ∷ b'i' ∷ b'g' ∷ b'n' ∷ []

unfoldable pub with_sign_message : Context → Bool → Context
with_sign_message ctx sign = (sign_message_key, flag sign) ∷ ctx

unfoldable pub get_sign_message : Context → Bool
unfolding load
get_sign_message ctx = elim (load sign_message_key ctx) [
  | none ↦ false
  | some value ↦ elim value [ flag sign ↦ sign | other_value bs ↦ false ]
]
