-- ===== src/Opcode.antt =====
-- types/opcode/opcode.go: the two tables between opcodes and message types. Messages, their
-- run-time types and their encoding are protobuf's, so they are parameters.
pub mod Tables
mod Tests
use noise.Base.{
  Bytes, Key, List, Option, Result, [], err, if◌then◌else◌, length, ltb, nat_beq, none, ok, some, ℕ,
}
use noise.Base.{number_Key}
use noise.Base.Maps.{load, store}

-- What the functions of this file answer with in place of a value.
pub data Fault (E : Type 0) : Type 0 where
  reserved : Fault E
  not_marshalled : E → Fault E
  not_empty : Fault E
  taken : Fault E
  no_opcode : Fault E
  no_type : Fault E

-- `opcodeTbl` and `msgTbl`.
pub record Registry (M T : Type 0) : Type 0 where
  pub opcode_tbl : List (ℕ × M)
  pub msg_tbl : List (T × ℕ)

abbrev pub unregistered_code : ℕ
unregistered_code = 0

abbrev pub bytes_code : ℕ
bytes_code = 1

abbrev pub ping_code : ℕ
ping_code = 10

abbrev pub pong_code : ℕ
pong_code = 11

abbrev pub lookup_node_request_code : ℕ
lookup_node_request_code = 12

abbrev pub lookup_node_response_code : ℕ
lookup_node_response_code = 13

module _ {M T E : Type 0} ⦃key : Key T⦄ (type_of : M → T) (marshal : M → Result E Bytes)
    (clone : M → M) where
  -- The two `Store` calls of a pair.
  unfoldable pub store_pair : Registry M T → M → ℕ → Registry M T
  unfolding store
  store_pair r msg code = record {
    opcode_tbl = store code msg r.opcode_tbl;
    msg_tbl = store (type_of msg) code r.msg_tbl;
  }

  -- The tables that `init` leaves.
  unfoldable pub init :
      (bytes ping pong lookup_node_request lookup_node_response : M) → Registry M T
  unfolding store_pair
  init bytes ping pong lookup_node_request lookup_node_response =
      let r0 : Registry M T = record { opcode_tbl = []; msg_tbl = [] } in
      let r1 = store_pair r0 bytes bytes_code in
      let r2 = store_pair r1 ping ping_code in
      let r3 = store_pair r2 pong pong_code in
      let r4 = store_pair r3 lookup_node_request lookup_node_request_code in
      store_pair r4 lookup_node_response lookup_node_response_code

  -- The tables afterwards, and the error: none is nil.
  unfoldable pub register_message_type : Registry M T → ℕ → M → Registry M T × Option (Fault E)
  unfolding load store_pair
  register_message_type r opcode msg =
      if ltb opcode 1000 then (r, some reserved) else elim (marshal msg) [
        | err e ↦ (r, some (not_marshalled e))
        | ok raw ↦
            if nat_beq (length raw) 0
            then elim (load opcode r.opcode_tbl) [
              | some old ↦ (r, some taken)
              | none ↦ (store_pair r msg opcode, none)
            ]
            else (r, some not_empty)
      ]

  unfoldable pub get_message_type : Registry M T → ℕ → Result (Fault E) M
  unfolding load
  get_message_type r code = elim (load code r.opcode_tbl) [
    | some msg ↦ ok (clone msg)
    | none ↦ err no_opcode
  ]

  -- The opcode, and the error.
  unfoldable pub get_opcode : Registry M T → M → ℕ × Option (Fault E)
  unfolding load
  get_opcode r msg = elim (load (type_of msg) r.msg_tbl) [
    | some code ↦ (code, none)
    | none ↦ (unregistered_code, some no_type)
  ]
