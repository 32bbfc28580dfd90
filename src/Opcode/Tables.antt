-- ===== src/Opcode/Tables.antt =====
-- What the tables of types/opcode/opcode.go keep: an opcode is given once, and the opcode of a
-- message leads back to its type.
use noise.Base.{
  Bytes, Key, Result, [], none, ok, some, ℕ, ◌≡◌, ◌≤◌, ◌⊎◌, ◌<◌, Option-cases, Result-cases, arith,
  err, inl, inr, length, ◌∷◌, refl, subst, sym, ◌∙◌, ◌≢◌,
}
use noise.Base.{number_Key}
use native.Mathlib.Decide.{dec_lt}
use noise.Opcode.{
  reserved, not_marshalled, not_empty, taken, no_opcode, no_type, Registry, Fault,
  register_message_type, store_pair, not_marshalled, get_message_type, init, get_opcode, bytes_code,
  ping_code, pong_code, lookup_node_request_code, lookup_node_response_code,
}
use noise.Base.Maps.{load, load-store, load-store_self, load-store_ne, store, delete, load-nil}

module _ {M T E : Type 0} ⦃key : Key T⦄ (type_of : M → T) (marshal : M → Result E Bytes)
    (clone : M → M) where
  -- The opcode of every type in the one table stands for a message of that type in the other.
  pub record Agree (r : Registry M T) : Type 0 where
    pub leads :
        (t : T) (code : ℕ)
        → load t r.msg_tbl ≡ some code
        → (msg : M) × (load code r.opcode_tbl ≡ some msg) × (type_of msg ≡ t)

  -- A pair under an opcode that is free.
  store_pair-Agree :
      (r : Registry M T) (msg : M) (opcode : ℕ)
      → load opcode r.opcode_tbl ≡ none
      → Agree r
      → Agree (store_pair type_of marshal clone r msg opcode)
  unfolding store_pair
  store_pair-Agree r msg opcode free a = record {
    leads = λ t code h. ground (
      arith,
      h,
      load-store t (type_of msg) opcode r.msg_tbl,
      load-store code opcode msg r.opcode_tbl,
      a.leads t code,
      key.same_iff t (type_of msg),
    );
  }

  -- Why a registration is refused.
  abbrev pub Reason : Registry M T → ℕ → M → Fault E → Type 0
  Reason r opcode msg reserved = opcode < 1000
  Reason r opcode msg (not_marshalled e) = (1000 ≤ opcode) × (marshal msg ≡ err e)
  Reason r opcode msg not_empty =
      (1000 ≤ opcode) × (raw : Bytes) × (marshal msg ≡ ok raw) × (0 < length raw)
  Reason r opcode msg taken =
      (1000 ≤ opcode) × (marshal msg ≡ ok []) × (old : M) × (load opcode r.opcode_tbl ≡ some old)
  Reason r opcode msg no_opcode = ⊥
  Reason r opcode msg no_type = ⊥

  abbrev pub Allowed : Registry M T → ℕ → M → Type 0
  Allowed r opcode msg = (1000 ≤ opcode) × (marshal msg ≡ ok []) × (load opcode r.opcode_tbl ≡ none)

  -- Either RegisterMessageType is allowed, and stores the pair without an error; or it returns an
  -- error whose reason holds, and changes nothing.
  pub register_message_type-Reason :
      (r : Registry M T) (opcode : ℕ) (msg : M)
      → (Allowed r opcode msg
          × (register_message_type type_of marshal clone r opcode msg
              ≡ (store_pair type_of marshal clone r msg opcode, none)))
        ⊎ ((f : Fault E) × Reason r opcode msg f
            × (register_message_type type_of marshal clone r opcode msg ≡ (r, some f)))
  unfolding register_message_type
  register_message_type-Reason r opcode msg = elim (dec_lt opcode 1000) [
    | yes low ↦ inr (reserved, low, ground arith)
    | no high ↦ elim (Result-cases (marshal msg)) [
      | inr (e, m) ↦ inr (not_marshalled e, (omega arith, m), ground (arith, m))
      | inl ([], m) ↦ elim (Option-cases (load opcode r.opcode_tbl)) [
        | inl free ↦ inl ((omega arith, m, free), ground (arith, m, free))
        | inr (old, used) ↦ inr (taken, (omega arith, m, old, used), ground (arith, m, used))
      ]
      | inl (x ∷ xs, m) ↦ inr (not_empty, (omega arith, x ∷ xs, m, omega arith), ground (arith, m))
    ]
  ]

  -- Where the tables agree, that is every type's opcode leads to a message of the type, they agree
  -- after RegisterMessageType.
  pub register_message_type-Agree :
      (r : Registry M T) (opcode : ℕ) (msg : M)
      → Agree r
      → Agree (register_message_type type_of marshal clone r opcode msg).0
  register_message_type-Agree r opcode msg a = elim (register_message_type-Reason r opcode msg) [
    | inl (allowed, e) ↦ subst (λ p. Agree p.0) (sym e) (store_pair-Agree r msg opcode allowed.2 a)
    | inr (f, _, e) ↦ subst (λ p. Agree p.0) (sym e) a
  ]

  -- A registration with a free opcode of 1000 or more and an empty message succeeds, and
  -- afterwards both tables answer for it, and for all other opcodes and types as before.
  pub register_message_type-get :
      (r : Registry M T) (opcode : ℕ) (msg : M)
      → Allowed r opcode msg
      → (r' : Registry M T) × (register_message_type type_of marshal clone r opcode msg
          ≡ (r', none))
        × (get_message_type type_of marshal clone r' opcode ≡ ok (clone msg))
        × (get_opcode type_of marshal clone r' msg ≡ (opcode, none))
        × ((code : ℕ)
            → code ≢ opcode
            → get_message_type type_of marshal clone r' code
              ≡ get_message_type type_of marshal clone r code)
        × ((m : M)
            → type_of m ≢ type_of msg
            → get_opcode type_of marshal clone r' m ≡ get_opcode type_of marshal clone r m)
  unfolding register_message_type get_message_type get_opcode store_pair
  register_message_type-get r opcode msg (high, empty, free) = (
    store_pair type_of marshal clone r msg opcode,
    ground (arith, empty, free),
    rw (load-store_self opcode msg r.opcode_tbl, get_message_type) refl,
    rw (load-store_self (type_of msg) opcode r.msg_tbl, get_opcode) refl,
    λ code ne. rw (load-store_ne code opcode msg r.opcode_tbl ne, get_message_type) refl,
    λ m ne. rw (load-store_ne (type_of m) (type_of msg) opcode r.msg_tbl ne, get_opcode) refl,
  )

  -- Where the tables agree and a clone has the type of its message, the opcode that GetOpcode
  -- returns for a message leads GetMessageType to a message of its type.
  pub get_message_type-get_opcode :
      (r : Registry M T) (msg : M) (code : ℕ)
      → Agree r
      → ((m : M) → type_of (clone m) ≡ type_of m)
      → get_opcode type_of marshal clone r msg ≡ (code, none)
      → (m : M) × (get_message_type type_of marshal clone r code ≡ ok m) × (type_of m ≡ type_of msg)
  unfolding get_message_type get_opcode
  get_message_type-get_opcode r msg code a same_type found =
      let here : load (type_of msg) r.msg_tbl ≡ some code =
        elim (Option-cases (load (type_of msg) r.msg_tbl)) [
          | inl missing ↦ ground (arith, missing, found)
          | inr (c, e) ↦ ground (arith, e, found)
        ] in
      let (m, l, t) = a.leads (type_of msg) code here in
      (clone m, rw (l, get_message_type) refl, same_type m ∙ t)

  -- The tables that init leaves agree: the opcode of each of the five types leads to a message of
  -- the type.
  pub init-Agree :
      (bytes ping pong lookup_node_request lookup_node_response : M)
      → Agree (init type_of marshal clone bytes ping pong lookup_node_request lookup_node_response)
  unfolding init load store delete store_pair
  init-Agree bytes ping pong request response =
      let r1 =
        store_pair type_of marshal clone (record { opcode_tbl = []; msg_tbl = [] }) bytes
          bytes_code in
      let r2 = store_pair type_of marshal clone r1 ping ping_code in
      let r3 = store_pair type_of marshal clone r2 pong pong_code in
      let r4 = store_pair type_of marshal clone r3 request lookup_node_request_code in
      let a1 : Agree r1 =
        store_pair-Agree (record { opcode_tbl = []; msg_tbl = [] }) bytes bytes_code refl nothing in
      let a2 : Agree r2 = store_pair-Agree r1 ping ping_code refl a1 in
      let a3 : Agree r3 = store_pair-Agree r2 pong pong_code refl a2 in
      let a4 : Agree r4 = store_pair-Agree r3 request lookup_node_request_code refl a3 in
      store_pair-Agree r4 response lookup_node_response_code refl a4
    where
      nothing : Agree (record { opcode_tbl = []; msg_tbl = [] })
      nothing = record { leads = λ t code h. ground (arith, h, load-nil {V = ℕ} t) }
