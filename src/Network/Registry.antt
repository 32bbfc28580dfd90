-- ===== src/Network/Registry.antt =====
-- types/opcode/opcode.go with the messages of internal/protobuf: what `dispatchMessage` of
-- network/network.go relies on.
use noise.Base.{
  bytes_Key, number_Key, ◌≡◌, Bytes, List, [], ap, arith, none, ok, some, sym, ℕ, ◌∙◌, none-ne-some,
  ◌<◌, inl, inr, subst, ◌≤◌, refl,
}
use noise.Base.Maps.{load, load-store_ne, store, load-store_self, delete}
use native.Mathlib.Decide.{ℕ_discrete}
use noise.Client.{Proto, bytes_message, ping, pong, lookup_node_request, lookup_node_response}
use noise.Network.Dispatch.{empty_message}
use noise.Network.Messages.{Opcodes}
use noise.Network.State.{World}
use noise.Opcode.{
  get_message_type, bytes_code, ping_code, pong_code, lookup_node_request_code,
  lookup_node_response_code, unregistered_code, store_pair, register_message_type, init,
}
use noise.Opcode.Tables.{
  Agree, register_message_type-Agree, register_message_type-Reason, init-Agree,
}

-- Two entries of one code are one message.
one_entry :
    {A : Type 0} (code k : ℕ) (a b : A) (table : List (ℕ × A))
    → code ≡ k
    → load code table ≡ some a
    → load k table ≡ some b
    → b ≡ a
one_entry code k a b table e h l =
    let same : load k table ≡ some a = ap (λ c. load c table) (sym e) ∙ h in cc

module _ {M L E : Type 0} (w : World M L E) where
  -- What protobuf documents: a message of a type is read back from its encoding into another of the
  -- type, whose fields are reset; one message of a type has the empty encoding; and a clone has the
  -- type and the encoding of its message.
  pub record Encodes : Type 0 where
    pub reads :
        (into m : Proto M) (raw : Bytes)
        → w.type_of into ≡ w.type_of m
        → w.marshal m ≡ ok raw
        → w.fill into raw ≡ ok m
    pub one_empty :
        (a b : Proto M)
        → w.type_of a ≡ w.type_of b
        → w.marshal a ≡ ok []
        → w.marshal b ≡ ok []
        → a ≡ b
    pub clone_type : (m : Proto M) → w.type_of (w.clone m) ≡ w.type_of m
    pub clone_empty : (m : Proto M) → w.marshal m ≡ ok [] → w.marshal (w.clone m) ≡ ok []

  -- The tables agree and hold empty messages, those of the five types of `init` under their opcodes.
  pub record IsRegistry (r : Opcodes M) : Type 0 where
    pub agree : Agree w.type_of w.marshal w.clone r
    pub empties : (code : ℕ) (m : Proto M) → load code r.opcode_tbl ≡ some m → w.marshal m ≡ ok []
    pub no_zero : load unregistered_code r.opcode_tbl ≡ none
    pub has_bytes : load bytes_code r.opcode_tbl ≡ some (bytes_message [])
    pub has_ping : load ping_code r.opcode_tbl ≡ some ping
    pub has_pong : load pong_code r.opcode_tbl ≡ some pong
    pub has_request : load lookup_node_request_code r.opcode_tbl ≡ some (lookup_node_request none)
    pub has_response : load lookup_node_response_code r.opcode_tbl ≡ some (lookup_node_response [])

  known :
      (r : Opcodes M) (code : ℕ) (m b : Proto M)
      → Encodes
      → IsRegistry r
      → load code r.opcode_tbl ≡ some m
      → b ≡ m
      → empty_message w r code ≡ some b
      → (e : Proto M) × (empty_message w r code ≡ some e)
        × (w.type_of e ≡ w.type_of m)
        × (w.marshal e ≡ ok [])
  known r code m b p v h same found =
      (b, found, ap w.type_of same, ap w.marshal same ∙ v.empties code m h)

  -- What `dispatchMessage` decodes into.
  pub empty_message-load :
      (r : Opcodes M) (code : ℕ) (m : Proto M)
      → Encodes
      → IsRegistry r
      → load code r.opcode_tbl ≡ some m
      → (e : Proto M) × (empty_message w r code ≡ some e)
        × (w.type_of e ≡ w.type_of m)
        × (w.marshal e ≡ ok [])
  unfolding empty_message get_message_type
  empty_message-load r code m p v h = elim (ℕ_discrete code bytes_code) [
    | yes e1 ↦
        known r code m (bytes_message []) p v h
          (one_entry code bytes_code m (bytes_message []) r.opcode_tbl e1 h v.has_bytes)
          (ground (arith, e1))
    | no e1 ↦ elim (ℕ_discrete code ping_code) [
      | yes e2 ↦
          known r code m (ping) p v h
            (one_entry code ping_code m (ping) r.opcode_tbl e2 h v.has_ping) (ground (arith, e2))
      | no e2 ↦ elim (ℕ_discrete code pong_code) [
        | yes e3 ↦
            known r code m (pong) p v h
              (one_entry code pong_code m (pong) r.opcode_tbl e3 h v.has_pong) (ground (arith, e3))
        | no e3 ↦ elim (ℕ_discrete code lookup_node_request_code) [
          | yes e4 ↦
              known r code m (lookup_node_request none) p v h
                (one_entry code lookup_node_request_code m (lookup_node_request none) r.opcode_tbl
                  e4 h v.has_request)
                (ground (arith, e4))
          | no e4 ↦ elim (ℕ_discrete code lookup_node_response_code) [
            | yes e5 ↦
                known r code m (lookup_node_response []) p v h
                  (one_entry code lookup_node_response_code m (lookup_node_response []) r.opcode_tbl
                    e5 h v.has_response)
                  (ground (arith, e5))
            | no e5 ↦ elim (ℕ_discrete code unregistered_code) [
              | yes e6 ↦
                  absurd
                    (none-ne-some m (sym v.no_zero ∙ ap (λ c. load c r.opcode_tbl) (sym e6) ∙ h))
              | no e6 ↦ (
                w.clone m,
                ground (arith, e1, e2, e3, e4, e5, e6, h),
                p.clone_type m,
                p.clone_empty m (v.empties code m h),
              )
            ]
          ]
        ]
      ]
    ]
  ]

  store_pair-IsRegistry :
      (r : Opcodes M) (opcode : ℕ) (msg : Proto M)
      → 1000 ≤ opcode
      → w.marshal msg ≡ ok []
      → Agree w.type_of w.marshal w.clone (store_pair w.type_of w.marshal w.clone r msg opcode)
      → IsRegistry r
      → IsRegistry (store_pair w.type_of w.marshal w.clone r msg opcode)
  unfolding store_pair
  store_pair-IsRegistry r opcode msg high empty a v =
      let keeps = λ (code : ℕ) (low : code < 1000).
        load-store_ne code opcode msg r.opcode_tbl (λ e. absurd (omega arith)) in
      record {
        agree = a;
        empties = λ code m h. elim (ℕ_discrete code opcode) [
          | yes here ↦
              ap w.marshal (
                sym (
                  one_entry code opcode m msg (store opcode msg r.opcode_tbl) here h
                    (load-store_self opcode msg r.opcode_tbl)))
              ∙ empty
          | no there ↦ v.empties code m (sym (load-store_ne code opcode msg r.opcode_tbl there) ∙ h)
        ];
        no_zero = keeps unregistered_code (omega arith) ∙ v.no_zero;
        has_bytes = keeps bytes_code (omega arith) ∙ v.has_bytes;
        has_ping = keeps ping_code (omega arith) ∙ v.has_ping;
        has_pong = keeps pong_code (omega arith) ∙ v.has_pong;
        has_request = keeps lookup_node_request_code (omega arith) ∙ v.has_request;
        has_response = keeps lookup_node_response_code (omega arith) ∙ v.has_response;
      }

  -- RegisterMessageType keeps the tables so.
  pub register_message_type-IsRegistry :
      (r : Opcodes M) (opcode : ℕ) (msg : Proto M)
      → IsRegistry r
      → IsRegistry (register_message_type w.type_of w.marshal w.clone r opcode msg).0
  register_message_type-IsRegistry r opcode msg v =
      let a = register_message_type-Agree w.type_of w.marshal w.clone r opcode msg v.agree in
      elim (register_message_type-Reason w.type_of w.marshal w.clone r opcode msg) [
        | inl (allowed, e) ↦
            subst (λ p. IsRegistry p.0) (sym e)
              (store_pair-IsRegistry r opcode msg allowed.0 allowed.1
                (subst (λ p. Agree w.type_of w.marshal w.clone p.0) e a) v)
        | inr (f, _, e) ↦ subst (λ p. IsRegistry p.0) (sym e) v
      ]

  -- The tables that `init` of types/opcode/opcode.go leaves.
  abbrev pub initial : Opcodes M
  initial =
      init w.type_of w.marshal w.clone (bytes_message []) ping pong (lookup_node_request none)
        (lookup_node_response [])

  -- The tables that `init` leaves.
  pub init-IsRegistry :
      w.marshal (bytes_message []) ≡ ok []
      → w.marshal ping ≡ ok []
      → w.marshal pong ≡ ok []
      → w.marshal (lookup_node_request none) ≡ ok []
      → w.marshal (lookup_node_response []) ≡ ok []
      → IsRegistry initial
  unfolding init store load delete store_pair
  init-IsRegistry b p q l s = record {
    agree =
        init-Agree w.type_of w.marshal w.clone (bytes_message []) ping pong
          (lookup_node_request none) (lookup_node_response []);
    empties = λ code m h. ground (arith, b, p, q, l, s, h);
    no_zero = refl;
    has_bytes = refl;
    has_ping = refl;
    has_pong = refl;
    has_request = refl;
    has_response = refl;
  }
