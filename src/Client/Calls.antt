-- ===== src/Client/Calls.antt =====
-- Calls of `Request` on one client at the same time, and the replies that come, in any order of
-- their sections. A call is known by its nonce; the counter does not wrap around before 2 ^ 64 calls.
use native.Mathlib.Decide.{ℕ_discrete}
use native.Mathlib.Nat.{mod-eq_of_lt}
use noise.Base.{
  number_Key, ◌%◌, ◌+◌, ◌<◌, Any, Bool, Bytes, List, [], arith, false, if◌then◌else◌, nat_beq, none,
  some, ℕ, ◌∷◌, ◌≡◌, ap, subst, sym, ◌∙◌, ◌≢◌,
}
use noise.Base.Maps.{
  load, load-store_self, load-store_ne, load-delete_self, load-delete_ne, store, delete,
}
use noise.Client.{PeerClient, Proto, RequestState, new_client}
use noise.Client.Requests.{
  next_request_nonce, track_request, untrack_request, reply_of, deliver_reply, delivered, u64_bound,
}

-- Where a call stands.
pub data Phase (M : Type 0) : Type 0 where
  idle : Phase M
  sending : Phase M
  waiting : Phase M
  returned : Proto M → Phase M
  cancelled : Phase M

-- The client, the calls by nonce, and the replies that came with a nonce.
pub record Calls (M J : Type 0) : Type 0 where
  pub client : PeerClient M J
  pub phase : ℕ → Phase M
  pub replies : List (ℕ × Proto M)

abbrev pub at_nonce {ℓ} : {A : Type ℓ} → (ℕ → A) → ℕ → A → ℕ → A
at_nonce f n a m = if nat_beq m n then a else f m

module _ {M : Type 0} where
  -- A reply that came with a nonce.
  abbrev pub Came : List (ℕ × Proto M) → ℕ → Proto M → Type 0
  Came rs n msg = Any (λ r. r ≡ (n, msg)) rs

pub slot-track_request :
    {A : Type 0} (m n : ℕ) (new state : A) (requests : List (ℕ × A))
    → m ≡ n
    → load m (store n new requests) ≡ some state
    → new ≡ state
slot-track_request m n new state requests e h =
    let found : load m (store n new requests) ≡ some new =
      ap (λ k. load k (store n new requests)) e ∙ load-store_self n new requests in
    cc

slot-untrack_request :
    {A : Type 0} (m n : ℕ) (state : A) (requests : List (ℕ × A))
    → m ≡ n
    → load m (delete n requests) ≡ some state
    → ⊥
slot-untrack_request m n state requests e h =
    let found : load m (delete n requests) ≡ none =
      ap (λ k. load k (delete n requests)) e ∙ load-delete_self n requests in
    cc

module _ {M J : Type 0} where
  pub data Section (s : Calls M J) : Calls M J → Type 0 where
    begin :
        s.client.request_nonce + 1 < u64_bound
        → Section s (record s {
          client = next_request_nonce s.client;
          phase = at_nonce s.phase (s.client.request_nonce + 1) sending;
        })
    track :
        (n : ℕ)
        → s.phase n ≡ sending
        → Section s
            (record s { client = track_request s.client n; phase = at_nonce s.phase n waiting })
    fail :
        (n : ℕ)
        → s.phase n ≡ sending
        → Section s (record s { phase = at_nonce s.phase n cancelled })
    reply :
        (n : ℕ) (msg : Proto M) (put : Bool) (c : PeerClient M J)
        → deliver_reply put s.client n msg ≡ delivered c
        → Section s (record s { client = c; replies = (n, msg) ∷ s.replies })
    answer :
        (n : ℕ) (msg : Proto M)
        → s.phase n ≡ waiting
        → reply_of s.client n ≡ some msg
        → Section s (record s {
          client = untrack_request s.client n;
          phase = at_nonce s.phase n (returned msg);
        })
    cancel :
        (n : ℕ)
        → s.phase n ≡ waiting
        → Section s
            (record s { client = untrack_request s.client n; phase = at_nonce s.phase n cancelled })

  pub data Reached (address : Bytes) : Calls M J → Type 0 where
    start :
        Reached address (record { client = new_client address; phase = λ n. idle; replies = [] })
    later : {s t : Calls M J} → Reached address s → Section s t → Reached address t

  pub record IsCalls (s : Calls M J) : Type 0 where
    pub bounded : s.client.request_nonce < u64_bound
    pub unused : (n : ℕ) → s.client.request_nonce < n → s.phase n ≡ idle
    pub tracked :
        (n : ℕ) (state : RequestState M)
        → load n s.client.requests ≡ some state
        → (s.phase n ≡ waiting) × (state.close_signal ≡ false)
    pub listed :
        (n : ℕ)
        → s.phase n ≡ waiting
        → (state : RequestState M) × (load n s.client.requests ≡ some state)
    pub held :
        (n : ℕ) (state : RequestState M) (msg : Proto M)
        → load n s.client.requests ≡ some state
        → state.reply ≡ some msg
        → Came s.replies n msg
    pub answered : (n : ℕ) (msg : Proto M) → s.phase n ≡ returned msg → Came s.replies n msg

  pub begin-IsCalls :
      (s : Calls M J)
      → s.client.request_nonce + 1 < u64_bound
      → IsCalls s
      → IsCalls (record s {
        client = next_request_nonce s.client;
        phase = at_nonce s.phase (s.client.request_nonce + 1) sending;
      })
  unfolding next_request_nonce reply_of
  begin-IsCalls s l v =
      let e : (s.client.request_nonce + 1) % u64_bound ≡ s.client.request_nonce + 1 =
        mod-eq_of_lt l in
      record {
        bounded = omega (arith, e, l);
        unused = λ n h. ground (arith, e, v.unused n);
        tracked = λ n state h. ground (arith, v.tracked n state h, v.unused n);
        listed = λ n h. v.listed n (ground (arith, h));
        held = v.held;
        answered = λ n msg h. v.answered n msg (ground (arith, h));
      }

  pub track-IsCalls :
      (s : Calls M J) (n : ℕ)
      → s.phase n ≡ sending
      → IsCalls s
      → IsCalls (record s { client = track_request s.client n; phase = at_nonce s.phase n waiting })
  unfolding track_request reply_of
  track-IsCalls s n p v =
      let fresh : RequestState M = record { reply = none; close_signal = false } in
      record {
        bounded = v.bounded;
        unused = λ m h. ground (arith, v.unused m, v.unused n, p);
        tracked = λ m state h. elim (ℕ_discrete m n) [
          | yes e ↦
              let same = slot-track_request m n fresh state s.client.requests e h in
              (ground (arith, e), ap (λ (t : RequestState M). t.close_signal) (sym same))
          | no ne ↦
              let old =
                v.tracked m state (sym (load-store_ne m n fresh s.client.requests ne) ∙ h) in
              (ground (arith, ne, old.0), old.1)
        ];
        listed = λ m h. elim (ℕ_discrete m n) [
          | yes e ↦ (
            fresh,
            ap (λ k. load k (store n fresh s.client.requests)) e
                ∙ load-store_self n fresh s.client.requests,
          )
          | no ne ↦
              let (state, l) = v.listed m (ground (arith, h, ne)) in
              (state, load-store_ne m n fresh s.client.requests ne ∙ l)
        ];
        held = λ m state msg h r. elim (ℕ_discrete m n) [
          | yes e ↦
              let same = slot-track_request m n fresh state s.client.requests e h in
              absurd (ground (arith, same, r))
          | no ne ↦ v.held m state msg (sym (load-store_ne m n fresh s.client.requests ne) ∙ h) r
        ];
        answered = λ m msg h. v.answered m msg (ground (arith, h));
      }

  -- A call that ends without an answer, or with one that came.
  pub untrack-IsCalls :
      (s : Calls M J) (n : ℕ) (q : Phase M)
      → s.phase n ≢ idle
      → q ≢ waiting
      → ((msg : Proto M) → q ≡ returned msg → Came s.replies n msg)
      → IsCalls s
      → IsCalls (record s { client = untrack_request s.client n; phase = at_nonce s.phase n q })
  unfolding untrack_request
  untrack-IsCalls s n q p w a v = record {
    bounded = v.bounded;
    unused = λ m h. ground (arith, v.unused m, v.unused n, p);
    tracked = λ m state h. elim (ℕ_discrete m n) [
      | yes e ↦ absurd (slot-untrack_request m n state s.client.requests e h)
      | no ne ↦
          let old = v.tracked m state (sym (load-delete_ne m n s.client.requests ne) ∙ h) in
          (ground (arith, ne, old.0), old.1)
    ];
    listed = λ m h. elim (ℕ_discrete m n) [
      | yes e ↦ absurd (w (ground (arith, e, h)))
      | no ne ↦
          let (state, l) = v.listed m (ground (arith, h, ne)) in
          (state, load-delete_ne m n s.client.requests ne ∙ l)
    ];
    held = λ m state msg h r. elim (ℕ_discrete m n) [
      | yes e ↦ absurd (slot-untrack_request m n state s.client.requests e h)
      | no ne ↦ v.held m state msg (sym (load-delete_ne m n s.client.requests ne) ∙ h) r
    ];
    answered = λ m msg h. elim (ℕ_discrete m n) [
      | yes e ↦ subst (λ k. Came s.replies k msg) (sym e) (a msg (ground (arith, e, h)))
      | no ne ↦ v.answered m msg (ground (arith, ne, h))
    ];
  }

  pub fail-IsCalls :
      (s : Calls M J) (n : ℕ)
      → s.phase n ≡ sending
      → IsCalls s
      → IsCalls (record s { phase = at_nonce s.phase n cancelled })
  fail-IsCalls s n p v = record {
    bounded = v.bounded;
    unused = λ m h. ground (arith, v.unused m, v.unused n, p);
    tracked = λ m state h. ground (arith, v.tracked m state h, p);
    listed = λ m h. v.listed m (ground (arith, h));
    held = v.held;
    answered = λ m msg h. v.answered m msg (ground (arith, h));
  }
