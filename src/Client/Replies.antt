-- ===== src/Client/Replies.antt =====
-- What the calls of `Request` on one client return, after any sections of theirs and of the replies.
use noise.Client.Calls.{
  Calls, Section, Reached, Came, IsCalls, waiting, returned, cancelled, start, later, begin, track,
  fail, reply, answer, cancel, begin-IsCalls, track-IsCalls, untrack-IsCalls, fail-IsCalls,
  slot-track_request,
}
use native.Mathlib.Decide.{ℕ_discrete}
use noise.Base.{
  number_Key, Bool, Bytes, arith, false, none, some, ℕ, ◌∷◌, ◌≡◌, ap, subst, sym, ◌∙◌, Bool-cases,
  Option-cases, inl, inr, not, refl, ◌||◌,
}
use noise.Base.Maps.{load, load-store_self, load-store_ne, store, load-nil}
use noise.Client.{PeerClient, Proto, RequestState, new_client}
use noise.Client.Requests.{reply_of, deliver_reply, delivered}

module _ {M J : Type 0} where
  -- A reply is put into the empty channel of a request that is tracked.
  deliver_reply_lem :
      (put : Bool) (c c' : PeerClient M J) (n : ℕ) (msg : Proto M)
      → deliver_reply put c n msg ≡ delivered c'
      → (state : RequestState M) × (load n c.requests ≡ some state)
        × (c' ≡ record c { requests = store n (record state { reply = some msg }) c.requests })
  unfolding deliver_reply
  deliver_reply_lem put c c' n msg h = elim (Option-cases (load n c.requests)) [
    | inl e ↦ absurd (ground (arith, e, h))
    | inr (state, e) ↦ elim (Option-cases state.reply) [
      | inr (first, f) ↦ elim (Bool-cases state.close_signal) [
        | inl x ↦ absurd (ground (arith, e, f, x, h))
        | inr x ↦ absurd (ground (arith, e, f, x, h))
      ]
      | inl f ↦ elim (Bool-cases (not state.close_signal || put)) [
        | inl x ↦ (state, e, ground (arith, e, f, x, h))
        | inr x ↦ absurd (ground (arith, e, f, x, h))
      ]
    ]
  ]

  reply-IsCalls :
      (s : Calls M J) (n : ℕ) (msg : Proto M) (state : RequestState M)
      → load n s.client.requests ≡ some state
      → IsCalls s
      → IsCalls (record s {
        client = record s.client {
          requests = store n (record state { reply = some msg }) s.client.requests;
        };
        replies = (n, msg) ∷ s.replies;
      })
  reply-IsCalls s n msg state e v =
      let new : RequestState M = record state { reply = some msg } in
      let old = v.tracked n state e in
      record {
        bounded = v.bounded;
        unused = v.unused;
        tracked = λ m t h. elim (ℕ_discrete m n) [
          | yes q ↦
              let same = slot-track_request m n new t s.client.requests q h in
              (ap s.phase q ∙ old.0, ap (λ (t : RequestState M). t.close_signal) (sym same) ∙ old.1)
          | no ne ↦ v.tracked m t (sym (load-store_ne m n new s.client.requests ne) ∙ h)
        ];
        listed = λ m h. elim (ℕ_discrete m n) [
          | yes q ↦ (
            new,
            ap (λ k. load k (store n new s.client.requests)) q
                ∙ load-store_self n new s.client.requests,
          )
          | no ne ↦ let (t, l) = v.listed m h in (t, load-store_ne m n new s.client.requests ne ∙ l)
        ];
        held = λ m t x h r. elim (ℕ_discrete m n) [
          | yes q ↦
              let same = slot-track_request m n new t s.client.requests q h in
              let mine : some msg ≡ some x = ap (λ (t : RequestState M). t.reply) same ∙ r in
              let here : msg ≡ x = cc in inl (ap (λ k. (n, k)) here ∙ ap (λ k. (k, x)) (sym q))
          | no ne ↦ inr (v.held m t x (sym (load-store_ne m n new s.client.requests ne) ∙ h) r)
        ];
        answered = λ m x h. inr (v.answered m x h);
      }

  reply_of_lem :
      (c : PeerClient M J) (n : ℕ) (msg : Proto M)
      → reply_of c n ≡ some msg
      → (state : RequestState M) × (load n c.requests ≡ some state) × (state.reply ≡ some msg)
  unfolding reply_of
  reply_of_lem c n msg h = elim (Option-cases (load n c.requests)) [
    | inl e ↦ absurd (ground (arith, e, h))
    | inr (state, e) ↦ (state, e, ground (arith, e, h))
  ]

  Section-IsCalls : {s t : Calls M J} → Section s t → IsCalls s → IsCalls t
  Section-IsCalls {s} (begin l) v = begin-IsCalls s l v
  Section-IsCalls {s} (track n p) v = track-IsCalls s n p v
  Section-IsCalls {s} (fail n p) v = fail-IsCalls s n p v
  Section-IsCalls {s} (reply n msg put c d) v =
      let (state, e, same) = deliver_reply_lem put s.client c n msg d in
      subst (λ k. IsCalls (record s { client = k; replies = (n, msg) ∷ s.replies })) (sym same)
        (reply-IsCalls s n msg state e v)
  Section-IsCalls {s} (answer n msg p r) v =
      let (state, e, f) = reply_of_lem s.client n msg r in
      untrack-IsCalls s n (returned msg) (λ q. absurd (ground (arith, p, q))) (λ q. cc)
        (λ x q. v.held n state x e (ground (arith, f, q))) v
  Section-IsCalls {s} (cancel n p) v =
      untrack-IsCalls s n cancelled (λ q. absurd (ground (arith, p, q))) (λ q. cc)
        (λ x q. absurd cc) v

  Reached-IsCalls : {address : Bytes} {s : Calls M J} → Reached address s → IsCalls s
  unfolding new_client
  Reached-IsCalls start = record {
    bounded = omega arith;
    unused = λ n h. refl;
    tracked = λ n state h. absurd (ground (arith, h, load-nil {V = RequestState M} n));
    listed = λ n h. absurd cc;
    held = λ n state msg h r. absurd (ground (arith, h, load-nil {V = RequestState M} n));
    answered = λ n msg h. absurd cc;
  }
  Reached-IsCalls (later r st) = Section-IsCalls st (Reached-IsCalls r)

  pub put_reply :
      (c : PeerClient M J) (n : ℕ) (msg : Proto M) (put : Bool) (state : RequestState M)
      → load n c.requests ≡ some state
      → state.close_signal ≡ false
      → reply_of c n ≡ none
      → (c' : PeerClient M J) × (deliver_reply put c n msg ≡ delivered c')
        × (reply_of c' n ≡ some msg)
  unfolding deliver_reply reply_of
  put_reply c n msg put state l open_yet e =
      let empty : state.reply ≡ none = ground (arith, l, e) in
      let new : RequestState M = record state { reply = some msg } in
      (
        record c { requests = store n new c.requests },
        ground (arith, l, open_yet, empty),
        rw (load-store_self n new c.requests, reply_of) refl,
      )

  -- Where calls of Request and replies on a client interleave in any order, a reply that a call
  -- returned came with the call's nonce.
  pub Reached-Came :
      (address : Bytes) (s : Calls M J) (n : ℕ) (msg : Proto M)
      → Reached address s
      → s.phase n ≡ returned msg
      → Came s.replies n msg
  Reached-Came address s n msg r p = (Reached-IsCalls r).answered n msg p

  -- Where calls of Request and replies on a client interleave in any order, a reply that comes for
  -- a waiting call without one is delivered, and is what the call finds.
  pub deliver_reply-reply_of :
      (address : Bytes) (s : Calls M J) (n : ℕ) (msg : Proto M) (put : Bool)
      → Reached address s
      → s.phase n ≡ waiting
      → reply_of s.client n ≡ none
      → (c : PeerClient M J) × (deliver_reply put s.client n msg ≡ delivered c)
        × (reply_of c n ≡ some msg)
  deliver_reply-reply_of address s n msg put r p e =
      let v = Reached-IsCalls r in
      let (state, l) = v.listed n p in
      put_reply s.client n msg put state l (v.tracked n state l).1 e
