-- ===== src/Wire/Stream.antt =====
-- What is sent is received, however the connection cuts it into reads.
use noise.Base.{
  ◌++◌, All, Bytes, List, [], arith, false, length, refl, ◌∷◌, ◌≡◌, ◌≤◌, ◌%◌, ◌-◌, ◌<◌, Bool,
  Result, ap, append-nil, append_assoc, drop, subst, sym, ℕ, ◌∙◌, Option, ltb, nat_beq, none, ok,
  some, take-append-drop, Bool-cases, inl, inr, replicate,
}
use noise.Wire.Reads.{flat, Sound, Got, read_loop-Got, read_loop_short, padded_full}
use noise.Wire.{
  Segment, read_loop, padded, frame, be32, from_be32, u32_mod, Message, Writer, write_loop,
  must_flush, send_message, accept, check_message, read_body, receive_message,
}
use native.Mathlib.Nat.{mod-eq_of_lt, mod-lt}
use noise.Wire.Words.{from_be32-be32}

length-be32 : (v : ℕ) → length (be32 v) ≡ 4
unfolding be32
length-be32 v = refl

header_size : (v : ℕ) (read : Bytes) → read ≡ be32 v → v < u32_mod → from_be32 (padded 4 read) ≡ v
header_size v read e h =
    ap (λ bs. from_be32 (padded 4 bs)) e
    ∙ ap (λ k. from_be32 (padded k (be32 v))) (sym (length-be32 v))
    ∙ ap from_be32 (padded_full (be32 v) ∙ sym (append-nil (be32 v)))
    ∙ from_be32-be32 v [] h

write_loop_sound :
    {E : Type 0} (buffer : Bytes) (writes : List (ℕ × Option E))
    → All (λ r. r.1 ≡ none) writes
    → write_loop buffer writes ≡ (buffer, none)
unfolding write_loop
write_loop_sound buffer [] h = refl
write_loop_sound [] (r ∷ rs) h = refl
write_loop_sound (b ∷ bs) ((n, none) ∷ rs) h =
    rw (write_loop_sound (drop n (b ∷ bs)) rs h.1)
      (ap (λ l. (l, none)) (take-append-drop n (b ∷ bs)))
write_loop_sound (b ∷ bs) ((n, some e) ∷ rs) h = absurd (ground (arith, h.0))

module _ {E : Type 0} (marshal : Message → Result E Bytes) (unmarshal : Bytes → Result E Message)
    (verify : Bytes → Bytes → Bytes → Bool) where
  receive_message_sized :
      (conn : List Segment) (size : ℕ)
      → (read_loop 4 conn).failed ≡ false
      → from_be32 (padded 4 (read_loop 4 conn).read) ≡ size
      → 0 < size
      → size ≤ 4000000
      → receive_message marshal unmarshal verify conn ≡ (
        accept marshal unmarshal verify (padded size (read_loop size (read_loop 4 conn).left).read),
        (read_loop size (read_loop 4 conn).left).left,
      )
  unfolding receive_message read_body
  receive_message_sized conn size f e p l =
      let positive : nat_beq size 0 ≡ false = ground arith in
      let allowed : ltb 4000000 size ≡ false = ground arith in
      rw (receive_message, e, positive, allowed, f) refl

  -- A frame of at most 4000000 bytes is read whole, and its body handed on.
  pub receive_message-frame :
      (body more : Bytes) (conn : List Segment)
      → flat conn ≡ frame body ++ more
      → Sound conn
      → 0 < length body
      → length body ≤ 4000000
      → (left : List Segment) × (receive_message marshal unmarshal verify conn
          ≡ (accept marshal unmarshal verify body, left))
        × (flat left ≡ more)
        × Sound left
  unfolding receive_message frame read_body
  receive_message-frame body more conn e sound p l =
      let word = be32 (length body % u32_mod) in
      let q : Got word (body ++ more) (read_loop 4 conn) =
        subst (λ k. Got word (body ++ more) (read_loop k conn))
          (length-be32 (length body % u32_mod))
          (read_loop-Got word (body ++ more) conn (e ∙ append_assoc word body more) sound) in
      let size : from_be32 (padded 4 (read_loop 4 conn).read) ≡ length body =
        header_size (length body % u32_mod) _ q.is_read (mod-lt (length body) (omega arith))
        ∙ mod-eq_of_lt (omega arith) in
      let b : Got body more (read_loop (length body) (read_loop 4 conn).left) =
        read_loop-Got body more (read_loop 4 conn).left q.remains q.stays_sound in
      (
        (read_loop (length body) (read_loop 4 conn).left).left,
        receive_message_sized conn (length body) q.succeeded size p l
            ∙ ap
                (λ bs. (
                  accept marshal unmarshal verify bs,
                  (read_loop (length body) (read_loop 4 conn).left).left,
                ))
                (ap (padded (length body)) b.is_read ∙ padded_full body),
        b.remains,
        b.stays_sound,
      )

  -- On a connection that ends, after a header of at most 4000000 and fewer body bytes than it
  -- says, without another error, the body is decoded with zeros in place of the bytes that did not
  -- come.
  pub receive_message_cut :
      (size : ℕ) (part : Bytes) (conn : List Segment)
      → flat conn ≡ be32 size ++ part
      → Sound conn
      → length part < size
      → size ≤ 4000000
      → (receive_message marshal unmarshal verify conn).0
        ≡ accept marshal unmarshal verify (part ++ replicate (size - length part) 0)
  unfolding padded
  receive_message_cut size part conn e sound short l =
      let word = be32 size in
      let q : Got word part (read_loop 4 conn) =
        subst (λ k. Got word part (read_loop k conn)) (length-be32 size)
          (read_loop-Got word part conn e sound) in
      let sized : from_be32 (padded 4 (read_loop 4 conn).read) ≡ size =
        header_size size _ q.is_read (omega arith) in
      let b = read_loop_short size part (read_loop 4 conn).left q.remains q.stays_sound short in
      ap (λ p. p.0) (receive_message_sized conn size q.succeeded sized (omega arith) l)
      ∙ ap (λ bs. accept marshal unmarshal verify (padded size bs)) b

  -- A write without errors puts out the frame.
  pub send_message-frame :
      (w : Writer E) (message : Message) (body : Bytes)
      → marshal message ≡ ok body
      → w.flush_error ≡ none
      → All (λ r. r.1 ≡ none) w.writes
      → send_message marshal unmarshal verify w message ≡ (frame body, none)
  unfolding send_message
  send_message-frame w message body m f sound =
      let all = write_loop_sound (frame body) w.writes sound in
      elim (Bool-cases (must_flush w.buffered (length (frame body)))) [
        | inl now ↦ rw (m, send_message, now, f) (rw all (ap (λ o. (o.0, none)) all))
        | inr later ↦ rw (m, send_message, later) (rw all (ap (λ o. (o.0, none)) all))
      ]

  -- A message whose encoding has 1 to 4000000 bytes and decodes to it, sent without an error of a
  -- flush or a write, is what receiveMessage checks at the other end, however a connection without
  -- errors cuts the bytes into reads, and the bytes after it stay on the connection.
  pub receive_message-send_message :
      (w : Writer E) (message : Message) (body more : Bytes) (conn : List Segment)
      → marshal message ≡ ok body
      → unmarshal body ≡ ok message
      → w.flush_error ≡ none
      → All (λ r. r.1 ≡ none) w.writes
      → 0 < length body
      → length body ≤ 4000000
      → flat conn ≡ (send_message marshal unmarshal verify w message).0 ++ more
      → Sound conn
      → (left : List Segment) × (receive_message marshal unmarshal verify conn
          ≡ (check_message marshal unmarshal verify message, left))
        × (flat left ≡ more)
        × Sound left
  unfolding accept
  receive_message-send_message w message body more conn m u f sound p l e h =
      let sent : flat conn ≡ frame body ++ more =
        e ∙ ap (λ p. p.0 ++ more) (send_message-frame w message body m f sound) in
      let (left, got, rest, ok_left) = receive_message-frame body more conn sent h p l in
      let good : accept marshal unmarshal verify body
          ≡ check_message marshal unmarshal verify message =
        rw (u, accept) refl in
      (left, got ∙ ap (λ o. (o, left)) good, rest, ok_left)
