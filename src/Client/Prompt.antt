-- ===== src/Client/Prompt.antt =====
-- When a `Read` of network/client.go returns: at once where a signal reaches it, and within a second
-- otherwise.
use noise.Base.{
  ◌+◌, ◌-◌, ◌<◌, Bool-cases, Bytes, List, Option, Option-cases, [], ap, arith, drop, false, inl,
  inr, length, ltb, nat_beq, none, refl, some, suc, sym, take, true, zero, ℕ, ◌∙◌, ◌∷◌, ◌≡◌, ◌≤◌,
}
use noise.Client.{
  Event, StreamError, StreamState, Timed, closing, expired, handle_bytes, happens, packet, read,
  read_round, second, select_wait, taken,
}
use noise.Client.Reads.{Comes, Ordered, due_later, read_ready, read_within}

-- The last time for the end of a `Read` that waits for what comes at `due`, where the first event to
-- come has a time.
abbrev pub latest_by : (due at : ℕ) → Event → ℕ
latest_by due at (packet true (b ∷ bs)) = at
latest_by due at (packet true []) = due + second
latest_by due at (packet false pkt) = due + second
latest_by due at closing = due + second
latest_by due at (taken room) = due + second

-- It is the time of the first event, where this is a packet with bytes whose signal reaches the
-- `Read`, and otherwise a second after `due`.
abbrev pub latest : ℕ → List Timed → ℕ
latest due [] = due + second
latest due (e ∷ es) = latest_by due e.at e.event

nothing_left :
    (room : ℕ) (bs : Bytes)
    → 0 < room
    → nat_beq (length (take room bs)) 0 ≡ true
    → drop room bs ≡ []
nothing_left zero bs p h = absurd (omega (arith, p))
nothing_left (suc room) [] p h = refl
nothing_left (suc room) (b ∷ bs) p h = absurd (ground (arith, h))

round_none :
    (s : StreamState) (room now : ℕ)
    → 0 < room
    → (read_round s room now).1 ≡ none
    → (read_round s room now).0.buffer ≡ []
unfolding read_round
round_none s room now p h = elim (Bool-cases s.is_closed) [
  | inl c ↦ absurd (ground (arith, c, h))
  | inr c ↦ elim (Bool-cases (expired s.read_deadline now)) [
    | inl e ↦ absurd (ground (arith, c, e, h))
    | inr e ↦ elim (Bool-cases (nat_beq (length (take room s.buffer)) 0)) [
      | inl z ↦ rw (c, e, z) (nothing_left room s.buffer p z)
      | inr z ↦ absurd (ground (arith, c, e, z, h))
    ]
  ]
]

heard_wakes :
    (s : StreamState) (at : ℕ) (b : ℕ) (bs : Bytes)
    → s.buffer ≡ []
    → ((happens s at (packet true (b ∷ bs))).1 ≡ true)
      × (0 < length (happens s at (packet true (b ∷ bs))).0.buffer)
unfolding happens handle_bytes
heard_wakes s at b bs e = (rw e refl, rw e (omega arith))

-- A packet whose signal reaches the `Read` ends it.
read_heard :
    (fuel : ℕ) (s : StreamState) (room now at b : ℕ) (bs : Bytes) (es : List Timed)
    → 0 < room
    → now ≤ at
    → at + second - now < fuel
    → (end : ℕ) × (x : Bytes × Option StreamError) × (read fuel s room now
          (record { at = at; event = packet true (b ∷ bs) } ∷ es)
        ≡ some (end, x))
      × (end ≤ at)
unfolding read select_wait
read_heard zero s room now at b bs es p l f = absurd (omega (arith, f))
read_heard (suc fuel) s room now at b bs es p l f = elim (Option-cases (read_round s room now).1) [
  | inr (x, e) ↦ (now, x, rw (e, read) refl, l)
  | inl e ↦ elim (Bool-cases (ltb (now + second) at)) [
    | inl timer ↦
        let s1 = (read_round s room now).0 in
        let (end, x, g, q) =
          read_heard fuel s1 room (now + second) at b bs es p (ground (arith, timer))
            (omega (arith, f, l)) in
        (end, x, rw (e, read, timer) g, q)
    | inr first ↦
        let s1 = (read_round s room now).0 in
        let (wakes, full) = heard_wakes s1 at b bs (round_none s room now p e) in
        let s2 = (happens s1 at (packet true (b ∷ bs))).0 in
        let (x, g) = read_ready fuel s2 room at es p (omega (arith, f, l)) (inr full) in
        (at, x, rw (e, read, first, wakes) g, omega arith)
  ]
]

-- The time of an answer.
end_of : Option (ℕ × (Bytes × Option StreamError)) → ℕ
end_of none = 0
end_of (some (end, x)) = end

-- What `read_returns` says for a first event.
abbrev Returns : ℕ → StreamState → ℕ → ℕ → ℕ → ℕ → Event → List Timed → Type 0
Returns fuel s room now due at event es =
    (end : ℕ) × (x : Bytes × Option StreamError) × (read fuel s room now
        (record { at = at; event = event } ∷ es)
      ≡ some (end, x))
    × (end ≤ due + second)
    × (end ≤ latest_by due at event)

first_event :
    (fuel : ℕ) (s : StreamState) (room now due at : ℕ) (event : Event) (es : List Timed)
    → 0 < room
    → Ordered now (record { at = at; event = event } ∷ es)
    → Comes due (record { at = at; event = event } ∷ es)
    → suc (length es) + (due + second - now) < fuel
    → at ≤ due
    → Returns fuel s room now due at event es
unfolding end_of
first_event fuel s room now due at (packet true (b ∷ bs)) es p o h f l =
    let (end, x, g, q) =
      read_within fuel s room now due (record { at = at; event = packet true (b ∷ bs) } ∷ es) p o h
        (omega (arith, f)) in
    let (end', x', g', q') =
      read_heard fuel s room now at b bs es p o.0 (omega (arith, f, l, o.0)) in
    let same : end ≡ end' = ap end_of (sym g ∙ g') in (end, x, g, q, omega (arith, same, q'))
first_event fuel s room now due at (packet true []) es p o h f l =
    let (end, x, g, q) =
      read_within fuel s room now due (record { at = at; event = packet true [] } ∷ es) p o h
        (omega (arith, f)) in
    (end, x, g, q, q)
first_event fuel s room now due at (packet false pkt) es p o h f l =
    let (end, x, g, q) =
      read_within fuel s room now due (record { at = at; event = packet false pkt } ∷ es) p o h
        (omega (arith, f)) in
    (end, x, g, q, q)
first_event fuel s room now due at closing es p o h f l =
    let (end, x, g, q) =
      read_within fuel s room now due (record { at = at; event = closing } ∷ es) p o h
        (omega (arith, f)) in
    (end, x, g, q, q)
first_event fuel s room now due at (taken n) es p o h f l =
    let (end, x, g, q) =
      read_within fuel s room now due (record { at = at; event = taken n } ∷ es) p o h
        (omega (arith, f)) in
    (end, x, g, q, q)

-- A Read for at least one byte, where events come in order, the client is closed at a time or, if
-- no other Read runs, a packet with bytes comes then, returns within a second after that time,
-- whether or not a signal reaches it; and where the first event is a packet with bytes whose signal
-- reaches it, not after this. Fuel for the events and the nanoseconds until then is enough.
pub read_returns :
    (fuel : ℕ) (s : StreamState) (room now due : ℕ) (es : List Timed)
    → 0 < room
    → Ordered now es
    → Comes due es
    → length es + (due + second - now) < fuel
    → (end : ℕ) × (x : Bytes × Option StreamError) × (read fuel s room now es ≡ some (end, x))
      × (end ≤ due + second)
      × (end ≤ latest due es)
read_returns fuel s room now due [] p o (inl h) f = absurd h
read_returns fuel s room now due [] p o (inr (alone, h)) f = absurd h
read_returns fuel s room now due (e ∷ es) p o h f =
    first_event fuel s room now due e.at e.event es p o h (omega (arith, f))
      (due_later e.at due (e ∷ es) (omega arith, o.1) h)
