-- ===== src/Client/Reads.antt =====
-- `Read` of network/client.go comes to an end: its timer lets it see what no signal tells it.
use noise.Base.{
  ◌+◌, ◌-◌, ◌<◌, All, Any, Bool-cases, Bytes, List, Option, Option-cases, [], arith, false, inl,
  inr, length, length-append, length-take, ltb, nat_beq, none, refl, some, suc, take, true, zero, ℕ,
  ◌∙◌, ◌∷◌, ◌≡◌, ◌≤◌, ◌⊎◌,
}
use noise.Client.{
  Event, StreamError, StreamState, Timed, closing, deadline_exceeded, expired, handle_bytes,
  happens, packet, read, read_round, second, select_wait, stream_closed, taken,
}

-- The events come in order, none before a time.
abbrev pub Ordered : ℕ → List Timed → Type 0
Ordered now [] = Unit {0}
Ordered now (e ∷ es) = (now ≤ e.at) × Ordered e.at es

-- No other `Read` runs.
abbrev pub IsOwn : Event → Type 0
IsOwn (packet heard pkt) = Unit {0}
IsOwn closing = Unit {0}
IsOwn (taken room) = ⊥

abbrev pub Alone : List Timed → Type 0
Alone es = All (λ e. IsOwn e.event) es

abbrev pub IsClosing : Event → Type 0
IsClosing (packet heard pkt) = ⊥
IsClosing closing = Unit {0}
IsClosing (taken room) = ⊥

abbrev pub IsPacket : Event → Type 0
IsPacket (packet heard pkt) = 0 < length pkt
IsPacket closing = ⊥
IsPacket (taken room) = ⊥

-- At a time the client is closed, or, where no other `Read` runs, a packet with bytes comes.
abbrev pub Comes : ℕ → List Timed → Type 0
Comes due es =
    Any (λ e. (e.at ≡ due) × IsClosing e.event) es
    ⊎ (Alone es × Any (λ e. (e.at ≡ due) × IsPacket e.event) es)

-- A round would end the `Read`, whatever events come before it.
abbrev Ready : StreamState → List Timed → Type 0
Ready s es = (s.is_closed ≡ true) ⊎ (Alone es × (0 < length s.buffer))

round_ends :
    (s : StreamState) (room now : ℕ)
    → 0 < room
    → (s.is_closed ≡ true) ⊎ (0 < length s.buffer)
    → (x : Bytes × Option StreamError) × ((read_round s room now).1 ≡ some x)
unfolding read_round
round_ends s room now p h = elim (Bool-cases s.is_closed) [
  | inl c ↦ ((take room s.buffer, some stream_closed), rw c refl)
  | inr c ↦ elim (Bool-cases (expired s.read_deadline now)) [
    | inl e ↦ ((take room s.buffer, some deadline_exceeded), rw (c, e) refl)
    | inr e ↦
        let some_bytes : 0 < length s.buffer = elim h [
          | inl x ↦ absurd (ground (arith, x, c))
          | inr x ↦ x
        ] in
        let z : nat_beq (length (take room s.buffer)) 0 ≡ false =
          ground (arith, length-take room s.buffer, some_bytes) in
        ((take room s.buffer, none), rw (c, e, z) refl)
  ]
]

round_closed : (s : StreamState) (room now : ℕ) → (read_round s room now).0.is_closed ≡ s.is_closed
unfolding read_round
round_closed s room now = ground arith

happens-Ready :
    (s : StreamState) (at : ℕ) (event : Event) (es : List Timed)
    → Ready s (record { at = at; event = event } ∷ es)
    → Ready (happens s at event).0 es
unfolding happens handle_bytes
happens-Ready s at (packet heard pkt) es (inl c) = inl c
happens-Ready s at (packet heard pkt) es (inr ((own, alone), b)) =
    inr (alone, omega (arith, b, length-append s.buffer pkt))
happens-Ready s at closing es h = inl refl
happens-Ready s at (taken room) es (inl c) = inl (round_closed s room at ∙ c)
happens-Ready s at (taken room) es (inr ((own, alone), b)) = absurd own

-- What is to come has come, and then the stream is ready, or comes later.
happens-Comes :
    (s : StreamState) (at : ℕ) (event : Event) (es : List Timed) (due : ℕ)
    → Comes due (record { at = at; event = event } ∷ es)
    → Ready (happens s at event).0 es ⊎ Comes due es
unfolding happens handle_bytes
happens-Comes s at event es due (inl (inr later)) = inr (inl later)
happens-Comes s at event es due (inr ((own, alone), inr later)) = inr (inr (alone, later))
happens-Comes s at closing es due (inl (inl (e, c))) = inl (inl refl)
happens-Comes s at (packet heard pkt) es due (inl (inl (e, c))) = absurd c
happens-Comes s at (taken room) es due (inl (inl (e, c))) = absurd c
happens-Comes s at (packet heard pkt) es due (inr ((own, alone), inl (e, b))) =
    inl (inr (alone, omega (arith, b, length-append s.buffer pkt)))
happens-Comes s at closing es due (inr ((own, alone), inl (e, b))) = absurd b
happens-Comes s at (taken room) es due (inr ((own, alone), inl (e, b))) = absurd b

Ordered-due :
    (now due : ℕ) (es : List Timed) (Q : Event → Type 0)
    → Ordered now es
    → Any (λ e. (e.at ≡ due) × Q e.event) es
    → now ≤ due
Ordered-due now due [] Q o h = absurd h
Ordered-due now due (e ∷ es) Q (l, o) (inl (same, q)) = omega (arith, l, same)
Ordered-due now due (e ∷ es) Q (l, o) (inr h) = omega (arith, l, Ordered-due e.at due es Q o h)

pub due_later : (now due : ℕ) (es : List Timed) → Ordered now es → Comes due es → now ≤ due
due_later now due es o (inl h) = Ordered-due now due es IsClosing o h
due_later now due es o (inr (alone, h)) = Ordered-due now due es IsPacket o h

Ordered-mono : (now now' : ℕ) (es : List Timed) → now' ≤ now → Ordered now es → Ordered now' es
Ordered-mono now now' [] l o = tt
Ordered-mono now now' (e ∷ es) l (b, o) = (omega (arith, l, b), o)

-- How a wait ends: at its timer or by an event, not before it began; and the stream is ready, or what
-- is to come is still to come.
record Waited (start until due : ℕ) (es : List Timed) (r : StreamState × ℕ × List Timed)
    : Type 0 where
  not_before : start ≤ r.1
  in_time : r.1 ≤ until
  fewer : length r.2 ≤ length es
  goes_on : (r.1 ≡ until) ⊎ (length r.2 < length es)
  ordered : Ordered r.1 r.2
  ready : Ready r.0 r.2 ⊎ Comes due r.2

select_wait-Waited :
    (start until due : ℕ) (s : StreamState) (es : List Timed)
    → start ≤ until
    → Ordered start es
    → Ready s es ⊎ Comes due es
    → Waited start until due es (select_wait until s es)
unfolding select_wait
select_wait-Waited start until due s [] l o h = record {
  not_before = l;
  in_time = omega arith;
  fewer = omega arith;
  goes_on = inl refl;
  ordered = tt;
  ready = h;
}
select_wait-Waited start until due s (e ∷ es) l (b, o) h = elim (Bool-cases (ltb until e.at)) [
  | inl timer ↦ rw timer (record {
    not_before = l;
    in_time = omega arith;
    fewer = omega arith;
    goes_on = inl refl;
    ordered = (ground (arith, timer), o);
    ready = h;
  })
  | inr first ↦
      let within : e.at ≤ until = ground (arith, first) in
      let after : Ready (happens s e.at e.event).0 es ⊎ Comes due es = elim h [
        | inl r ↦ inl (happens-Ready s e.at e.event es r)
        | inr c ↦ happens-Comes s e.at e.event es due c
      ] in
      elim (Bool-cases (happens s e.at e.event).1) [
        | inl wakes ↦
            rw (first, wakes)
              (record {
                not_before = b;
                in_time = within;
                fewer = omega arith;
                goes_on = inr (omega arith);
                ordered = o;
                ready = after;
              })
        | inr sleeps ↦
            let w =
              select_wait-Waited e.at until due (happens s e.at e.event).0 es within o after in
            rw (first, sleeps)
              (record {
                not_before = omega (arith, b, w.not_before);
                in_time = w.in_time;
                fewer = omega (arith, w.fewer);
                goes_on = elim w.goes_on [ inl t ↦ inl t | inr f ↦ inr (omega (arith, f)) ];
                ordered = w.ordered;
                ready = w.ready;
              })
      ]
]

Ready-now :
    (s : StreamState) (es : List Timed) → Ready s es → (s.is_closed ≡ true) ⊎ (0 < length s.buffer)
Ready-now s es (inl c) = inl c
Ready-now s es (inr (alone, b)) = inr b

pub read_ready :
    (fuel : ℕ) (s : StreamState) (room now : ℕ) (es : List Timed)
    → 0 < room
    → 0 < fuel
    → (s.is_closed ≡ true) ⊎ (0 < length s.buffer)
    → (x : Bytes × Option StreamError) × (read fuel s room now es ≡ some (now, x))
unfolding read
read_ready zero s room now es p f h = absurd (omega (arith, f))
read_ready (suc fuel) s room now es p f h =
    let (x, e) = round_ends s room now p h in (x, rw (e, read) refl)

-- Enough fuel, and a bound on the time of the return.
pub read_within :
    (fuel : ℕ) (s : StreamState) (room now due : ℕ) (es : List Timed)
    → 0 < room
    → Ordered now es
    → Comes due es
    → length es + (due + second - now) < fuel
    → (end : ℕ) × (x : Bytes × Option StreamError) × (read fuel s room now es ≡ some (end, x))
      × (end ≤ due + second)
unfolding read
read_within zero s room now due es p o h f = absurd (omega (arith, f))
read_within (suc fuel) s room now due es p o h f =
    let soon = due_later now due es o h in
    elim (Option-cases (read_round s room now).1) [
      | inr (x, e) ↦ (now, x, rw (e, read) refl, omega (arith, soon))
      | inl e ↦
          let s1 = (read_round s room now).0 in
          let w = select_wait-Waited now (now + second) due s1 es (omega arith) o (inr h) in
          let r = select_wait (now + second) s1 es in
          let on : read (suc fuel) s room now es ≡ read fuel r.0 room r.1 r.2 = rw (e, read) refl in
          elim w.ready [
            | inl ready ↦
                let (x, g) =
                  read_ready fuel r.0 room r.1 r.2 p (omega (arith, f, soon))
                    (Ready-now r.0 r.2 ready) in
                (r.1, x, on ∙ g, omega (arith, soon, w.in_time))
            | inr comes ↦
                let more = due_later r.1 due r.2 w.ordered comes in
                let less : length r.2 + (due + second - r.1) < fuel = elim w.goes_on [
                  | inl timer ↦ omega (arith, f, timer, w.fewer, more, soon)
                  | inr fewer ↦ omega (arith, f, fewer, w.not_before, more, soon)
                ] in
                let (end, x, g, b) = read_within fuel r.0 room r.1 due r.2 p w.ordered comes less in
                (end, x, on ∙ g, b)
          ]
    ]
