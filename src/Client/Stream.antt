-- ===== src/Client/Stream.antt =====
-- The stream of a client as a queue of bytes: `handleBytes` puts bytes in at the end, and `Read`
-- takes them out at the front, however the calls and the rounds of their loops alternate.
use noise.Base.{
  ◌++◌, Bool-cases, Bytes, List, Option, [], ap, append_assoc, drop, inl, inr, length, nat_beq,
  none, refl, some, sym, take, take-append-drop, true, ℕ, ◌∙◌, ◌∷◌, ◌≡◌, arith,
}
use noise.Client.{StreamState, StreamError, handle_bytes, read_round, expired}

-- The bytes of a result.
abbrev pub got : Option (Bytes × Option StreamError) → Bytes
got none = []
got (some (out, e)) = out

-- A round hands out the front of the buffer, or goes on waiting with an empty one.
record Rounded (s : StreamState) (room : ℕ) (r : StreamState × Option (Bytes × Option StreamError))
    : Type 0 where
  given : got r.1 ≡ take room s.buffer
  kept : r.0.buffer ≡ drop room s.buffer

read_round-Rounded : (s : StreamState) (room now : ℕ) → Rounded s room (read_round s room now)
unfolding read_round
read_round-Rounded s room now = elim (Bool-cases s.is_closed) [
  | inl c ↦ rw c (record { given = refl; kept = refl })
  | inr c ↦ elim (Bool-cases (expired s.read_deadline now)) [
    | inl e ↦ rw (c, e) (record { given = refl; kept = refl })
    | inr e ↦ elim (Bool-cases (nat_beq (length (take room s.buffer)) 0)) [
      | inl z ↦ rw (c, e, z) (record { given = sym (nothing (take room s.buffer) z); kept = refl })
      | inr z ↦ rw (c, e, z) (record { given = refl; kept = refl })
    ]
  ]
]
  where
    nothing : (bs : Bytes) → nat_beq (length bs) 0 ≡ true → bs ≡ []
    nothing [] h = refl
    nothing (b ∷ bs) h = ground (arith, h)

-- A critical section of the stream: a packet is handled, a round of a `Read` runs, or the client is
-- closed.
pub data Section : Type 0 where
  packet : Bytes → Section
  round : (room now : ℕ) → Section
  closing : Section

-- What the reads returned and what the packets were, after critical sections in an order.
pub record Traffic : Type 0 where
  pub stream : StreamState
  pub read_out : Bytes
  pub handled : Bytes

unfoldable pub run_section : Traffic → Section → Traffic
unfolding handle_bytes read_round
run_section t (packet pkt) = record t {
  stream = (handle_bytes t.stream pkt).0;
  handled = t.handled ++ pkt;
}
run_section t (round room now) =
    let r = read_round t.stream room now in
    record t { stream = r.0; read_out = t.read_out ++ got r.1 }
run_section t closing = record t { stream = record t.stream { is_closed = true } }

unfoldable pub run_sections : Traffic → List Section → Traffic
unfolding run_section
run_sections t [] = t
run_sections t (s ∷ ss) = run_sections (run_section t s) ss

abbrev pub fresh_traffic : StreamState → Traffic
fresh_traffic s = record { stream = s; read_out = []; handled = s.buffer }

-- The bytes read and those still in the buffer are those handled.
abbrev Fifo : Traffic → Type 0
Fifo t = t.read_out ++ t.stream.buffer ≡ t.handled

run_section-Fifo : (t : Traffic) (s : Section) → Fifo t → Fifo (run_section t s)
unfolding run_section handle_bytes
run_section-Fifo t (packet pkt) h =
    sym (append_assoc t.read_out t.stream.buffer pkt) ∙ ap (λ bs. bs ++ pkt) h
run_section-Fifo t (round room now) h =
    let q = read_round-Rounded t.stream room now in
    append_assoc t.read_out _ _
    ∙ ap (λ bs. t.read_out ++ (bs ++ (read_round t.stream room now).0.buffer)) q.given
    ∙ ap (λ bs. t.read_out ++ (take room t.stream.buffer ++ bs)) q.kept
    ∙ ap (λ bs. t.read_out ++ bs) (take-append-drop room t.stream.buffer)
    ∙ h
run_section-Fifo t closing h = h

run_sections-Fifo : (t : Traffic) (ss : List Section) → Fifo t → Fifo (run_sections t ss)
unfolding run_sections
run_sections-Fifo t [] h = h
run_sections-Fifo t (s ∷ ss) h = run_sections-Fifo (run_section t s) ss (run_section-Fifo t s h)

-- In any order of packets, rounds of reads and a close, the bytes read and then those in the
-- buffer are the bytes handled, in order.
pub run_sections_lem :
    (s : StreamState) (ss : List Section)
    → (run_sections (fresh_traffic s) ss).read_out
        ++ (run_sections (fresh_traffic s) ss).stream.buffer
      ≡ (run_sections (fresh_traffic s) ss).handled
run_sections_lem s ss = run_sections-Fifo (fresh_traffic s) ss refl
