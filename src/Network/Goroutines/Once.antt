-- ===== src/Network/Goroutines/Once.antt =====
-- Every message that the goroutines of a connection pop is executed, queued or still to be submitted,
-- once, however their steps and the worker's interleave.
use noise.Base.{
  ◌+◌, ◌++◌, ◌<◌, ◌>>=◌, ◌≡◌, ◌≤◌, ◌⊎◌, ◌∙◌, Bool, List, Option, Option-cases, Outcome, [], ap,
  arith, done, false, get_elem?, inl, inr, length, none, panic, refl, some, subst, suc, sym, true,
  zero, ℕ, ◌∷◌,
}
use noise.Client.{PeerClient, execute_job, submit}
use noise.Network.Dispatch.{peer_of}
use noise.Network.Goroutines.{
  Crew, Routine, Step, check_sender, checking, popping, ran, run_routine, run_steps, runs, spawns,
  step, submit_next, submitting, turn, works,
}
use noise.Network.Goroutines.Counts.{
  held, times, times-append, times?, times?-append, waiting, waiting-append, waiting-set,
}
use noise.Network.Goroutines.Worker.{executed_closed, executed_id, executed_jobs, submitted}
use noise.Peer.{PeerId, equals}
use noise.Window.{Window}
use noise.Window.Deliver.{Tracks, arrived, cut, push-Tracks, run}
use noise.Window.Stream.{
  Honest, Honest-arrived, Honest-cut, pop-size, push-size, run-values_from, values_from,
  values_from-append,
}
use noise.Window.Take.{pop-Tracks}
use noise.Wire.{Message, SenderId}

length-values_from :
    {V : Type 0} (value : ℕ → V) (base count : ℕ) → length (values_from value base count) ≡ count
unfolding values_from
length-values_from value base zero = refl
length-values_from value base (suc count) = ap suc (length-values_from value (suc base) count)

module _ {M : Type 0} (id : PeerId) (base size : ℕ) (sent : ℕ → Message) where
  -- A message has a sender; and if this is of the client's identity, the message is the one sent with
  -- its nonce, which is in the window.
  abbrev pub Belongs : Crew M → Message → Type 0
  Belongs c msg =
      (sender : SenderId) × (msg.sender ≡ some sender)
      × ((equals id (peer_of sender) ≡ false)
          ⊎ ((equals id (peer_of sender) ≡ true)
              × (msg ≡ sent msg.message_nonce)
              × (base + length c.popped ≤ msg.message_nonce)
              × (msg.message_nonce < base + length c.popped + size)))

  -- Where a goroutine compares a sender next, its message belongs there.
  abbrev pub Fits : Crew M → Step → Type 0
  Fits c (spawns msg) = Unit {0}
  Fits c works = Unit {0}
  Fits c (runs i) = (msg : Message) → get_elem? c.routines i ≡ some (checking msg) → Belongs c msg

  -- Each step fits where it comes.
  unfoldable pub AllFit : Crew M → List Step → Type 0
  unfolding step
  AllFit c [] = Unit {0}
  AllFit c (s ∷ ss) =
      Fits c s × (elim (step c s) as (λ o. Type 0) [ panic ↦ Unit {0} | done c' ↦ AllFit c' ss ])

  fit_on :
      (c c' : Crew M) (s : Step) (ss : List Step)
      → step c s ≡ done c'
      → AllFit c (s ∷ ss)
      → AllFit c' ss
  unfolding AllFit
  fit_on c c' s ss e f =
      subst
        (λ (o : Outcome (Crew M)). elim o as (λ x. Type 0) [
          | panic ↦ Unit {0}
          | done c2 ↦ AllFit c2 ss
        ])
        e f.1

  -- The client is open and known by its identity; what was popped is the messages of the nonces from
  -- `base` on, and each of these has been executed, is queued or is held by a goroutine.
  pub record Once (c : Crew M) : Type 0 where
    pub named : c.client.id ≡ some id
    pub is_open : c.client.closed ≡ false
    pub sized : c.window.size ≡ size
    pub count : ℕ
    pub in_order : c.popped ≡ values_from sent base count
    pub pending : ℕ → Option Message
    pub tracks : Tracks c.window (base + count) pending
    pub honest : Honest sent pending
    pub balance :
        (test : Message → Bool)
        → times test c.executed + (times test c.client.jobs + waiting test c.routines)
          ≡ times? test c.popped

  -- A goroutine that holds nothing goes on with nothing.
  turn-Once :
      (c : Crew M) (i : ℕ) (old new : Routine) (window : Window Message)
      (pending : ℕ → Option Message)
      → (o : Once c) → get_elem? c.routines i ≡ some old
      → ((test : Message → Bool) → held test old ≡ held test new)
      → window.size ≡ size
      → Tracks window (base + o.count) pending
      → Honest sent pending
      → Once (turn (record c { window = window }) i new)
  unfolding turn
  turn-Once c i old new window pending o there same sz t h = record {
    named = o.named;
    is_open = o.is_open;
    sized = sz;
    count = o.count;
    in_order = o.in_order;
    pending = pending;
    tracks = t;
    honest = h;
    balance = λ test.
        omega (arith, o.balance test, waiting-set test c.routines i old new there, same test);
  }

  check-Once :
      (c : Crew M) (i : ℕ) (msg : Message)
      → (o : Once c) → get_elem? c.routines i ≡ some (checking msg)
      → Fits c (runs i)
      → (c' : Crew M) × (run_routine c i (checking msg) ≡ done c') × Once c'
  unfolding run_routine check_sender times?
  check-Once c i msg o there fits =
      let (sender, sent_by, which) = fits msg there in
      let at : run_routine c i (checking msg) ≡ check_sender c i msg (some sender) (some id) =
        ap (λ s. check_sender c i msg s c.client.id) sent_by
        ∙ ap (check_sender c i msg (some sender)) o.named in
      elim which [
        | inl other ↦ (
          turn c i (submitting []),
          at ∙ rw (other, check_sender) refl,
          turn-Once c i (checking msg) (submitting []) c.window o.pending o there (λ test. refl)
              o.sized o.tracks o.honest,
        )
        | inr (own, genuine, lo, hi) ↦
            let n = msg.message_nonce in
            let many : length c.popped ≡ o.count =
              ap (λ l. length l) o.in_order ∙ length-values_from sent base o.count in
            let (window, e, t) =
              push-Tracks c.window (base + o.count) n (some msg) o.pending o.tracks
                (omega (arith, many, lo)) (omega (arith, many, hi, o.sized)) in
            (
              turn (record c { window = window }) i popping,
              at ∙ rw (own, check_sender, e) refl,
              turn-Once c i (checking msg) popping window (arrived o.pending n (some msg)) o there
                  (λ test. refl) (push-size c.window window n (some msg) e ∙ o.sized) t
                  (subst (λ m. Honest sent (arrived o.pending n (some m))) (sym genuine)
                    (Honest-arrived sent o.pending n o.honest)),
            )
      ]

  pop-Once :
      (c : Crew M) (i : ℕ)
      → Once c
      → get_elem? c.routines i ≡ some popping
      → (c' : Crew M) × (run_routine c i popping ≡ done c') × Once c'
  unfolding run_routine turn
  pop-Once c i o there =
      let next = base + o.count in
      let ready = run o.pending next c.window.size in
      let (window, e, t) = pop-Tracks c.window next o.pending o.tracks in
      let far : next + length ready ≡ base + (o.count + length ready) = omega arith in
      (
        turn (record c { window = window; popped = c.popped ++ ready }) i (submitting ready),
        rw (e, run_routine) refl,
        record {
          named = o.named;
          is_open = o.is_open;
          sized = pop-size c.window window ready e ∙ o.sized;
          count = o.count + length ready;
          in_order =
              ap (λ l. l ++ ready) o.in_order
              ∙ ap (λ l. values_from sent base o.count ++ l)
                  (run-values_from sent o.pending next c.window.size o.honest)
              ∙ values_from-append sent base o.count (length ready);
          pending = cut o.pending (next + length ready);
          tracks = subst (λ b. Tracks window b (cut o.pending (next + length ready))) far t;
          honest = Honest-cut sent o.pending (next + length ready) o.honest;
          balance = λ test. omega (
            arith,
            o.balance test,
            waiting-set test c.routines i popping (submitting ready) there,
            times?-append test c.popped ready,
          );
        },
      )

  submit-Once :
      (c : Crew M) (i : ℕ) (msg : Message) (ms : List (Option Message))
      → Once c
      → get_elem? c.routines i ≡ some (submitting (some msg ∷ ms))
      → Once (submit_next c i ms (submit true c.client msg))
  unfolding submit_next turn times times?
  submit-Once c i msg ms o there = elim (Option-cases (submit true c.client msg)) [
    | inl full ↦ rw (full, submit_next) o
    | inr (client, went) ↦
        let queued : client ≡ record c.client { jobs = c.client.jobs ++ (msg ∷ []) } =
          submitted c.client client msg o.is_open went in
        rw (went, submit_next)
          (record {
            named = ap (λ (d : PeerClient M Message). d.id) queued ∙ o.named;
            is_open = ap (λ (d : PeerClient M Message). d.closed) queued ∙ o.is_open;
            sized = o.sized;
            count = o.count;
            in_order = o.in_order;
            pending = o.pending;
            tracks = o.tracks;
            honest = o.honest;
            balance = λ test. omega (
              arith,
              o.balance test,
              waiting-set test c.routines i (submitting (some msg ∷ ms)) (submitting ms) there,
              times-append test c.client.jobs (msg ∷ []),
              ap (λ (d : PeerClient M Message). times test d.jobs) queued,
            );
          })
  ]

  works-Once : (c : Crew M) → Once c → (c' : Crew M) × (step c works ≡ done c') × Once c'
  unfolding step
  works-Once c o =
      let client = (execute_job true c.client).0 in
      let job = (execute_job true c.client).1 in
      (
        record c { client = client; executed = c.executed ++ ran job },
        refl,
        record {
          named = executed_id c.client ∙ o.named;
          is_open = executed_closed c.client ∙ o.is_open;
          sized = o.sized;
          count = o.count;
          in_order = o.in_order;
          pending = o.pending;
          tracks = o.tracks;
          honest = o.honest;
          balance = λ test. omega (
            arith,
            o.balance test,
            times-append test c.executed (ran job),
            times-append test (ran job) client.jobs,
            ap (times test) (executed_jobs c.client o.is_open),
          );
        },
      )

  spawn-Once :
      (c : Crew M) (msg : Message)
      → Once c
      → Once (record c { routines = c.routines ++ (checking msg ∷ []) })
  unfolding waiting
  spawn-Once c msg o = record {
    named = o.named;
    is_open = o.is_open;
    sized = o.sized;
    count = o.count;
    in_order = o.in_order;
    pending = o.pending;
    tracks = o.tracks;
    honest = o.honest;
    balance =
        λ test. omega (arith, o.balance test, waiting-append test c.routines (checking msg ∷ []));
  }

  routine-Once :
      (c : Crew M) (i : ℕ) (r : Routine)
      → Once c
      → get_elem? c.routines i ≡ some r
      → Fits c (runs i)
      → (c' : Crew M) × (run_routine c i r ≡ done c') × Once c'
  unfolding run_routine times?
  routine-Once c i (checking msg) o there f = check-Once c i msg o there f
  routine-Once c i popping o there f = pop-Once c i o there
  routine-Once c i (submitting []) o there f = (c, refl, o)
  routine-Once c i (submitting (none ∷ ms)) o there f = (
    turn c i (submitting ms),
    refl,
    turn-Once c i (submitting (none ∷ ms)) (submitting ms) c.window o.pending o there (λ test. refl)
        o.sized o.tracks o.honest,
  )
  routine-Once c i (submitting (some msg ∷ ms)) o there f =
      (submit_next c i ms (submit true c.client msg), refl, submit-Once c i msg ms o there)

  step-Once :
      (c : Crew M) (s : Step) → Once c → Fits c s → (c' : Crew M) × (step c s ≡ done c') × Once c'
  unfolding step
  step-Once c (spawns msg) o f =
      (record c { routines = c.routines ++ (checking msg ∷ []) }, refl, spawn-Once c msg o)
  step-Once c works o f = works-Once c o
  step-Once c (runs i) o f = elim (Option-cases (get_elem? c.routines i)) [
    | inl nobody ↦ (c, rw (nobody, step) refl, o)
    | inr (r, there) ↦
        let (c', e, o') = routine-Once c i r o there f in (c', rw (there, step) e, o')
  ]

  -- Where a connection's client is open and known by an identity, and the goroutines that compare a
  -- sender find one, and a message of this identity to be the one sent with its nonce, which is in
  -- the window, then in any interleaving of the steps of the goroutines and of the worker none
  -- panics. What all pops return is the messages of consecutive nonces, in order; and any test
  -- passes as many of these as of those that were executed, are queued, or are held by a goroutine
  -- that has popped and not submitted them, so each is there once and no other message is.
  pub run_steps-Once :
      (c : Crew M) (ss : List Step)
      → Once c
      → AllFit c ss
      → (c' : Crew M) × (run_steps c ss ≡ done c') × Once c'
  unfolding run_steps AllFit
  run_steps-Once c [] o f = (c, refl, o)
  run_steps-Once c (s ∷ ss) o f =
      let (c1, e, o1) = step-Once c s o f.0 in
      let (c2, e2, o2) = run_steps-Once c1 ss o1 (fit_on c c1 s ss e f) in
      (c2, rw (e, ◌>>=◌) e2, o2)
