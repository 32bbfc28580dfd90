-- ===== src/Network/Goroutines/Worker.antt =====
-- The queue of a client of network/client.go that is open: `Submit`, and a round of `executeJobs`.
use noise.Base.{◌++◌, ◌≡◌, Bool-cases, [], arith, false, inl, inr, length, ltb, some, true, ◌∷◌}
use noise.Client.{PeerClient, execute_job, max_jobs, submit}
use noise.Network.Goroutines.{ran}
use noise.Wire.{Message}

module _ {M : Type 0} (c : PeerClient M Message) where
  pub executed_id : (execute_job true c).0.id ≡ c.id
  unfolding execute_job
  executed_id = ground arith

  pub executed_closed : (execute_job true c).0.closed ≡ c.closed
  unfolding execute_job
  executed_closed = ground arith

  pub executed_jobs :
      c.closed ≡ false → ran (execute_job true c).1 ++ (execute_job true c).0.jobs ≡ c.jobs
  unfolding execute_job
  executed_jobs h = ground (arith, h)

  pub submitted :
      (c' : PeerClient M Message) (msg : Message)
      → c.closed ≡ false
      → submit true c msg ≡ some c'
      → c' ≡ record c { jobs = c.jobs ++ (msg ∷ []) }
  unfolding submit
  submitted c' msg is_open e = elim (Bool-cases (ltb (length c.jobs) max_jobs)) [
    | inl room ↦
        let went : some (record c { jobs = c.jobs ++ (msg ∷ []) }) ≡ some c' =
          ground (arith, room, is_open, e) in
        cc
    | inr full ↦ absurd (ground (arith, full, is_open, e))
  ]
