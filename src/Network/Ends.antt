-- ===== src/Network/Ends.antt =====
-- NetworkTask.c: how a task is told to quit, and how its lifetime runs out.
use sctp_sandbox_c.Base.{
  ℕ, zero, suc, ◌+◌, ◌<◌, ◌≡◌, ◌≢◌, ◌⊎◌, refl, Bool, true, false, Option, none, some, Bool-cases,
  inl, inr, arith, if◌then◌else◌,
}
use sctp_sandbox_c.Os.{
  Env, Call, History, Outcome, ok, exited, fault, M, pure, and_then, ◌>>=◌, invoke,
}
use sctp_sandbox_c.Os.Calls.{Grows, Calls-Grows}
use sctp_sandbox_c.Os.Laws.{IsLawful}
use sctp_sandbox_c.Bind.Scheduled.{listen_socket-Streams}
use sctp_sandbox_c.Peers.{Socket}
use sctp_sandbox_c.Dispatch.{clean_up_socket}
use sctp_sandbox_c.Dispatch.Calls.{create_socket-Streams, connect_socket-Grows}
use sctp_sandbox_c.Network.{
  NetworkTaskParams, time_to_die, network_loop, deadline_of, finish, network_task,
}
use sctp_sandbox_c.Network.Polls.{
  After, After-refl, After-trans, After-call, After-weaken, QuitsBy, ExpiresBy, dies_at, OutlivedBy,
}
use sctp_sandbox_c.Network.Calls.{start_task-Grows, goes_on-Grows}
use sctp_sandbox_c.Network.Rounds.{grown, goes_on-past, Turn, network_round-Turn}

-- A run that does not stop for want of fuel.
abbrev pub Ends : Outcome (Option Socket) → Type 0
Ends (ok none h) = ⊥
Ends (ok (some s) h) = Unit {0}
Ends (exited status h) = Unit {0}
Ends (fault x) = Unit {0}

Ends-if :
    (b : Bool) (m n : M (Option Socket)) (h : History)
    → (b ≡ true → Ends (m h))
    → Ends (n h)
    → Ends ((if b then m else n) h)
Ends-if true m n h e f = e refl
Ends-if false m n h e f = f

Grows-Ends :
    {A : Type 0} (base h : History) (n : ℕ) (m : M A) (f : A → M (Option Socket))
    → Grows m
    → After base n h
    → ((a : A) (h' : History) → After base n h' → Ends (f a h'))
    → Ends ((m >>= f) h)
Grows-Ends base h n m f e g k =
    grown Ends base h n (m h) f (e.holds h) g (λ status h'. tt) (λ x. tt) k

module _ (env : Env) where
  cleaned-Ends : (s : Socket) (o : Outcome (Unit {0})) → Ends (and_then o λ _. pure (some s))
  cleaned-Ends s (ok a h) = tt
  cleaned-Ends s (exited status h) = tt
  cleaned-Ends s (fault x) = tt

  finish-Ends : (o : Outcome (Option Socket)) → Ends o → Ends (and_then o (finish env))
  unfolding finish
  finish-Ends (ok (some s) h) e = cleaned-Ends s (clean_up_socket env s h)
  finish-Ends (ok none h) e = elim e [ ]
  finish-Ends (exited status h) e = tt
  finish-Ends (fault x) e = tt

Turn-then :
    (env : Env) (base : History) (n k : ℕ) (o : Outcome (Socket × Bool))
    (f : Socket × Bool → M (Option Socket))
    → Turn env base n k o
    → ((r : Socket × Bool) (h : History) → Turn env base n k (ok r h) → Ends (f r h))
    → Ends (and_then o f)
Turn-then env base n k (ok r h) f t next = next r h t
Turn-then env base n k (exited status h) f t next = tt
Turn-then env base n k (fault x) f t next = tt

module _ (env : Env) (L : IsLawful env) (base : History) (n : ℕ) where
  -- The loop goes on only while its deadline is not past.
  network_loop-Ends :
      (fuel : ℕ) (deadline : Option (ℕ × ℕ)) (s : Socket) (k : ℕ) (h : History)
      → QuitsBy env n base ⊎ ExpiresBy env n deadline base
      → After base k h
      → n < k + fuel
      → 0 < fuel
      → Ends (network_loop env fuel deadline s h)
  unfolding network_loop
  network_loop-Ends zero deadline s k h stops g enough some_fuel = absurd (omega arith)
  network_loop-Ends (suc zero) deadline s k h (inl quits) g enough some_fuel =
      Grows-Ends base h k _ _ (goes_on-Grows env deadline) g λ on h₁ g₁.
        Ends-if on _ _ h₁
          (λ _.
            Turn-then env base n k _ _ (network_round-Turn env L base n s k h₁ g₁)
              λ r h₂ t. rw (t.1 quits (omega arith)) tt)
          tt
  network_loop-Ends (suc zero) none s k h (inr past) g enough some_fuel = elim past [ ]
  network_loop-Ends (suc zero) (some deadline) s k h (inr past) g enough some_fuel =
      rw (goes_on-past env deadline h (past h (After-weaken base h n k (omega arith) g))) tt
  network_loop-Ends (suc (suc fuel)) deadline s k h stops g enough some_fuel =
      Grows-Ends base h k _ _ (goes_on-Grows env deadline) g λ on h₁ g₁.
        Ends-if on _ _ h₁
          (λ _. Turn-then env base n k _ _ (network_round-Turn env L base n s k h₁ g₁) λ r h₂ t.
            Ends-if r.1 _ _ h₂ (λ _. tt)
              (network_loop-Ends (suc fuel) deadline r.0 (suc k) h₂ stops t.0 (omega arith)
                (omega arith)))
          tt

module _ (env : Env) (L : IsLawful env) (n : ℕ) where
  QuitsBy-later : (h h' : History) → After h 0 h' → QuitsBy env n h → QuitsBy env n h'
  QuitsBy-later h h' g quits h'' g' =
      quits h'' (After-weaken h h'' n (0 + n) (omega arith) (After-trans h h' h'' 0 n g g'))

  rounds-Ends :
      (fuel : ℕ) (deadline : Option (ℕ × ℕ)) (s : Socket) (h : History)
      → QuitsBy env n h ⊎ ExpiresBy env n deadline h
      → n < fuel
      → Ends ((network_loop env fuel deadline s >>= finish env) h)
  rounds-Ends fuel deadline s h stops enough = finish-Ends env _ (
      network_loop-Ends env L h n fuel deadline s 0 h stops (After-refl h) (omega arith)
        (omega arith))

  -- The rounds of a task, once it has set its deadline.
  dated-Ends :
      (fuel : ℕ) (lifetime : ℕ × ℕ) (s : Socket) (h h' : History)
      → QuitsBy env n h ⊎ OutlivedBy env n lifetime h
      → After h 0 h'
      → n < fuel
      → Ends (
          (deadline_of env lifetime >>= λ deadline. network_loop env fuel deadline s >>= finish env)
            h')
  unfolding deadline_of time_to_die invoke
  dated-Ends fuel lifetime s h h' (inr (lives, late)) g enough =
      rw lives (rounds-Ends fuel (some (dies_at env lifetime h')) s _ (inr (late h' g)) enough)
  dated-Ends fuel lifetime s h h' (inl quits) g enough = elim (Bool-cases (env.is_zero lifetime)) [
    | inl e ↦ rw e (rounds-Ends fuel none s h' (inl (QuitsBy-later h h' g quits)) enough)
    | inr e ↦ rw e (
        rounds-Ends fuel (some (dies_at env lifetime h')) s _
          (inl (QuitsBy-later h _ (After-call Call.gettimeofday h h' 0 g) quits)) enough)
  ]

  task-Ends :
      (fuel : ℕ) (p : NetworkTaskParams) (h : History)
      → QuitsBy env n h ⊎ OutlivedBy env n p.lifetime h
      → n < fuel
      → Ends (network_task env fuel p h)
  unfolding network_task
  task-Ends fuel p h stops enough =
      Grows-Ends h h 0 _ _ (start_task-Grows env p.delay) (After-refl h) λ _ h₁ g₁.
        Grows-Ends h h₁ 0 _ _
          (Calls-Grows _ (create_socket-Streams env p.config.locals p.config.protocol _)) g₁
          λ s h₂ g₂.
            Grows-Ends h h₂ 0 _ _ (Calls-Grows _ (listen_socket-Streams env s 10)) g₂ λ _ h₃ g₃.
              Grows-Ends h h₃ 0 _ _ (connect_socket-Grows env s p.config.remotes) g₃
                λ t h₄ g₄. dated-Ends fuel p.lifetime t h h₄ stops g₄ enough

  -- A network task of any protocol with more than n rounds of fuel does not stop for want of fuel,
  -- whatever its configuration, messages and results of calls, where quit is in the mailbox from
  -- its n-th reading on, or where the task has a lifetime and, from the n-th reading after it set
  -- its deadline on, the clock is past the deadline or cannot be read: it returns, exits or meets a
  -- fault. The string tests test what their names say.
  pub network_task-Ends :
      (fuel : ℕ) (p : NetworkTaskParams) (h : History)
      → QuitsBy env n h ⊎ OutlivedBy env n p.lifetime h
      → n < fuel
      → (h' : History) → network_task env fuel p h ≢ ok none h'
  network_task-Ends fuel p h stops enough h' e =
      let bad : Ends (ok none h') = rw e at (task-Ends fuel p h stops enough) in bad
