-- ===== src/Forked/Sends.antt =====
-- SocketUnixForked.c: what goes to the other process with a message, seen on each way that it goes.
use sctp_sandbox_c.Base.{ℕ, ◌≡◌, false, List, ◌∷◌, ltb, pos, is_negative, length, if◌then◌else◌}
use sctp_sandbox_c.Os.{Env, Call, Semaphore, History}
use sctp_sandbox_c.Peers.{Socket}
use sctp_sandbox_c.Forked.Ways.{count, queued, posted}

-- `shuffledIndexes(n)` gives each of the numbers below n once.
pub record Shuffles (env : Env) (n : ℕ) : Type 0 where
  pub enough : (h : History) → length (env.reply (Call.shuffled_indexes n) h).numbers ≡ n
  pub each :
      (p : ℕ) (h : History)
      → count p (env.reply (Call.shuffled_indexes n) h).numbers ≡ (if ltb p n then 1 else 0)

-- The calls that carry a message to the other process: on the socket pair, the pipes and the queue,
-- and its length through either shared memory before the semaphore beside it.
abbrev pub carried : Env → Socket → List ℕ → History → History
carried env s msg h =
    let h₁ : History =
      Call.shuffled_indexes 5
      ∷ Call.write s.forked.named_pipe msg
      ∷ Call.write s.forked.pipe msg
      ∷ Call.send s.fd msg
      ∷ h in
    let priorities =
      (env.reply (Call.shuffled_indexes 5) (
        Call.write s.forked.named_pipe msg
        ∷ Call.write s.forked.pipe msg
        ∷ Call.send s.fd msg
        ∷ h)).numbers in
    let h₂ = queued s.forked.peer_mq msg (priorities) h₁ in
    let h₃ = posted s s.forked.sem_named (Call.store_shared s.forked.shm_mmap (length msg) ∷ h₂) in
    posted s s.forked.sem_unnamed (Call.store_shared s.forked.shm_shmat (length msg) ∷ h₃)

-- The ends and the queue of a socket take a message, and its semaphores can be posted and read.
pub record Accepts (env : Env) (s : Socket) (msg : List ℕ) : Type 0 where
  pub socket_pair : (h : History) → is_negative (env.reply (Call.send s.fd msg) h).result ≡ false
  pub pipe : (h : History) → is_negative (env.reply (Call.write s.forked.pipe msg) h).result ≡ false
  pub named_pipe :
      (h : History) → is_negative (env.reply (Call.write s.forked.named_pipe msg) h).result ≡ false
  pub queue :
      (priority : ℕ) (h : History)
      → (env.reply (Call.mq_send s.forked.peer_mq msg priority) h).result ≡ pos 0
  pub post : (sem : Semaphore) (h : History) → (env.reply (Call.sem_post sem) h).result ≡ pos 0
  pub value : (sem : Semaphore) (h : History) → (env.reply (Call.sem_getvalue sem) h).result ≡ pos 0
