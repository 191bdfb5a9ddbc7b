-- ===== src/Forked/Ways.antt =====
-- SocketUnixForked.c: the ways that a message goes, read off a history of calls.
use sctp_sandbox_c.Base.{ℕ, ◌+◌, ◌≡◌, refl, ◌∙◌, List, [], ◌∷◌, ◌==◌, ℤ, if◌then◌else◌, arith}
use sctp_sandbox_c.Os.{Call, Semaphore, History}
use sctp_sandbox_c.Os.Calls.{GoesOn, GoesOn-refl, GoesOn-trans}
use sctp_sandbox_c.Peers.{Socket}

-- How often a number is in a list, and how often a message was queued with a priority.
abbrev pub count : ℕ → List ℕ → ℕ
count p [] = 0
count p (n ∷ numbers) = let rest = count p numbers in if n == p then 1 + rest else rest

abbrev pub times_queued : ℕ → History → ℕ
times_queued p [] = 0
times_queued p (Call.mq_send mq msg priority ∷ h) =
    let rest = times_queued p h in if priority == p then 1 + rest else rest
times_queued p (c ∷ h) = times_queued p h

-- The calls that write to a socket or a pipe, and those that announce a value, the latest first.
abbrev pub transfers : History → History
transfers [] = []
transfers (Call.send fd msg ∷ h) = Call.send fd msg ∷ transfers h
transfers (Call.write fd msg ∷ h) = Call.write fd msg ∷ transfers h
transfers (c ∷ h) = transfers h

abbrev pub announcements : History → History
announcements [] = []
announcements (Call.store_shared shm v ∷ h) = Call.store_shared shm v ∷ announcements h
announcements (Call.sem_post sem ∷ h) = Call.sem_post sem ∷ announcements h
announcements (c ∷ h) = announcements h

-- What is queued is this message, for the other process.
abbrev pub IsOwn : Socket → List ℕ → Call → Type 0
IsOwn s msg (Call.mq_send mq queued_msg priority) = (mq ≡ s.forked.peer_mq) × (queued_msg ≡ msg)
IsOwn s msg c = Unit {0}

-- A message in a queue once for each priority, the latest first.
abbrev pub queued : ℤ → List ℕ → List ℕ → History → History
queued mq msg [] h = h
queued mq msg (priority ∷ rest) h = queued mq msg rest (Call.mq_send mq msg priority ∷ h)

-- A semaphore that is posted, and the log of both values.
abbrev pub posted : Socket → Semaphore → History → History
posted s sem h =
    Call.sem_getvalue s.forked.sem_unnamed
    ∷ Call.sem_getvalue s.forked.sem_named
    ∷ Call.sem_post sem
    ∷ h

pub times_queued-queued :
    (mq : ℤ) (msg : List ℕ) (p : ℕ) (priorities : List ℕ) (h : History)
    → times_queued p (queued mq msg priorities h) ≡ count p priorities + times_queued p h
times_queued-queued mq msg p [] h = omega arith
times_queued-queued mq msg p (priority ∷ rest) h =
    times_queued-queued mq msg p rest (Call.mq_send mq msg priority ∷ h) ∙ ground arith

pub transfers-queued :
    (mq : ℤ) (msg priorities : List ℕ) (h : History)
    → transfers (queued mq msg priorities h) ≡ transfers h
transfers-queued mq msg [] h = refl
transfers-queued mq msg (priority ∷ rest) h = transfers-queued mq msg rest _

pub announcements-queued :
    (mq : ℤ) (msg priorities : List ℕ) (h : History)
    → announcements (queued mq msg priorities h) ≡ announcements h
announcements-queued mq msg [] h = refl
announcements-queued mq msg (priority ∷ rest) h = announcements-queued mq msg rest _

pub queued-GoesOn :
    (s : Socket) (msg priorities : List ℕ) (h : History)
    → GoesOn (IsOwn s msg) h (queued s.forked.peer_mq msg priorities h)
queued-GoesOn s msg [] h = GoesOn-refl _ h
queued-GoesOn s msg (priority ∷ rest) h =
    GoesOn-trans _ h (Call.mq_send s.forked.peer_mq msg priority ∷ h) _
      (Call.mq_send s.forked.peer_mq msg priority ∷ [], refl, ((refl, refl), tt))
      (queued-GoesOn s msg rest _)
