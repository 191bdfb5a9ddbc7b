-- ===== src/Peers/Retries.antt =====
-- Socket.c: the new connections that calls have scheduled.
use sctp_sandbox_c.Base.{◌≡◌, refl, List, [], ◌∷◌, ℤ, is_nonzero, Bool-cases, inl, inr}
use sctp_sandbox_c.Os.{Call, Task, History, IpSocket}
use sctp_sandbox_c.Peers.Remove.{closed}

-- The remotes to which a new connection was scheduled, the latest first.
abbrev pub retried : History → List IpSocket
retried [] = []
retried (Call.schedule_task (Task.reestablish remote) delay repetitions ∷ h) = remote ∷ retried h
retried (c ∷ h) = retried h

pub closed-retried : (fd : ℤ) (h : History) → retried (closed fd h) ≡ retried h
closed-retried fd h = elim (Bool-cases (is_nonzero fd)) [ inl e ↦ rw e refl | inr e ↦ rw e refl ]
