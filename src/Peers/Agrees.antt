-- ===== src/Peers/Agrees.antt =====
-- Runs of a socket beside those of what it stands for, of whatever kind that is.
use sctp_sandbox_c.Base.{Option, none, some, ◌≡◌, refl}
use sctp_sandbox_c.Os.{History, Outcome, ok, exited, fault, Fault, M, and_then}
use sctp_sandbox_c.Peers.{Socket}

module _ {D : Type 0} (R : Socket → History → D → Type 0) where
  -- A run ends in a socket that stands for what is reached, or goes through a NULL pointer where that
  -- is an error.
  abbrev pub Agrees : Outcome Socket → Option D → Type 0
  Agrees (ok t h) (some d) = R t h d
  Agrees (ok t h) none = ⊥
  Agrees (exited status h) o = ⊥
  Agrees (fault x) (some d) = ⊥
  Agrees (fault x) none = x ≡ Fault.null_peer

  -- What follows a run and a step that agree.
  pub Agrees-then :
      (o : Outcome Socket) (served : Option D) (f : Socket → M Socket) (g : D → Option D)
      → Agrees o served
      → ((t : Socket) (d : D) (h : History) → R t h d → Agrees (f t h) (g d))
      → Agrees (and_then o f) (elim served [ none ↦ none | some d ↦ g d ])
  Agrees-then (ok t h) (some d) f g sim k = k t d h sim
  Agrees-then (fault x) none f g sim k = sim
  Agrees-then (ok t h) none f g sim k = elim sim [ ]
  Agrees-then (exited status h) o f g sim k = elim sim [ ]
  Agrees-then (fault x) (some d) f g sim k = elim sim [ ]

  pub Agrees-some :
      (o : Outcome Socket) (d : D)
      → Agrees o (some d)
      → (t : Socket) × (h : History) × (o ≡ ok t h) × R t h d
  Agrees-some (ok t h) d sim = (t, h, refl, sim)
  Agrees-some (exited status h) d sim = elim sim [ ]
  Agrees-some (fault x) d sim = elim sim [ ]

  -- What is asked of the state that a run and a step reach, where they reach one.
  abbrev pub Reaches : (Socket → D → History → Type 0) → Outcome Socket → Option D → Type 0
  Reaches P (ok t h) (some d) = P t d h
  Reaches P o served = Unit {0}

  -- What follows them there.
  pub Agrees-along :
      (P : Socket → D → History → Type 0) (o : Outcome Socket) (served : Option D)
      (f : Socket → M Socket) (g : D → Option D)
      → Agrees o served
      → Reaches P o served
      → ((t : Socket) (d : D) (h : History) → R t h d → P t d h → Agrees (f t h) (g d))
      → Agrees (and_then o f) (elim served [ none ↦ none | some d ↦ g d ])
  Agrees-along P (ok t h) (some d) f g sim there k = k t d h sim there
  Agrees-along P (fault x) none f g sim there k = sim
  Agrees-along P (ok t h) none f g sim there k = elim sim [ ]
  Agrees-along P (exited status h) o f g sim there k = elim sim [ ]
  Agrees-along P (fault x) (some d) f g sim there k = elim sim [ ]
