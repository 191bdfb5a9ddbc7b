-- ===== src/Sctp/Associations/Full.antt =====
-- SocketSctp.c: associations that come up when the table is full.
use sctp_sandbox_c.Base.{
  ℕ, ◌+◌, ◌≤◌, ◌<◌, ◌≡◌, ◌≢◌, refl, List, [], ◌∷◌, length, inl, inr, arith, some,
}
use sctp_sandbox_c.Os.{
  Env, IpSocket, History, Fault, ok, fault, assoc_change, comm_up, comm_lost, shutdown_comp, M,
  pure, ◌>>=◌,
}
use sctp_sandbox_c.Os.Laws.{IsLawful}
use sctp_sandbox_c.Peers.{Socket, peers_max_count, find_peer_by_assoc_id}
use sctp_sandbox_c.Peers.Agrees.{Agrees-some}
use sctp_sandbox_c.Peers.Matching.{by_entry}
use sctp_sandbox_c.Peers.Remove.{remove_peer_null}
use sctp_sandbox_c.Sctp.{peel_off, remove_assoc, handle_notification}
use sctp_sandbox_c.Sctp.Associations.{Associations, establish}
use sctp_sandbox_c.Sctp.Associations.Represents.{Represents, has_assoc}
use sctp_sandbox_c.Sctp.Associations.Refinement.{Simulates, PeelsOff, comm_up-Simulates}

-- The number is not among these.
abbrev pub IsNew : ℕ → List ℕ → Type 0
IsNew a [] = Unit {0}
IsNew a (b ∷ ups) = (b ≢ a) × IsNew a ups

-- A new association is none of those before it, and their end is not reported either.
establish-others :
    (d : Associations) (a b : ℕ) → b ≢ a → d.entries a ≡ 0 → (establish d b).entries a ≡ 0
establish-others d a b other none_yet = ground arith

establish-fills :
    (d : Associations) (b n : ℕ)
    → peers_max_count ≤ d.taken + (n + 1)
    → peers_max_count ≤ (establish d b).taken + n
establish-fills d b n enough = ground arith

module _ (env : Env) where
  -- Notifications that these associations have come up, one after the other.
  unfoldable pub come_up : Socket → IpSocket → List ℕ → M Socket
  come_up s from [] = pure s
  come_up s from (b ∷ ups) =
      let more = λ (t : Socket). come_up t from ups in
      handle_notification env s from (assoc_change comm_up b) >>= more

  -- The association is not taken in, with no call made, and its end goes through a NULL pointer.
  pub record IsIgnored (t : Socket) (from : IpSocket) (a : ℕ) (h : History) : Type 0 where
    pub not_peeled : handle_notification env t from (assoc_change comm_up a) h ≡ ok t h
    pub shutdown :
        handle_notification env t from (assoc_change shutdown_comp a) h ≡ fault Fault.null_peer
    pub lost : handle_notification env t from (assoc_change comm_lost a) h ≡ fault Fault.null_peer

  full-IsIgnored :
      (t : Socket) (d : Associations) (from : IpSocket) (a : ℕ) (h : History)
      → Represents t h d
      → 0 < a
      → d.entries a ≡ 0
      → peers_max_count ≤ d.taken
      → IsIgnored t from a h
  unfolding handle_notification peel_off remove_assoc find_peer_by_assoc_id
  full-IsIgnored t d from a h rep positive none_yet full = elim (by_entry (has_assoc a) t) [
    | inl (unknown, nothing) ↦ record {
      not_peeled = ground (arith, rep.taken);
      shutdown = rw (unknown, remove_peer_null env t h) refl;
      lost = rw (unknown, remove_peer_null env t h) refl;
    }
    | inr (i, p, known, below, there, own, matched) ↦
        absurd (ground (arith, rep.entries a positive))
  ]

  module _ (L : IsLawful env) (peels : PeelsOff env L) where
    comes_up :
        (s : Socket) (d : Associations) (from : IpSocket) (b : ℕ) (h : History)
        → Represents s h d
        → Simulates
            (handle_notification env s from (assoc_change comm_up b) h)
            (some (establish d b))
    unfolding handle_notification
    comes_up s d from b h rep = comm_up-Simulates env L peels s d b h rep

    -- Where a socket represents associations, an association with a number other than 0 has no
    -- entry, and at least as many others come up one after the other as the table still has room
    -- for, these notifications are all handled; when that association then comes up too, the
    -- handler makes no call, so that it is not peeled off, and leaves the socket as it is, and when
    -- it is then shut down or lost, the handler goes through a NULL pointer. Associations are
    -- peeled off where this is asked for, their state can be read, and inet_pton and inet_ntop
    -- translate the addresses of their peers.
    pub full_table_ended :
        (ups : List ℕ) (s : Socket) (d : Associations) (from : IpSocket) (a : ℕ) (h : History)
        → Represents s h d
        → 0 < a
        → d.entries a ≡ 0
        → IsNew a ups
        → peers_max_count ≤ d.taken + length ups
        → (t : Socket) × (h' : History) × (come_up s from ups h ≡ ok t h') × IsIgnored t from a h'
    unfolding come_up
    full_table_ended [] s d from a h rep positive none_yet other enough =
        (s, h, refl, full-IsIgnored s d from a h rep positive none_yet (omega arith))
    full_table_ended (b ∷ ups) s d from a h rep positive none_yet (differs, other) enough =
        let (t, h', e, rep') =
          Agrees-some Represents _ (establish d b) (comes_up s d from b h rep) in
        let (u, h'', runs, ignored) =
          full_table_ended ups t (establish d b) from a h' rep' positive
            (establish-others d a b differs none_yet) other
            (establish-fills d b (length ups) (omega arith)) in
        (u, h'', rw e runs, ignored)
