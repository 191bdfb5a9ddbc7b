-- ===== src/Peers/Remove.antt =====
-- Socket.c: what the next entry becomes, and what removePeer does to the table and to the descriptor.
use sctp_sandbox_c.Base.{
  ℕ, ◌+◌, ◌≡◌, refl, true, false, [], ◌∷◌, Option, none, some, ℤ, pos, is_nonzero, get_elem?, arith,
  if◌then◌else◌,
}
use sctp_sandbox_c.Base.{Bool-cases, inl, inr}
use sctp_sandbox_c.Protocol.{is_udp}
use sctp_sandbox_c.Os.{M, ◌>>◌, Env, Call, ok, fault, Fault, History, invoke}
use sctp_sandbox_c.Peers.{
  Peer, Socket, peer_at, add_peer, set_peer, disable_if_set, close_fd, remove_peer,
}

-- The entry once it is given up.
abbrev pub removed : Peer → Peer
removed p = record p {
  fd = pos 0;
  assoc_id = 0;
  remote = record (p.remote) { port = 0 };
  path = [];
}

abbrev pub without_tasks : Peer → Peer
without_tasks p = record p { ping_task = none; comm_lost_task = none }

abbrev pub disabled : Option ℕ → History → History
disabled none h = h
disabled (some t) h = Call.disable_task t ∷ h

abbrev pub closed : ℤ → History → History
closed fd h = if is_nonzero fd then Call.close fd ∷ h else h

pub add_peer_lem :
    (s : Socket) (p : Peer) (fill : Peer → Peer) (h : History)
    → get_elem? s.peers s.peer_count ≡ some p
    → add_peer s fill h
      ≡ ok (record (set_peer s s.peer_count (fill p)) { peer_count = s.peer_count + 1 }) h
unfolding add_peer peer_at
add_peer_lem s p fill h there = ground arith

module _ (env : Env) where
  pub close_fd_lem :
      {A : Type 0} (fd : ℤ) (k : M A) (h : History) → (close_fd env fd >> k) h ≡ k (closed fd h)
  unfolding close_fd invoke
  close_fd_lem fd k h = elim (Bool-cases (is_nonzero fd)) [ inl e ↦ rw e refl | inr e ↦ rw e refl ]

  disable_if_set_lem :
      (task : Option ℕ) (h : History) → disable_if_set env task h ≡ ok tt (disabled task h)
  unfolding disable_if_set invoke
  disable_if_set_lem none h = refl
  disable_if_set_lem (some t) h = refl

  pub remove_peer_lem :
      (s : Socket) (i : ℕ) (p : Peer) (h : History)
      → is_udp s.protocol ≡ false
      → get_elem? s.peers i ≡ some p
      → remove_peer env s (some i) h ≡ ok (set_peer s i (removed p)) (closed p.fd h)
  unfolding remove_peer close_fd invoke
  remove_peer_lem s i p h stream found = ground arith

  pub remove_peer_udp_lem :
      (s : Socket) (i : ℕ) (p : Peer) (h : History)
      → is_udp s.protocol ≡ true
      → get_elem? s.peers i ≡ some p
      → remove_peer env s (some i) h
        ≡ ok
            (set_peer s i (removed (without_tasks p)))
            (closed p.fd (disabled p.comm_lost_task (disabled p.ping_task h)))
  unfolding remove_peer close_fd invoke
  remove_peer_udp_lem s i p h datagram found = ground (
    arith,
    disable_if_set_lem p.ping_task h,
    disable_if_set_lem p.comm_lost_task (disabled p.ping_task h),
  )

  pub remove_peer_null :
      (s : Socket) (h : History) → remove_peer env s none h ≡ fault Fault.null_peer
  unfolding remove_peer
  remove_peer_null s h = refl
