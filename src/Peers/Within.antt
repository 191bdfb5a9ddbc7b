-- ===== src/Peers/Within.antt =====
-- Socket.c: the operations on a peer do not touch the buffer of a message.
use sctp_sandbox_c.Base.{ℕ, ◌≡◌, ◌≢◌, refl, Option, none, some, ℤ, is_nonzero, get_elem?}
use sctp_sandbox_c.Protocol.{is_udp}
use sctp_sandbox_c.Os.{Env, IpSocket, History, Fault, M, fault}
use sctp_sandbox_c.Os.Ensures.{
  Ensures, Any, Ensures-pure, Ensures-fails, Ensures-bind, Ensures-if, Ensures-invoke,
}
use sctp_sandbox_c.Peers.{
  Peer, Socket, peer_at, peer_through, close_fd, disable_if_set, disable_tasks, remove_peer,
  schedule_reestablishment,
}

-- Any undefined behaviour but a write behind the buffer.
abbrev pub Within : Fault → Type 0
Within x = x ≢ Fault.msg_buffer_index

pub unset-Within : Within Fault.uninitialised
unset-Within e = cc

-- A run that reaches no such write.
pub Ensures-Within :
    {A : Type 0} {P : A → Type 0} (m : M A)
    → Ensures Within P m
    → (h : History) → m h ≢ fault Fault.msg_buffer_index
Ensures-Within m e h eq = let bad : Within Fault.msg_buffer_index = rw eq at (e.holds h) in bad refl

peer_at-Within : (s : Socket) (i : ℕ) → Ensures Within Any (peer_at s i)
unfolding peer_at
peer_at-Within s i = by_entry (get_elem? s.peers i) refl
  where
    by_entry : (o : Option Peer) → get_elem? s.peers i ≡ o → Ensures Within Any (peer_at s i)
    by_entry none e = rw (e, peer_at) (Ensures-fails Fault.peer_index (λ bad. cc))
    by_entry (some p) e = rw (e, peer_at) (Ensures-pure p tt)

pub peer_through-Within : (s : Socket) (peer : Option ℕ) → Ensures Within Any (peer_through s peer)
unfolding peer_through
peer_through-Within s none = Ensures-fails Fault.null_peer (λ e. cc)
peer_through-Within s (some i) = Ensures-bind _ _ (peer_at-Within s i) λ p _. Ensures-pure _ tt

module _ (env : Env) where
  disable_if_set-Within : (task : Option ℕ) → Ensures Within Any (disable_if_set env task)
  unfolding disable_if_set
  disable_if_set-Within none = Ensures-pure tt tt
  disable_if_set-Within (some task) =
      Ensures-bind _ _ (Ensures-invoke env _) λ _ _. Ensures-pure tt tt

  disable_tasks-Within : (p : Peer) → Ensures Within Any (disable_tasks env p)
  unfolding disable_tasks
  disable_tasks-Within p =
      Ensures-bind _ _ (disable_if_set-Within p.ping_task)
        λ _ _. Ensures-bind _ _ (disable_if_set-Within p.comm_lost_task) λ _ _. Ensures-pure _ tt

  close_fd-Within : (fd : ℤ) → Ensures Within Any (close_fd env fd)
  unfolding close_fd
  close_fd-Within fd =
      Ensures-if (is_nonzero fd) _ _
        (λ _. Ensures-bind _ _ (Ensures-invoke env _) λ _ _. Ensures-pure _ tt)
        λ _. Ensures-pure fd tt

  pub remove_peer-Within :
      (s : Socket) (peer : Option ℕ) → Ensures Within Any (remove_peer env s peer)
  unfolding remove_peer
  remove_peer-Within s peer = Ensures-bind _ _ (peer_through-Within s peer) λ ip _.
      Ensures-bind _ _
        (Ensures-if (is_udp s.protocol) _ _ (λ _. disable_tasks-Within ip.1) λ _. Ensures-pure _ tt)
        λ p _. Ensures-bind _ _ (close_fd-Within p.fd) λ fd _. Ensures-pure _ tt

  pub schedule_reestablishment-Within :
      (remote : IpSocket) → Ensures Within Any (schedule_reestablishment env remote)
  unfolding schedule_reestablishment
  schedule_reestablishment-Within remote =
      Ensures-bind _ _ (Ensures-invoke env _) λ _ _. Ensures-pure tt tt
