-- ===== src/Dispatch/CleanUp.antt =====
-- Socket.c: what the clean-up of a socket calls.
use sctp_sandbox_c.Base.{
  List, [], ◌∷◌, ◌⊎◌, inl, inr, ◌≡◌, refl, ◌∙◌, pos, is_nonzero, take, Bool-cases,
}
use sctp_sandbox_c.Protocol.{tcp, sctp, is_udp}
use sctp_sandbox_c.Os.{Env, Call, Name, Semaphore, History, ok, invoke}
use sctp_sandbox_c.Peers.{Peer, Socket, no_forked, close_fd}
use sctp_sandbox_c.Peers.Remove.{closed, close_fd_lem}
use sctp_sandbox_c.Forked.{
  shm_size, is_child, clean_up_message_queues, clean_up_semaphores, clean_up_shared_memory,
  clean_up_globals,
}
use sctp_sandbox_c.Dispatch.{is_dccp, is_unix_datagram, close_each, notify_parent, clean_up_socket}

-- The calls that close the connected peers, after those made before.
abbrev pub closed_each : List Peer → History → History
closed_each [] h = h
closed_each (p ∷ peers) h = closed_each peers (closed p.fd h)

-- The calls that take down the shared objects, of a socket that never made them.
abbrev pub taken_down : History → History
taken_down h =
    Call.shm_unlink Name.shm
    ∷ Call.sem_unlink Name.sem
    ∷ Call.mq_unlink Name.child_mq
    ∷ Call.mq_unlink Name.parent_mq
    ∷ Call.shmdt (pos 0)
    ∷ Call.munmap (pos 0) shm_size
    ∷ Call.sem_destroy Semaphore.null
    ∷ Call.sem_close Semaphore.null
    ∷ Call.sem_close Semaphore.null
    ∷ Call.mq_close (pos 0)
    ∷ Call.mq_close (pos 0)
    ∷ h

module _ (env : Env) where
  close_each_lem :
      (peers : List Peer) (h : History) → close_each env peers h ≡ ok tt (closed_each peers h)
  unfolding close_each
  close_each_lem [] h = refl
  close_each_lem (p ∷ peers) h = elim (Bool-cases (is_nonzero p.fd)) [
    | inl e ↦ rw e (close_fd_lem env p.fd (close_each env peers) h ∙ rw e (close_each_lem peers _))
    | inr e ↦ rw e (close_each_lem peers h)
  ]

  -- The clean-up of a TCP or SCTP socket returns and closes the connected peers of the table and
  -- then the socket; of shared objects it takes down those of a socket that made none, which closes
  -- the message queue 0 twice.
  pub clean_up_socket-closed :
      (s : Socket) (h : History)
      → (s.protocol ≡ tcp) ⊎ (s.protocol ≡ sctp)
      → s.forked ≡ no_forked
      → clean_up_socket env s h
        ≡ ok tt (taken_down (closed s.fd (closed_each (take s.peer_count s.peers) h)))
  unfolding clean_up_socket is_dccp is_unix_datagram is_udp is_child notify_parent invoke close_fd
      clean_up_message_queues clean_up_semaphores clean_up_shared_memory clean_up_globals
  clean_up_socket-closed s h (inl e) f =
      rw (e, f, close_each_lem (take s.peer_count s.peers) h) (close_fd_lem env s.fd _ _)
  clean_up_socket-closed s h (inr e) f =
      rw (e, f, close_each_lem (take s.peer_count s.peers) h) (close_fd_lem env s.fd _ _)
