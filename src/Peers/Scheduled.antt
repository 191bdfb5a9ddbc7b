-- ===== src/Peers/Scheduled.antt =====
-- Socket.c: what the operations on a peer hand to the scheduler.
use sctp_sandbox_c.Base.{
  ℕ, ℤ, pos, negsuc, Option, none, some, Option-cases, inl, inr, ◌≡◌, refl, get_elem?,
}
use sctp_sandbox_c.Os.{Env, IpSocket, Reply, Fault}
use sctp_sandbox_c.Os.Scheduled.{Streams}
use sctp_sandbox_c.Os.Calls.{Calls-pure, Calls-fails, calls}
use sctp_sandbox_c.Peers.{
  Peer, Socket, peer_at, peer_through, add_peer, terminate_message, close_fd, disable_if_set,
  disable_tasks, remove_peer, schedule_reestablishment,
}

pub peer_at-Streams : (s : Socket) (i : ℕ) → Streams (peer_at s i)
unfolding peer_at
peer_at-Streams s i = elim (Option-cases (get_elem? s.peers i)) [
  | inl e ↦ rw (e, peer_at) (Calls-fails Fault.peer_index)
  | inr (p, e) ↦ rw (e, peer_at) (Calls-pure p)
]

pub peer_through-Streams : (s : Socket) (peer : Option ℕ) → Streams (peer_through s peer)
unfolding peer_through
peer_through-Streams s none = search calls
peer_through-Streams s (some i) = search (calls, peer_at-Streams)

pub add_peer-Streams : (s : Socket) (fill : Peer → Peer) → Streams (add_peer s fill)
unfolding add_peer
add_peer-Streams s fill = search (calls, peer_at-Streams)

pub terminate_message-Streams : (s : Socket) (r : Reply) → Streams (terminate_message s r)
unfolding terminate_message
terminate_message-Streams s r = with_result r.result refl
  where
    with_result : (z : ℤ) → r.result ≡ z → Streams (terminate_message s r)
    with_result (pos n) e = rw (e, terminate_message) (search calls)
    with_result (negsuc n) e = rw (e, terminate_message) (search calls)

module _ (env : Env) where
  disable_if_set-Streams : (task : Option ℕ) → Streams (disable_if_set env task)
  unfolding disable_if_set
  disable_if_set-Streams none = search calls
  disable_if_set-Streams (some task) = search calls

  disable_tasks-Streams : (p : Peer) → Streams (disable_tasks env p)
  unfolding disable_tasks
  disable_tasks-Streams p = search (calls, disable_if_set-Streams)

  pub close_fd-Streams : (fd : ℤ) → Streams (close_fd env fd)
  unfolding close_fd
  close_fd-Streams fd = search calls

  pub remove_peer-Streams : (s : Socket) (peer : Option ℕ) → Streams (remove_peer env s peer)
  unfolding remove_peer
  remove_peer-Streams s peer =
      search (calls, peer_through-Streams, disable_tasks-Streams, close_fd-Streams)

  pub schedule_reestablishment-Streams :
      (remote : IpSocket) → Streams (schedule_reestablishment env remote)
  unfolding schedule_reestablishment
  schedule_reestablishment-Streams remote = search calls
