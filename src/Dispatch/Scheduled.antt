-- ===== src/Dispatch/Scheduled.antt =====
-- Socket.c on the stream protocols: what receiving, sending and cleaning up hand to the scheduler.
use sctp_sandbox_c.Base.{ℤ, pos, negsuc, List, [], ◌∷◌, is_nonzero, inl, inr}
use sctp_sandbox_c.Protocol.{NetworkProtocol}
use sctp_sandbox_c.Os.{Env}
use sctp_sandbox_c.Os.Scheduled.{Streams}
use sctp_sandbox_c.Os.Calls.{Calls-if, Calls-bind, calls}
use sctp_sandbox_c.FdSet.{FdSet, set_fd, select_impl, select_fd_set}
use sctp_sandbox_c.Peers.{Peer, Socket}
use sctp_sandbox_c.Tcp.Scheduled.{handle_message_tcp-Streams, handle_message_dccp-Streams}
use sctp_sandbox_c.Dispatch.{set_each, gather_fds, select_fds, handle_by_protocol}
use sctp_sandbox_c.Dispatch.Stream.{IsStream}

set_fd-Streams : (f : FdSet) (fd : ℤ) → Streams (set_fd f fd)
unfolding set_fd
set_fd-Streams f (pos fd) = search calls
set_fd-Streams f (negsuc n) = search calls

set_each-Streams : (f : FdSet) (peers : List Peer) → Streams (set_each f peers)
unfolding set_each
set_each-Streams f [] = search calls
set_each-Streams f (p ∷ peers) =
    let more = λ (g : FdSet). set_each-Streams g peers in
    Calls-if (is_nonzero p.fd) _ _ (Calls-bind _ _ (set_fd-Streams f p.fd) more) (more f)

gather_fds-Streams : (s : Socket) → Streams (gather_fds s)
unfolding gather_fds
gather_fds-Streams s = search (calls, set_fd-Streams, set_each-Streams)

-- The socket is of a stream protocol.
abbrev pub OnStream : Socket → Type 0
OnStream s = IsStream s.protocol

module _ (env : Env) where
  pub select_fds-Streams : (s : Socket) → Streams (select_fds env s)
  unfolding select_fds select_fd_set select_impl
  select_fds-Streams s = search (calls, gather_fds-Streams) depth 8

  pub handle_stream-Streams :
      (p : NetworkProtocol) (s : Socket) (fd : ℤ)
      → IsStream p
      → Streams (handle_by_protocol env p s fd)
  unfolding handle_by_protocol
  handle_stream-Streams p s fd (inl e) =
      rw (e, handle_by_protocol) (handle_message_tcp-Streams env s fd)
  handle_stream-Streams p s fd (inr e) =
      rw (e, handle_by_protocol) (handle_message_dccp-Streams env s fd)
