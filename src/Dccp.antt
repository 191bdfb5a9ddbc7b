-- ===== src/Dccp.antt =====
-- SocketDccp.c: connections as in SocketTcp.c, whose handlers it calls, closed by a quit message.
pub mod Table
pub mod Kept
use sctp_sandbox_c.Base.{List, [], ◌∷◌, ℕ, ℤ, is_nonzero, ◌==ℤ◌, ◌==◌, take, if◌then◌else◌}
use sctp_sandbox_c.Errors.{Check}
use sctp_sandbox_c.Os.{Env, Call, Reply, M, pure, ◌>>=◌, ◌>>◌, invoke, check}
use sctp_sandbox_c.Bind.{log_paddrs_tcp}
use sctp_sandbox_c.Peers.{
  msg_buffer_size, Peer, Socket, terminate_message, first_byte, c_string, quit_msg,
}
use sctp_sandbox_c.Tcp.{handle_comm_up_tcp, handle_comm_lost_tcp, handle_graceful_shutdown_tcp}

module _ (env : Env) where
  -- What a DCCP message does, once recv has answered: the receive check comes first, and an empty
  -- message is a lost connection.
  unfoldable pub received_dccp : Socket → ℤ → Reply → M Socket
  received_dccp s fd r = do
    check env Check.receive r.result r.errno
    t ← terminate_message s r
    if first_byte t.msg_buffer == 0 then handle_comm_lost_tcp env t fd else (do
      log_paddrs_tcp env fd
      if env.equals (c_string t.msg_buffer) quit_msg
          then handle_graceful_shutdown_tcp env t fd
          else pure t)

  unfoldable pub handle_message_dccp : Socket → ℤ → M Socket
  unfolding received_dccp
  handle_message_dccp s fd =
      if fd ==ℤ s.fd
      then handle_comm_up_tcp env s fd
      else (invoke env (Call.recv fd msg_buffer_size) >>= received_dccp s fd)

  -- A send that fails is only logged.
  unfoldable pub send_each_dccp : List ℕ → List Peer → M (Unit {0})
  send_each_dccp msg [] = pure tt
  send_each_dccp msg (p ∷ peers) =
      let rest = send_each_dccp msg peers in
      if is_nonzero p.fd then (invoke env (Call.send p.fd msg) >> rest) else rest

  unfoldable pub send_socket_dccp : Socket → List ℕ → M (Unit {0})
  unfolding send_each_dccp
  send_socket_dccp s msg = send_each_dccp msg (take s.peer_count s.peers)
