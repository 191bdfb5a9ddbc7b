-- ===== src/Sctp/Scheduled.antt =====
-- SocketSctp.c: what associations hand to the scheduler.
use sctp_sandbox_c.Base.{ℕ, ℤ, List, [], ◌∷◌, is_nonzero, take}
use sctp_sandbox_c.Os.{
  Env, IpSocket, Reply, Notification, AssocState, assoc_change, comm_up, comm_lost, shutdown_comp,
  cant_str_assoc,
}
use sctp_sandbox_c.Os.Calls.{Calls-pure, Calls-bind, Calls-if, Calls-checked, calls}
use sctp_sandbox_c.Os.Scheduled.{Streams}
use sctp_sandbox_c.IpSocket.{IpSockets, listed}
use sctp_sandbox_c.Bind.Scheduled.{
  sockaddr_storage_to_ip_socket-Streams, log_paddrs-Streams, connect_single_socket-Streams,
}
use sctp_sandbox_c.Peers.{Peer, Socket}
use sctp_sandbox_c.Peers.Scheduled.{
  add_peer-Streams, terminate_message-Streams, remove_peer-Streams,
  schedule_reestablishment-Streams,
}
use sctp_sandbox_c.Sctp.{
  log_peer_info, peel_off, handle_comm_up, handle_establishment_failure, remove_assoc,
  handle_graceful_shutdown, handle_comm_lost, handle_notification, connect_each_sctp,
  connect_socket_sctp, delivered_sctp, handle_message_sctp, send_each_sctp, send_socket_sctp,
}

module _ (env : Env) where
  log_peer_info-Streams : (fd : ℤ) → Streams (log_peer_info env fd)
  unfolding log_peer_info
  log_peer_info-Streams fd = search (calls, log_paddrs-Streams)

  peel_off-Streams : (s : Socket) (assoc_id : ℕ) → Streams (peel_off env s assoc_id)
  unfolding peel_off
  peel_off-Streams s assoc_id = search (calls, log_peer_info-Streams, add_peer-Streams) depth 8

  remove_assoc-Streams : (s : Socket) (assoc_id : ℕ) → Streams (remove_assoc env s assoc_id)
  unfolding remove_assoc
  remove_assoc-Streams s assoc_id = remove_peer-Streams env s _

  assoc_change-Streams :
      (s : Socket) (from : IpSocket) (state : AssocState) (assoc_id : ℕ)
      → Streams (handle_notification env s from (assoc_change state assoc_id))
  unfolding handle_notification handle_comm_up handle_establishment_failure handle_graceful_shutdown
      handle_comm_lost
  assoc_change-Streams s from comm_up assoc_id = peel_off-Streams s assoc_id
  assoc_change-Streams s from cant_str_assoc assoc_id =
      search (calls, schedule_reestablishment-Streams)
  assoc_change-Streams s from shutdown_comp assoc_id = remove_assoc-Streams s assoc_id
  assoc_change-Streams s from comm_lost assoc_id =
      search (calls, remove_assoc-Streams, schedule_reestablishment-Streams)
  assoc_change-Streams s from _ assoc_id = Calls-pure s

  handle_notification-Streams :
      (s : Socket) (from : IpSocket) (n : Notification) → Streams (handle_notification env s from n)
  unfolding handle_notification
  handle_notification-Streams s from (assoc_change state assoc_id) =
      assoc_change-Streams s from state assoc_id
  handle_notification-Streams s from _ = Calls-pure s

  connect_each_sctp-Streams :
      (fd : ℤ) (remotes : List IpSocket) → Streams (connect_each_sctp env fd remotes)
  unfolding connect_each_sctp
  connect_each_sctp-Streams fd [] = Calls-pure tt
  connect_each_sctp-Streams fd (remote ∷ rest) =
      Calls-bind _ _ (connect_single_socket-Streams env fd remote)
        λ _. connect_each_sctp-Streams fd rest

  pub connect_socket_sctp-Streams :
      (s : Socket) (remotes : IpSockets) → Streams (connect_socket_sctp env s remotes)
  unfolding connect_socket_sctp
  connect_socket_sctp-Streams s remotes =
      Calls-bind _ _ (connect_each_sctp-Streams s.fd (listed remotes)) λ _. Calls-pure s

  delivered_sctp-Streams : (s : Socket) (r : Reply) → Streams (delivered_sctp env s r)
  unfolding delivered_sctp
  delivered_sctp-Streams s r =
      search (calls, sockaddr_storage_to_ip_socket-Streams, handle_notification-Streams)

  pub handle_message_sctp-Streams : (s : Socket) (fd : ℤ) → Streams (handle_message_sctp env s fd)
  unfolding handle_message_sctp
  handle_message_sctp-Streams s fd =
      search (calls, terminate_message-Streams, delivered_sctp-Streams)

  send_each_sctp-Streams :
      (msg : List ℕ) (peers : List Peer) → Streams (send_each_sctp env msg peers)
  unfolding send_each_sctp
  send_each_sctp-Streams msg [] = Calls-pure tt
  send_each_sctp-Streams msg (p ∷ peers) =
      let rest = send_each_sctp-Streams msg peers in
      Calls-if (is_nonzero p.fd) _ _ (Calls-bind _ _ (Calls-checked env _ _ tt) λ _. rest) rest

  pub send_socket_sctp-Streams : (s : Socket) (msg : List ℕ) → Streams (send_socket_sctp env s msg)
  unfolding send_socket_sctp
  send_socket_sctp-Streams s msg = send_each_sctp-Streams msg (take s.peer_count s.peers)
