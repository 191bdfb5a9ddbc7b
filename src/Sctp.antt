-- ===== src/Sctp.antt =====
-- SocketSctp.c: one-to-many sockets whose associations are peeled off into peers.
pub mod Table
pub mod Scheduled
pub mod Associations
use sctp_sandbox_c.Base.{
  ℕ, Bool, true, false, not, List, [], ◌∷◌, ℤ, is_nonzero, ◌==◌, leb, bit_and, take, if◌then◌else◌,
}
use sctp_sandbox_c.Errors.{Check}
use Prim.Native.String.{String}
use sctp_sandbox_c.Os.{
  AssocState, AddrState, Env, Call, Reply, IpSocket, M, Notification, assoc_change, comm_up,
  comm_lost, shutdown_comp, cant_str_assoc, pure, ◌>>=◌, ◌>>◌, invoke, check, checked,
}
use sctp_sandbox_c.IpSocket.{IpSockets, listed, sockaddr_storage_to_ip_socket}
use sctp_sandbox_c.Bind.{log_paddrs, connect_single_socket}
use sctp_sandbox_c.Peers.{
  msg_buffer_size, Peer, Socket, peers_max_count, find_peer_by_assoc_id, add_peer, remove_peer,
  schedule_reestablishment, terminate_message,
}

-- MSG_NOTIFICATION
abbrev pub msg_notification : ℕ
msg_notification = 0x8000

unfoldable pub is_notification : ℕ → Bool
is_notification msg_flags = not (bit_and msg_flags msg_notification == 0)

unfoldable pub assoc_change_to_string : AssocState → String
assoc_change_to_string comm_up = "SCTP_ASSOC_CHANGE - SCTP_COMM_UP"
assoc_change_to_string comm_lost = "SCTP_ASSOC_CHANGE - SCTP_COMM_LOST"
assoc_change_to_string AssocState.restart = "SCTP_ASSOC_CHANGE - SCTP_RESTART"
assoc_change_to_string shutdown_comp = "SCTP_ASSOC_CHANGE - SCTP_SHUTDOWN_COMP"
assoc_change_to_string cant_str_assoc = "SCTP_ASSOC_CHANGE - SCTP_CANT_STR_ASSOC"
assoc_change_to_string (AssocState.other n) = "SCTP_ASSOC_CHANGE - UNKNOWN"

unfoldable pub addr_change_to_string : AddrState → String
addr_change_to_string AddrState.addr_available = "SCTP_ADDR_AVAILABLE"
addr_change_to_string AddrState.addr_unreachable = "SCTP_ADDR_UNREACHABLE"
addr_change_to_string AddrState.addr_removed = "SCTP_ADDR_REMOVED"
addr_change_to_string AddrState.addr_added = "SCTP_ADDR_ADDED"
addr_change_to_string AddrState.addr_made_prim = "SCTP_ADDR_MADE_PRIM"
addr_change_to_string AddrState.addr_confirmed = "SCTP_ADDR_CONFIRMED"
addr_change_to_string (AddrState.other n) = "UNKNOWN"

unfoldable pub sctp_notification_to_string : Notification → String
unfolding assoc_change_to_string addr_change_to_string
sctp_notification_to_string (assoc_change state assoc_id) = assoc_change_to_string state
sctp_notification_to_string (Notification.peer_addr_change state) = addr_change_to_string state
sctp_notification_to_string Notification.remote_error = "SCTP_REMOTE_ERROR"
sctp_notification_to_string Notification.shutdown_event = "SCTP_SHUTDOWN_EVENT"
sctp_notification_to_string Notification.adaptation_indication = "SCTP_ADAPTATION_INDICATION"
sctp_notification_to_string Notification.partial_delivery_event = "SCTP_PARTIAL_DELIVERY_EVENT"
sctp_notification_to_string Notification.sender_dry_event = "SCTP_SENDER_DRY_EVENT"
sctp_notification_to_string (Notification.other sn_type) = "UNKNOWN SCTP NOTIFICATION"

unfoldable pub is_assoc_change : Notification → Bool
is_assoc_change (assoc_change state assoc_id) = true
is_assoc_change _ = false

peeled_peer : ℕ → ℤ → Peer → Peer
peeled_peer assoc_id fd p = record p { assoc_id = assoc_id; fd = fd }

module _ (env : Env) where
  unfoldable pub log_peer_info : ℤ → M (Unit {0})
  log_peer_info fd = do
    checked env Check.optinfo (Call.sctp_status fd)
    checked env Check.optinfo (Call.sctp_paddr_params fd)
    log_paddrs env fd

  unfoldable pub peel_off : Socket → ℕ → M Socket
  unfolding peeled_peer
  peel_off s assoc_id = if leb peers_max_count s.peer_count then pure s else (do
    r ← invoke env (Call.sctp_peeloff s.fd assoc_id)
    check env Check.peeloff r.result r.errno
    log_peer_info r.result
    add_peer s (peeled_peer assoc_id r.result))

  unfoldable pub handle_comm_up : Socket → ℕ → M Socket
  handle_comm_up s assoc_id = peel_off s assoc_id

  unfoldable pub handle_establishment_failure : Socket → IpSocket → M Socket
  handle_establishment_failure s remote = schedule_reestablishment env remote >> pure s

  unfoldable pub remove_assoc : Socket → ℕ → M Socket
  remove_assoc s assoc_id = remove_peer env s (find_peer_by_assoc_id s assoc_id)

  unfoldable pub handle_graceful_shutdown : Socket → ℕ → M Socket
  unfolding remove_assoc
  handle_graceful_shutdown s assoc_id = remove_assoc s assoc_id

  unfoldable pub handle_comm_lost : Socket → ℕ → IpSocket → M Socket
  unfolding remove_assoc
  handle_comm_lost s assoc_id remote = do
    t ← remove_assoc s assoc_id
    schedule_reestablishment env remote
    pure t

  unfoldable pub handle_notification : Socket → IpSocket → Notification → M Socket
  unfolding handle_comm_up handle_establishment_failure handle_graceful_shutdown handle_comm_lost
  handle_notification s from (assoc_change comm_up assoc_id) = handle_comm_up s assoc_id
  handle_notification s from (assoc_change cant_str_assoc assoc_id) =
      handle_establishment_failure s from
  handle_notification s from (assoc_change shutdown_comp assoc_id) =
      handle_graceful_shutdown s assoc_id
  handle_notification s from (assoc_change comm_lost assoc_id) = handle_comm_lost s assoc_id from
  handle_notification s from _ = pure s

  unfoldable pub connect_each_sctp : ℤ → List IpSocket → M (Unit {0})
  connect_each_sctp fd [] = pure tt
  connect_each_sctp fd (remote ∷ rest) =
      let more = connect_each_sctp fd rest in connect_single_socket env fd remote >> more

  unfoldable pub connect_socket_sctp : Socket → IpSockets → M Socket
  unfolding connect_each_sctp
  connect_socket_sctp s remotes = connect_each_sctp s.fd (listed remotes) >> pure s

  -- What a message does, once it is in the buffer.
  unfoldable pub delivered_sctp : Socket → Reply → M Socket
  delivered_sctp s r =
      if is_notification r.msg_flags
      then (sockaddr_storage_to_ip_socket env r.from >>= λ from.
          handle_notification s from r.notification)
      else pure s

  unfoldable pub handle_message_sctp : Socket → ℤ → M Socket
  unfolding delivered_sctp
  handle_message_sctp s fd = do
    r ← invoke env (Call.sctp_recvmsg fd msg_buffer_size)
    check env Check.receive r.result r.errno
    t ← terminate_message s r
    delivered_sctp t r

  unfoldable pub send_each_sctp : List ℕ → List Peer → M (Unit {0})
  send_each_sctp msg [] = pure tt
  send_each_sctp msg (p ∷ peers) =
      let rest = send_each_sctp msg peers in
      if is_nonzero p.fd then (checked env Check.send (Call.send p.fd msg) >> rest) else rest

  unfoldable pub send_socket_sctp : Socket → List ℕ → M (Unit {0})
  unfolding send_each_sctp
  send_socket_sctp s msg = send_each_sctp msg (take s.peer_count s.peers)
