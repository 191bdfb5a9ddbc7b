-- ===== src/Sctp/Table.antt =====
-- SocketSctp.c keeps the table of peers in shape.
use sctp_sandbox_c.Base.{ℕ, List, [], ◌∷◌, ℤ}
use sctp_sandbox_c.Os.{
  Env, IpSocket, Reply, Notification, assoc_change, AssocState, comm_up, comm_lost, shutdown_comp,
  cant_str_assoc,
}
use sctp_sandbox_c.Os.Ensures.{
  Ensures, Any, Ensures-pure, Ensures-bind, Ensures-if, Ensures-invoke, Ensures-check,
  Ensures-checked,
}
use sctp_sandbox_c.IpSocket.{IpSockets, listed}
use sctp_sandbox_c.Bind.Quiet.{
  log_paddrs-Quiet, connect_single_socket-Quiet, sockaddr_storage_to_ip_socket-Quiet,
}
use sctp_sandbox_c.Peers.{Socket, find_peer_by_assoc_id}
use sctp_sandbox_c.Peers.Table.{
  Indexed, unset-Indexed, IsValid, Follows, Ensures-then, Ensures-unchanged, Ensures-room, InTable,
  add_peer-Follows, remove_peer-Follows, terminate_message-Follows,
  schedule_reestablishment-Indexed,
}
use sctp_sandbox_c.Peers.Find.{find_peer-InTable}
use sctp_sandbox_c.Sctp.{
  is_notification, log_peer_info, peel_off, remove_assoc, handle_comm_lost, handle_notification,
  connect_each_sctp, connect_socket_sctp, delivered_sctp, handle_message_sctp,
}

find_peer_by_assoc_id-InTable :
    (s : Socket) (assoc_id : ℕ) → InTable s (find_peer_by_assoc_id s assoc_id)
unfolding find_peer_by_assoc_id
find_peer_by_assoc_id-InTable s assoc_id = find_peer-InTable s _

module _ (env : Env) where
  log_peer_info-Indexed : (fd : ℤ) → Ensures Indexed Any (log_peer_info env fd)
  unfolding log_peer_info
  log_peer_info-Indexed fd = Ensures-bind _ _ (Ensures-checked env _ _) λ _ _.
      Ensures-bind _ _ (Ensures-checked env _ _)
        λ _ _. log_paddrs-Quiet env Indexed unset-Indexed fd

  peel_off-Follows :
      (s : Socket) (assoc_id : ℕ)
      → IsValid s
      → Ensures Indexed (Follows s) (peel_off env s assoc_id)
  unfolding peel_off
  peel_off-Follows s assoc_id v = Ensures-room s _ v λ room.
      Ensures-bind _ _ (Ensures-invoke env _) λ r _.
        Ensures-bind _ _ (Ensures-check env _ _ _) λ _ _.
          Ensures-bind _ _ (log_peer_info-Indexed r.result) λ _ _. add_peer-Follows s _ v room

  remove_assoc-Follows :
      (s : Socket) (assoc_id : ℕ)
      → IsValid s
      → Ensures Indexed (Follows s) (remove_assoc env s assoc_id)
  unfolding remove_assoc
  remove_assoc-Follows s assoc_id v =
      remove_peer-Follows env s _ v (find_peer_by_assoc_id-InTable s assoc_id)

  handle_comm_lost-Follows :
      (s : Socket) (assoc_id : ℕ) (remote : IpSocket)
      → IsValid s
      → Ensures Indexed (Follows s) (handle_comm_lost env s assoc_id remote)
  unfolding handle_comm_lost
  handle_comm_lost-Follows s assoc_id remote v =
      Ensures-then s _ _ (remove_assoc-Follows s assoc_id v) λ t v'.
        Ensures-bind _ _ (schedule_reestablishment-Indexed env remote) λ _ _. Ensures-unchanged t v'

  assoc_change-Follows :
      (s : Socket) (from : IpSocket) (state : AssocState) (assoc_id : ℕ)
      → IsValid s
      → Ensures Indexed (Follows s) (handle_notification env s from (assoc_change state assoc_id))
  unfolding handle_notification
  assoc_change-Follows s from comm_up assoc_id v = peel_off-Follows s assoc_id v
  assoc_change-Follows s from cant_str_assoc assoc_id v =
      Ensures-bind _ _ (schedule_reestablishment-Indexed env from) λ _ _. Ensures-unchanged s v
  assoc_change-Follows s from shutdown_comp assoc_id v = remove_assoc-Follows s assoc_id v
  assoc_change-Follows s from comm_lost assoc_id v = handle_comm_lost-Follows s assoc_id from v
  assoc_change-Follows s from _ assoc_id v = Ensures-unchanged s v

  pub handle_notification-Follows :
      (s : Socket) (from : IpSocket) (n : Notification)
      → IsValid s
      → Ensures Indexed (Follows s) (handle_notification env s from n)
  unfolding handle_notification
  handle_notification-Follows s from (assoc_change state assoc_id) v =
      assoc_change-Follows s from state assoc_id v
  handle_notification-Follows s from (Notification.peer_addr_change state) v = Ensures-unchanged s v
  handle_notification-Follows s from Notification.remote_error v = Ensures-unchanged s v
  handle_notification-Follows s from Notification.shutdown_event v = Ensures-unchanged s v
  handle_notification-Follows s from Notification.adaptation_indication v = Ensures-unchanged s v
  handle_notification-Follows s from Notification.partial_delivery_event v = Ensures-unchanged s v
  handle_notification-Follows s from Notification.sender_dry_event v = Ensures-unchanged s v
  handle_notification-Follows s from (Notification.other n) v = Ensures-unchanged s v

  connect_each_sctp-Indexed :
      (fd : ℤ) (remotes : List IpSocket) → Ensures Indexed Any (connect_each_sctp env fd remotes)
  unfolding connect_each_sctp
  connect_each_sctp-Indexed fd [] = Ensures-pure tt tt
  connect_each_sctp-Indexed fd (remote ∷ rest) =
      Ensures-bind _ _ (connect_single_socket-Quiet env Indexed unset-Indexed fd remote)
        λ _ _. connect_each_sctp-Indexed fd rest

  pub connect_socket_sctp-Follows :
      (s : Socket) (remotes : IpSockets)
      → IsValid s
      → Ensures Indexed (Follows s) (connect_socket_sctp env s remotes)
  unfolding connect_socket_sctp
  connect_socket_sctp-Follows s remotes v =
      Ensures-bind _ _ (connect_each_sctp-Indexed s.fd (listed remotes))
        λ _ _. Ensures-unchanged s v

  delivered_sctp-Follows :
      (s : Socket) (r : Reply) → IsValid s → Ensures Indexed (Follows s) (delivered_sctp env s r)
  unfolding delivered_sctp
  delivered_sctp-Follows s r v =
      Ensures-if (is_notification r.msg_flags) _ _
        (λ _.
          Ensures-bind _ _ (sockaddr_storage_to_ip_socket-Quiet env Indexed unset-Indexed r.from)
            λ from _. handle_notification-Follows s from r.notification v)
        λ _. Ensures-unchanged s v

  pub handle_message_sctp-Follows :
      (s : Socket) (fd : ℤ) → IsValid s → Ensures Indexed (Follows s) (handle_message_sctp env s fd)
  unfolding handle_message_sctp
  handle_message_sctp-Follows s fd v = Ensures-bind _ _ (Ensures-invoke env _) λ r _.
      Ensures-bind _ _ (Ensures-check env _ _ _) λ _ _.
        Ensures-then s _ _ (terminate_message-Follows s r v) λ t v'. delivered_sctp-Follows t r v'
