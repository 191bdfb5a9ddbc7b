-- ===== src/Dccp/Table.antt =====
-- SocketDccp.c keeps the table of peers in shape.
use sctp_sandbox_c.Base.{ℤ, ◌==ℤ◌, ◌==◌}
use sctp_sandbox_c.Os.{Env, Reply}
use sctp_sandbox_c.Os.Ensures.{Ensures, Ensures-bind, Ensures-if, Ensures-invoke, Ensures-check}
use sctp_sandbox_c.Bind.Quiet.{log_paddrs_tcp-Quiet}
use sctp_sandbox_c.Peers.{Socket, first_byte, c_string, quit_msg}
use sctp_sandbox_c.Peers.Table.{
  Indexed, unset-Indexed, IsValid, Follows, Ensures-then, Ensures-unchanged,
  terminate_message-Follows,
}
use sctp_sandbox_c.Tcp.Table.{
  handle_comm_up_tcp-Follows, handle_comm_lost_tcp-Follows, handle_graceful_shutdown_tcp-Follows,
}
use sctp_sandbox_c.Dccp.{received_dccp, handle_message_dccp}

module _ (env : Env) where
  received_dccp-Follows :
      (s : Socket) (fd : ℤ) (r : Reply)
      → IsValid s
      → Ensures Indexed (Follows s) (received_dccp env s fd r)
  unfolding received_dccp
  received_dccp-Follows s fd r v = Ensures-bind _ _ (Ensures-check env _ _ _) λ _ _.
      Ensures-then s _ _ (terminate_message-Follows s r v) λ t v'.
        Ensures-if (first_byte t.msg_buffer == 0) _ _
          (λ _. handle_comm_lost_tcp-Follows env t fd v')
          λ _. Ensures-bind _ _ (log_paddrs_tcp-Quiet env Indexed unset-Indexed fd) λ _ _.
            Ensures-if (env.equals (c_string t.msg_buffer) quit_msg) _ _
              (λ _. handle_graceful_shutdown_tcp-Follows env t fd v') λ _. Ensures-unchanged t v'

  pub handle_message_dccp-Follows :
      (s : Socket) (fd : ℤ) → IsValid s → Ensures Indexed (Follows s) (handle_message_dccp env s fd)
  unfolding handle_message_dccp
  handle_message_dccp-Follows s fd v =
      Ensures-if (fd ==ℤ s.fd) _ _ (λ _. handle_comm_up_tcp-Follows env s fd v)
        λ _. Ensures-bind _ _ (Ensures-invoke env _) λ r _. received_dccp-Follows s fd r v
