-- ===== src/Dccp/Kept.antt =====
-- SocketDccp.c: as for TCP, a handler that is given a descriptor of the table finds its entry.
use sctp_sandbox_c.Base.{ℤ, ◌==ℤ◌, ==ℤ_iff, ◌==◌, inl, inr}
use sctp_sandbox_c.Os.{Env, Reply}
use sctp_sandbox_c.Os.Ensures.{
  Ensures, Ensures-pure, Ensures-bind, Ensures-if, Ensures-invoke, Ensures-check, Ensures-weaken,
}
use sctp_sandbox_c.Bind.Quiet.{log_paddrs_tcp-Quiet}
use sctp_sandbox_c.Peers.{Socket, first_byte, c_string, quit_msg}
use sctp_sandbox_c.Peers.Present.{
  NotNull, unset-NotNull, Present, Kept, Kept-refl, terminate_message-SamePeers, SamePeers-Kept,
}
use sctp_sandbox_c.Tcp.Kept.{
  Known, handle_comm_up_tcp-Kept, handle_comm_lost_tcp-Kept, handle_graceful_shutdown_tcp-Kept,
}
use sctp_sandbox_c.Dccp.{received_dccp, handle_message_dccp}

module _ (env : Env) where
  received_dccp-Kept :
      (s : Socket) (fd : ℤ) (r : Reply)
      → Present s fd
      → Ensures NotNull (Kept fd s) (received_dccp env s fd r)
  unfolding received_dccp
  received_dccp-Kept s fd r present = Ensures-bind _ _ (Ensures-check env _ _ _) λ _ _.
      Ensures-bind _ _ (terminate_message-SamePeers s r) λ t same.
        Ensures-weaken _
          (Ensures-if (first_byte t.msg_buffer == 0) _ _
            (λ _. handle_comm_lost_tcp-Kept env t fd (same.2 fd present))
            λ _. Ensures-bind _ _ (log_paddrs_tcp-Quiet env NotNull unset-NotNull fd) λ _ _.
              Ensures-if (env.equals (c_string t.msg_buffer) quit_msg) _ _
                (λ _. handle_graceful_shutdown_tcp-Kept env t fd (same.2 fd present))
                λ _. Ensures-pure t (Kept-refl fd t))
          λ u k. SamePeers-Kept fd s t u same k

  -- On a known descriptor, no message makes the handler go through a NULL pointer.
  pub handle_message_dccp-Kept :
      (s : Socket) (fd : ℤ)
      → Known s fd
      → Ensures NotNull (Kept fd s) (handle_message_dccp env s fd)
  unfolding handle_message_dccp
  handle_message_dccp-Kept s fd (inl own) =
      rw ((==ℤ_iff fd s.fd).1 own, handle_message_dccp) (handle_comm_up_tcp-Kept env s fd)
  handle_message_dccp-Kept s fd (inr present) =
      Ensures-if (fd ==ℤ s.fd) _ _ (λ _. handle_comm_up_tcp-Kept env s fd)
        λ _. Ensures-bind _ _ (Ensures-invoke env _) λ r _. received_dccp-Kept s fd r present
