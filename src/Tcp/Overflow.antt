-- ===== src/Tcp/Overflow.antt =====
-- SocketTcp.c: when the end of a message is written behind the buffer.
use sctp_sandbox_c.Base.{
  ℕ, ◌≤◌, ◌<◌, ◌≡◌, ◌≢◌, ◌↔◌, refl, ap, ◌∷◌, ℤ, pos, negsuc, ◌==ℤ◌, ==ℤ_iff, ◌==◌, is_negative,
  arith, Bool-cases, inl, inr,
}
use sctp_sandbox_c.Errors.{failed}
use sctp_sandbox_c.Os.{Env, Call, Reply, History, Fault, fault, invoke}
use sctp_sandbox_c.Os.Ensures.{Ensures, Any, Ensures-pure, Ensures-bind, Ensures-if}
use sctp_sandbox_c.Bind.Quiet.{log_paddrs_tcp-Quiet}
use sctp_sandbox_c.Peers.{Socket, msg_buffer_size, terminate_message, first_byte}
use sctp_sandbox_c.Peers.Message.{terminate_message-fits}
use sctp_sandbox_c.Peers.Within.{
  Within, unset-Within, Ensures-Within, peer_through-Within, remove_peer-Within,
  schedule_reestablishment-Within,
}
use sctp_sandbox_c.Tcp.{
  handle_comm_lost_tcp, handle_graceful_shutdown_tcp, received_tcp, handle_message_tcp,
}

-- `recv` gives no more bytes than it was asked for.
abbrev pub ReceivesAtMost : Env → Type 0
ReceivesAtMost env =
    (fd : ℤ) (size n : ℕ) (h : History)
    → (env.reply (Call.recv fd size) h).result ≡ pos n
    → n ≤ size

terminated :
    (s : Socket) (r : Reply) (n : ℕ)
    → r.result ≡ pos n
    → n < msg_buffer_size
    → Ensures Within Any (terminate_message s r)
terminated s r n e fits = record { holds = λ h. rw (terminate_message-fits s r n h e fits) tt }

module _ (env : Env) where
  handle_comm_lost_tcp-Within :
      (s : Socket) (fd : ℤ) → Ensures Within Any (handle_comm_lost_tcp env s fd)
  unfolding handle_comm_lost_tcp
  handle_comm_lost_tcp-Within s fd = Ensures-bind _ _ (peer_through-Within s _) λ ip _.
      Ensures-bind _ _
        (Ensures-if ip.1.should_reestablish _ _
          (λ _. schedule_reestablishment-Within env ip.1.remote) λ _. Ensures-pure tt tt)
        λ _ _. remove_peer-Within env s _

  handle_graceful_shutdown_tcp-Within :
      (s : Socket) (fd : ℤ) → Ensures Within Any (handle_graceful_shutdown_tcp env s fd)
  unfolding handle_graceful_shutdown_tcp
  handle_graceful_shutdown_tcp-Within s fd =
      Ensures-bind _ _ (peer_through-Within s _) λ ip _. remove_peer-Within env s _

  at_connection :
      (s : Socket) (fd : ℤ) (h : History)
      → fd ≢ s.fd
      → handle_message_tcp env s fd h
        ≡ received_tcp env s fd
            (env.reply (Call.recv fd msg_buffer_size) h)
            (Call.recv fd msg_buffer_size ∷ h)
  unfolding handle_message_tcp invoke
  at_connection s fd h other = elim (Bool-cases (fd ==ℤ s.fd)) [
    | inl same ↦ absurd (other ((==ℤ_iff fd s.fd).0 same))
    | inr differ ↦ rw (differ, handle_message_tcp) refl
  ]

  -- A message that leaves room for its end, and one that fills the buffer.
  received_tcp-Within :
      (s : Socket) (fd : ℤ) (r : Reply) (z : ℤ)
      → r.result ≡ z
      → z ≢ pos msg_buffer_size
      → ((n : ℕ) → r.result ≡ pos n → n ≤ msg_buffer_size)
      → Ensures Within Any (received_tcp env s fd r)
  unfolding received_tcp failed
  received_tcp-Within s fd r (negsuc n) e short bounded =
      rw (e, received_tcp) (handle_comm_lost_tcp-Within s fd)
  received_tcp-Within s fd r (pos n) e short bounded =
      Ensures-if (is_negative r.result) _ _ (λ _. handle_comm_lost_tcp-Within s fd)
        λ _. Ensures-bind _ _ (terminated s r n e fits) λ t _.
          Ensures-if (first_byte t.msg_buffer == 0) _ _
            (λ _. handle_graceful_shutdown_tcp-Within t fd)
            λ _.
              Ensures-bind _ _ (log_paddrs_tcp-Quiet env Within unset-Within fd)
                λ _ _. Ensures-pure t tt
    where
      fits : n < msg_buffer_size
      fits =
          let most : n ≤ msg_buffer_size = bounded n e in
          elim (Bool-cases (n == msg_buffer_size)) [
            | inl same ↦
                let last : n ≡ msg_buffer_size = ground arith in absurd (short (ap pos last))
            | inr differ ↦ ground arith
          ]

  overflowing :
      (s : Socket) (fd : ℤ) (r : Reply) (h : History)
      → r.result ≡ pos msg_buffer_size
      → received_tcp env s fd r h ≡ fault Fault.msg_buffer_index
  unfolding received_tcp terminate_message failed
  overflowing s fd r h full = ground arith

  -- Where recv gives no more bytes than it is asked for, a ready connection makes the handler write
  -- the end of its message behind the buffer exactly if recv fills the whole buffer, whatever the
  -- state of the socket.
  pub handle_message_tcp-overflow :
      (s : Socket) (fd : ℤ) (h : History)
      → fd ≢ s.fd
      → ReceivesAtMost env
      → (handle_message_tcp env s fd h ≡ fault Fault.msg_buffer_index)
        ↔ ((env.reply (Call.recv fd msg_buffer_size) h).result ≡ pos msg_buffer_size)
  handle_message_tcp-overflow s fd h other bounded =
      let r = env.reply (Call.recv fd msg_buffer_size) h in
      let h' : History = Call.recv fd msg_buffer_size ∷ h in
      rw (at_connection s fd h other) (
        λ over. elim (Bool-cases (r.result ==ℤ pos msg_buffer_size)) [
          | inl full ↦ (==ℤ_iff r.result (pos msg_buffer_size)).0 full
          | inr short ↦ absurd (
              Ensures-Within _
                (received_tcp-Within s fd r r.result refl
                  (λ same.
                    let yes = (==ℤ_iff r.result (pos msg_buffer_size)).1 same in
                    absurd (ground arith))
                  λ n e. bounded fd msg_buffer_size n h e)
                h' over)
        ],
        λ full. overflowing s fd r h' full,
      )
