-- ===== src/Network/Relay.antt =====
-- NetworkTask.c on TCP: what a task does with a text that another task posted.
use sctp_sandbox_c.Base.{ℕ, ◌≡◌, ◌≢◌, refl, false, List, [], Bool-cases, inl, inr}
use sctp_sandbox_c.Protocol.{tcp}
use sctp_sandbox_c.Os.{Env, History, ok}
use sctp_sandbox_c.Os.Laws.{IsLawful}
use sctp_sandbox_c.Peers.{Socket, quit_msg}
use sctp_sandbox_c.Tcp.Laws.{SendsPass}
use sctp_sandbox_c.Dispatch.Relay.{relayed, send_socket-relays}
use sctp_sandbox_c.Network.{answer_chat}

module _ (env : Env) (L : IsLawful env) where
  -- A text that is neither empty nor quit and is read from the mailbox by a TCP task is sent, where
  -- every send of it succeeds and the string tests test what their names say, once to each peer
  -- below the count that has a descriptor, in the order of the table; nothing else is called, and
  -- the loop goes on.
  pub answer_chat-relays :
      (s : Socket) (msg : List ℕ) (h : History)
      → s.protocol ≡ tcp
      → msg ≢ []
      → msg ≢ quit_msg
      → SendsPass env msg
      → answer_chat env s msg h ≡ ok false (relayed s msg h)
  unfolding answer_chat
  answer_chat-relays s msg h on_tcp some_text no_quit pass = elim (Bool-cases (env.empty msg)) [
    | inl e ↦ absurd (some_text ((L.empty_iff msg).0 e))
    | inr e ↦ elim (Bool-cases (env.equals msg quit_msg)) [
      | inl q ↦ absurd (no_quit ((L.equals_iff msg quit_msg).0 q))
      | inr q ↦ rw (e, q, send_socket-relays env L s msg h on_tcp pass) refl
    ]
  ]
