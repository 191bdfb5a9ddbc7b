-- ===== src/UnixSocket/Table.antt =====
-- SocketUnix.c keeps the table of peers in shape.
use sctp_sandbox_c.Base.{ℕ, List, [], ◌∷◌, ℤ, ltb, length, Option-cases, inl, inr}
use sctp_sandbox_c.Os.{Env, IpSocket, Fault}
use sctp_sandbox_c.Os.Ensures.{Ensures, Ensures-fails, Ensures-bind, Ensures-if, Ensures-checked}
use sctp_sandbox_c.IpSocket.{IpSockets, listed}
use sctp_sandbox_c.Peers.{Socket, path_max_length, c_string, quit_msg}
use sctp_sandbox_c.Peers.Table.{
  Indexed, IsValid, Follows, Ensures-then, Ensures-unchanged, Ensures-room, InTable,
  add_peer-Follows, remove_peer-Follows, terminate_message-Follows,
}
use sctp_sandbox_c.Peers.Find.{find_peer-InTable}
use sctp_sandbox_c.UnixSocket.{
  handle_comm_up_unix, connect_each_unix, connect_socket_unix, find_peer_by_path,
  handle_graceful_shutdown_unix, delivered_unix, handle_message_unix,
}

handle_comm_up_unix-Follows :
    (s : Socket) (path : List ℕ)
    → IsValid s
    → Ensures Indexed (Follows s) (handle_comm_up_unix s path)
unfolding handle_comm_up_unix
handle_comm_up_unix-Follows s path v = Ensures-room s _ v λ room.
    Ensures-if (ltb (length path) path_max_length) _ _ (λ _. add_peer-Follows s _ v room)
      λ _. Ensures-fails Fault.path_overflow (λ e. cc)

connect_each_unix-Follows :
    (s : Socket) (remotes : List IpSocket)
    → IsValid s
    → Ensures Indexed (Follows s) (connect_each_unix s remotes)
unfolding connect_each_unix
connect_each_unix-Follows s [] v = Ensures-unchanged s v
connect_each_unix-Follows s (remote ∷ rest) v =
    Ensures-then s _ _ (handle_comm_up_unix-Follows s remote.addr v)
      λ t v'. connect_each_unix-Follows t rest v'

pub connect_socket_unix-Follows :
    (s : Socket) (remotes : IpSockets)
    → IsValid s
    → Ensures Indexed (Follows s) (connect_socket_unix s remotes)
unfolding connect_socket_unix
connect_socket_unix-Follows s remotes v = connect_each_unix-Follows s (listed remotes) v

module _ (env : Env) where
  find_peer_by_path-InTable :
      (s : Socket) (path : List ℕ) → InTable s (find_peer_by_path env s path)
  unfolding find_peer_by_path
  find_peer_by_path-InTable s path = find_peer-InTable s _

  handle_graceful_shutdown_unix-Follows :
      (s : Socket) (path : List ℕ)
      → IsValid s
      → Ensures Indexed (Follows s) (handle_graceful_shutdown_unix env s path)
  unfolding handle_graceful_shutdown_unix
  handle_graceful_shutdown_unix-Follows s path v =
      remove_peer-Follows env s _ v (find_peer_by_path-InTable s path)

  delivered_unix-Follows :
      (s : Socket) (path : List ℕ)
      → IsValid s
      → Ensures Indexed (Follows s) (delivered_unix env s path)
  unfolding delivered_unix
  delivered_unix-Follows s path v =
      Ensures-if (env.equals (c_string s.msg_buffer) quit_msg) _ _
        (λ _. handle_graceful_shutdown_unix-Follows s path v)
        λ _. elim (Option-cases (find_peer_by_path env s path)) [
          | inl e ↦ rw e (handle_comm_up_unix-Follows s path v)
          | inr (i, e) ↦ rw e (Ensures-unchanged s v)
        ]

  pub handle_message_unix-Follows :
      (s : Socket) (fd : ℤ) → IsValid s → Ensures Indexed (Follows s) (handle_message_unix env s fd)
  unfolding handle_message_unix
  handle_message_unix-Follows s fd v = Ensures-bind _ _ (Ensures-checked env _ _) λ r _.
      Ensures-then s _ _ (terminate_message-Follows s r v)
        λ t v'. delivered_unix-Follows t r.from.sun_path v'
