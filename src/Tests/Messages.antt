-- ===== src/Tests/Messages.antt =====
-- Messages, losses and new peers on the machine of Tests, for the theorems on the protocols.
use sctp_sandbox_c.Base.{◌≡◌, ◌↔◌, refl, true, false, [], ◌∷◌, some, pos, arith, get_elem?}
use sctp_sandbox_c.Protocol.{is_udp, tcp, udp}
use sctp_sandbox_c.Os.{Fault, fault, ok, Call, History, ◌>>=◌}
use sctp_sandbox_c.Peers.{msg_buffer_size, Peer, Socket}
use sctp_sandbox_c.Tcp.{handle_message_tcp}
use sctp_sandbox_c.Tcp.Overflow.{ReceivesAtMost, handle_message_tcp-overflow}
use sctp_sandbox_c.Udp.{
  find_peer_by_remote, handle_comm_up_udp, handle_comm_lost_udp, connect_socket_udp,
}
use sctp_sandbox_c.Udp.Laws.{lost-reestablish, connect_socket_udp-count}
use sctp_sandbox_c.Network.{answer_chat}
use sctp_sandbox_c.Network.Relay.{answer_chat-relays}
use sctp_sandbox_c.Dispatch.Relay.{relayed}
use sctp_sandbox_c.Tests.{
  machine, machine-IsLawful, flood, remote, other_remote, joined, same_text, joined-IsValid,
}

joined_remote : find_peer_by_remote machine (joined udp) remote ≡ some 0
unfolding find_peer_by_remote same_text
joined_remote = refl

udp_is_datagram : is_udp udp ≡ true
unfolding is_udp
udp_is_datagram = refl

flood-ReceivesAtMost : ReceivesAtMost flood
flood-ReceivesAtMost fd size n h e = ground arith

handle_message_tcp-overflow_example :
    (handle_message_tcp flood (joined tcp) (pos 8) [] ≡ fault Fault.msg_buffer_index)
    ↔ ((flood.reply (Call.recv (pos 8) msg_buffer_size) []).result ≡ pos msg_buffer_size)
handle_message_tcp-overflow_example =
    handle_message_tcp-overflow flood (joined tcp) (pos 8) [] (λ e. absurd (ground arith))
      flood-ReceivesAtMost

answer_chat-relays_example :
    answer_chat machine (joined tcp) (b'h' ∷ []) [] ≡ ok false (relayed (joined tcp) (b'h' ∷ []) [])
answer_chat-relays_example =
    answer_chat-relays machine machine-IsLawful (joined tcp) (b'h' ∷ []) [] refl
      (λ e. absurd (ground arith)) (λ e. absurd (ground arith)) λ fd h. refl

lost-reestablish_example :
    (t : Socket) × (h : History) × (p : Peer) × ((handle_comm_lost_udp machine (joined udp) remote
          >>= λ u. handle_comm_up_udp machine u remote)
        []
      ≡ ok t h)
    × (t.peer_count ≡ 2)
    × (get_elem? t.peers 0 ≡ some p)
    × (p.remote.port ≡ 0)
lost-reestablish_example =
    lost-reestablish machine (joined udp) remote [] 0 udp_is_datagram (joined-IsValid udp)
      (omega arith) joined_remote (omega arith)

connect_socket_udp-count_example :
    (t : Socket) × (h : History) × (connect_socket_udp machine
        (joined udp)
        (record { sockets = other_remote ∷ []; count = 1 })
        []
      ≡ ok t h)
    × (t.peer_count ≡ 2)
connect_socket_udp-count_example =
    connect_socket_udp-count machine (joined udp)
      (record { sockets = other_remote ∷ []; count = 1 }) [] (joined-IsValid udp)
