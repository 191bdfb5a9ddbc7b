-- ===== src/Tests/Connections.antt =====
-- A TCP socket with one connection, which this side made, on a machine where it fails.
use sctp_sandbox_c.Base.{
  refl, pos, negsuc, ◌==ℤ◌, List, [], ◌∷◌, some, none, Bool-cases, inl, inr, if◌then◌else◌, arith,
  Option,
}
use sctp_sandbox_c.Protocol.{tcp, is_udp}
use sctp_sandbox_c.Errors
use sctp_sandbox_c.Os.{Env, Call, Reply, Outcome, ok, exited, fault, invoke}
use sctp_sandbox_c.Os.Laws.{IsLawful}
use sctp_sandbox_c.Bind.Packed.{stored}
use sctp_sandbox_c.Peers.Matching.{matching}
use sctp_sandbox_c.Peers.Found.{found}
use sctp_sandbox_c.Peers.Agrees.{Reaches}
use sctp_sandbox_c.Peers.{
  Socket, find_peer_by_fd, peer_through, peer_at, schedule_reestablishment, remove_peer, close_fd,
}
use sctp_sandbox_c.Tcp.{handle_message_tcp, received_tcp, handle_comm_lost_tcp}
use sctp_sandbox_c.Tcp.Connections.{Connections, Event, accepted, failed, serve_each, react_each}
use sctp_sandbox_c.Tcp.Connections.Represents.{Represents, connection}
use sctp_sandbox_c.Tcp.Connections.Refinement.{Simulates, AllArrive, react_events-Simulates}
use sctp_sandbox_c.Tests.{
  answering, answering-IsLawful, replies, answer, peer, host, host_translated, joined,
  joined-IsValid,
}

abbrev broken : Call → Reply
broken (Call.recv fd size) = record answer { result = negsuc 0; errno = 104 }
broken (Call.accept fd) = record answer { result = pos 9; from = stored host host.addr }
broken c = replies c

abbrev breaking : Env
breaking = answering (λ c h. broken c) (λ a b. pos 0)

breaking-IsLawful : IsLawful breaking
breaking-IsLawful = answering-IsLawful _ _

-- The connection of the peer of `joined`.
abbrev one_connection : Connections
one_connection = record {
  at_fd = λ fd. if pos 8 ==ℤ fd then some (connection peer) else none;
  taken = 1;
  retries = [];
}

joined-Represents : Represents (joined tcp) [] one_connection
unfolding is_udp matching found
joined-Represents = record {
  valid = joined-IsValid tcp;
  connected = refl;
  taken = refl;
  at_fd = λ fd live. elim (Bool-cases (pos 8 ==ℤ fd)) [ inl e ↦ rw e refl | inr e ↦ rw e refl ];
  distinct = λ fd live. ground arith;
  retries = refl;
}

-- The connection fails, and then a remote connects.
abbrev events : List Event
events = failed (pos 8) ∷ accepted (pos 9) host ∷ []

-- Nothing is asked of what the last event reaches.
last_reached :
    (o : Outcome Socket) (served : Option Connections)
    → Reaches Represents (AllArrive breaking breaking-IsLawful []) o served
last_reached (ok t h) (some d) = tt
last_reached (ok t h) none = tt
last_reached (exited status h) served = tt
last_reached (fault x) served = tt

events-AllArrive : AllArrive breaking breaking-IsLawful events (joined tcp) one_connection []
unfolding handle_message_tcp received_tcp handle_comm_lost_tcp Errors.failed find_peer_by_fd
    peer_through peer_at schedule_reestablishment remove_peer is_udp close_fd invoke
events-AllArrive = (
  (refl, refl, refl),
  tt,
  ((refl, refl, refl, (host_translated _ _ _, refl)), refl, last_reached _ _),
)

react_events-Simulates_example :
    Simulates (react_each breaking (joined tcp) events []) (serve_each one_connection events)
react_events-Simulates_example =
    react_events-Simulates breaking breaking-IsLawful events (joined tcp) one_connection []
      joined-Represents events-AllArrive
