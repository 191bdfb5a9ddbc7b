-- ===== src/Dispatch/Directory.antt =====
-- SocketUdp.c, as its callers see it: a bag of remotes, in which each has a number of entries, and the
-- number of entries that were ever taken. What happens to it is a datagram, a connection that is
-- asked for (by the task at its start, or by the reestablishing callback), or the loss of a remote.
pub mod Represents
pub mod Simulates
pub mod Refinement
use sctp_sandbox_c.Base.{
  ℕ, ◌+◌, ◌-◌, ◌<◌, ◌≡◌, Bool, true, false, ◌&&◌, List, [], ◌∷◌, Option, none, some, ltb, ◌==◌, pos,
  length, if◌then◌else◌,
}
use sctp_sandbox_c.Os.{Env, IpSocket, Reply, M, pure, ◌>>=◌}
use sctp_sandbox_c.Peers.{Socket, peers_max_count, quit_msg, terminate_message}
use sctp_sandbox_c.Udp.{delivered_udp, handle_comm_lost_udp}
use sctp_sandbox_c.Dispatch.{reestablish}

pub record Directory : Type 0 where
  pub entries : IpSocket → ℕ
  pub taken : ℕ

pub data Event : Type 0 where
  datagram : (received : Reply) (sender : IpSocket) → Event
  connection loss : (remote : IpSocket) → Event

module _ (env : Env) where
  -- Remotes are told apart by address and port.
  abbrev pub same_remote : IpSocket → IpSocket → Bool
  same_remote a b = env.equals a.addr b.addr && (a.port == b.port)

  abbrev pub changed_at : (IpSocket → ℕ) → IpSocket → ℕ → IpSocket → ℕ
  changed_at f r n q = if same_remote r q then n else f q

  -- A remote that is met takes an entry, if there is one.
  abbrev pub meet : Directory → IpSocket → Directory
  meet d r =
      if ltb d.taken peers_max_count
      then record { entries = changed_at d.entries r (d.entries r + 1); taken = d.taken + 1 }
      else d

  -- A remote that goes gives up one entry; one that has none is an error.
  abbrev pub drop_one : Directory → IpSocket → Option Directory
  drop_one d r =
      if ltb 0 (d.entries r)
      then some (record d { entries = changed_at d.entries r (d.entries r - 1) })
      else none

  abbrev pub serve : Directory → Event → Option Directory
  serve d (datagram r sender) =
      if env.equals r.bytes quit_msg
      then drop_one d sender
      else some (if ltb 0 (d.entries sender) then d else meet d sender)
  serve d (connection remote) = some (meet d remote)
  serve d (loss remote) = drop_one d remote

  -- The directory after some events; the first error ends it.
  unfoldable pub serve_each : Directory → List Event → Option Directory
  serve_each d [] = some d
  serve_each d (e ∷ events) = elim (serve d e) [ none ↦ none | some d' ↦ serve_each d' events ]

  -- The same events at a socket: what handleMessageUdp does once recvfrom has answered and the sender's
  -- address is text, and the callbacks of the scheduler.
  abbrev pub react : Socket → Event → M Socket
  react s (datagram r sender) = terminate_message s r >>= λ t. delivered_udp env t sender
  react s (connection remote) = reestablish env s remote
  react s (loss remote) = handle_comm_lost_udp env s remote

  unfoldable pub react_each : Socket → List Event → M Socket
  react_each s [] = pure s
  react_each s (e ∷ events) = let more = λ (t : Socket). react_each t events in react s e >>= more
