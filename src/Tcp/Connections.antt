-- ===== src/Tcp/Connections.antt =====
-- SocketTcp.c, as its callers see it: connections, each at its descriptor, with the remote and whether
-- this side made it; the number of entries that were ever taken; and the remotes to which a new
-- connection is to be made, the latest first.
pub mod Represents
pub mod Changes
pub mod Arrivals
pub mod Refinement
use sctp_sandbox_c.Base.{
  ℕ, ◌+◌, ◌≡◌, Bool, true, false, List, [], ◌∷◌, Option, none, some, ℤ, ◌==ℤ◌, ltb, if◌then◌else◌,
}
use sctp_sandbox_c.Os.{Env, IpSocket, M, pure, ◌>>=◌}
use sctp_sandbox_c.Peers.{Socket, peers_max_count}
use sctp_sandbox_c.Tcp.{handle_message_tcp}

pub record Connection : Type 0 where
  pub remote : IpSocket
  pub made_here : Bool

pub record Connections : Type 0 where
  pub at_fd : ℤ → Option Connection
  pub taken : ℕ
  pub retries : List IpSocket

-- What happens on a descriptor: a remote connects, and gets a descriptor of its own; data comes; the
-- remote ends the connection; or the connection fails.
pub data Event : Type 0 where
  accepted : (fd : ℤ) (remote : IpSocket) → Event
  data_on ended failed : (fd : ℤ) → Event

abbrev pub changed_at : (ℤ → Option Connection) → ℤ → Option Connection → ℤ → Option Connection
changed_at f a c b = if a ==ℤ b then c else f b

-- A remote that connects takes an entry, if there is one.
abbrev pub accept : Connections → ℤ → IpSocket → Connections
accept d fd remote =
    if ltb d.taken peers_max_count
    then record d {
      at_fd = changed_at d.at_fd fd (some (record { remote = remote; made_here = false }));
      taken = d.taken + 1;
    }
    else d

abbrev pub close : Connections → ℤ → Connections
close d fd = record d { at_fd = changed_at d.at_fd fd none }

-- Only a connection that this side made is made again.
abbrev pub retry : Connections → Connection → Connections
retry d c = if c.made_here then record d { retries = c.remote ∷ d.retries } else d

-- The end or the failure of a connection that there is not is an error.
abbrev pub serve : Connections → Event → Option Connections
serve d (accepted fd remote) = some (accept d fd remote)
serve d (data_on fd) = some d
serve d (ended fd) = elim (d.at_fd fd) [ none ↦ none | some c ↦ some (close d fd) ]
serve d (failed fd) = elim (d.at_fd fd) [ none ↦ none | some c ↦ some (close (retry d c) fd) ]

-- The kernel gives a descriptor that no connection has.
abbrev pub IsFresh : Connections → Event → Type 0
IsFresh d (accepted fd remote) = d.at_fd fd ≡ none
IsFresh d e = Unit {0}

-- The connections after some events; the first error ends it.
unfoldable pub serve_each : Connections → List Event → Option Connections
serve_each d [] = some d
serve_each d (e ∷ events) = elim (serve d e) [ none ↦ none | some d' ↦ serve_each d' events ]

-- The descriptor that is ready.
abbrev pub fd_of : (listener : ℤ) → Event → ℤ
fd_of listener (accepted fd remote) = listener
fd_of listener (data_on fd) = fd
fd_of listener (ended fd) = fd
fd_of listener (failed fd) = fd

-- The same events at a socket.
unfoldable pub react_each : Env → Socket → List Event → M Socket
react_each env s [] = pure s
react_each env s (e ∷ events) =
    let more = λ (t : Socket). react_each env t events in
    handle_message_tcp env s (fd_of s.fd e) >>= more
