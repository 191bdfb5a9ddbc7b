-- ===== src/Tcp/Connections/Represents.antt =====
-- SocketTcp.c: what it is for a socket and its calls to represent connections, and what they know of the
-- entry of a descriptor.
use sctp_sandbox_c.Base.{
  ℕ, ◌<◌, ◌≤◌, ◌≡◌, refl, true, false, Bool, List, Option, none, some, get_elem?, ℤ, is_nonzero,
  ◌==ℤ◌, Bool-cases, inl, inr, ◌⊎◌,
}
use sctp_sandbox_c.Protocol.{is_udp}
use sctp_sandbox_c.Os.{History}
use sctp_sandbox_c.Peers.{Peer, Socket, find_peer_by_fd}
use sctp_sandbox_c.Peers.Table.{IsValid}
use sctp_sandbox_c.Peers.Matching.{by_entry, matching}
use sctp_sandbox_c.Peers.Found.{found, found-find, found-none}
use sctp_sandbox_c.Peers.Retries.{retried}
use sctp_sandbox_c.Tcp.Laws.{reestablished}
use sctp_sandbox_c.Tcp.Connections.{Connection, Connections, retry}

abbrev pub has_fd : ℤ → Peer → Bool
has_fd fd p = p.fd ==ℤ fd

abbrev pub connection : Peer → Connection
connection p = record { remote = p.remote; made_here = p.should_reestablish }

abbrev pub connection_of : Option Peer → Option Connection
connection_of none = none
connection_of (some p) = some (connection p)

pub record Represents (s : Socket) (h : History) (d : Connections) : Type 0 where
  pub valid : IsValid s
  pub connected : is_udp s.protocol ≡ false
  pub taken : d.taken ≡ s.peer_count
  pub at_fd :
      (fd : ℤ)
      → is_nonzero fd ≡ true
      → d.at_fd fd ≡ connection_of (found (has_fd fd) s.peer_count s.peers)
  pub distinct : (fd : ℤ) → is_nonzero fd ≡ true → matching (has_fd fd) s.peer_count s.peers ≤ 1
  pub retries : d.retries ≡ retried h

-- Only these calls count, and the text of a message does not.
pub later-Represents :
    (s : Socket) (h h' : History) (d : Connections) (buffer : List ℕ)
    → retried h' ≡ retried h
    → Represents s h d
    → Represents (record s { msg_buffer = buffer }) h' d
later-Represents s h h' d buffer same rep = record {
  valid = record { table = rep.valid.table; count = rep.valid.count };
  connected = rep.connected;
  taken = rep.taken;
  at_fd = rep.at_fd;
  distinct = rep.distinct;
  retries = rw same rep.retries;
}

-- A new connection is scheduled exactly if this side made the old one.
pub retry-Represents :
    (s : Socket) (h : History) (d : Connections) (p : Peer)
    → Represents s h d
    → Represents s (reestablished p h) (retry d (connection p))
retry-Represents s h d p rep = elim (Bool-cases p.should_reestablish) [
  | inl mine ↦ rw mine (record {
    valid = rep.valid;
    connected = rep.connected;
    taken = rep.taken;
    at_fd = rep.at_fd;
    distinct = rep.distinct;
    retries = rw rep.retries refl;
  })
  | inr theirs ↦ rw theirs rep
]

-- The entry of a descriptor that has a connection.
abbrev pub HasConnection : Socket → Connections → ℤ → Type 0
HasConnection s d fd =
    (i : ℕ) × (p : Peer) × (find_peer_by_fd s fd ≡ some i)
    × (i < s.peer_count)
    × (get_elem? s.peers i ≡ some p)
    × (has_fd fd p ≡ true)
    × (d.at_fd fd ≡ some (connection p))

-- A descriptor has a connection exactly if the search finds its entry.
pub by_fd :
    (s : Socket) (h : History) (d : Connections) (fd : ℤ)
    → Represents s h d
    → is_nonzero fd ≡ true
    → ((find_peer_by_fd s fd ≡ none) × (d.at_fd fd ≡ none)) ⊎ HasConnection s d fd
unfolding find_peer_by_fd
by_fd s h d fd rep live = elim (by_entry (has_fd fd) s) [
  | inl (unknown, nothing) ↦
      inl
        (unknown, rw (rep.at_fd fd live, found-none (has_fd fd) s.peer_count s.peers nothing) refl)
  | inr (i, p, known, below, there, own, matched) ↦ inr (
    i,
    p,
    known,
    below,
    there,
    own,
    rw (rep.at_fd fd live, found-find (has_fd fd) s.peer_count s.peers i p known there) refl,
  )
]
