-- ===== src/UnixSocket/Paths.antt =====
-- SocketUnix.c, as its callers see it: a bag of paths, in which each has a number of entries, and the
-- number of entries that were ever taken. What happens to it is a message from a path, or a connection
-- that the task asks for at its start.
pub mod Represents
pub mod Refinement
use sctp_sandbox_c.Base.{ℕ, ◌+◌, ◌-◌, List, [], ◌∷◌, Option, none, some, ltb, if◌then◌else◌}
use sctp_sandbox_c.Os.{Env, IpSocket, Reply, M, pure, ◌>>=◌}
use sctp_sandbox_c.Peers.{Socket, peers_max_count, quit_msg, terminate_message}
use sctp_sandbox_c.UnixSocket.{delivered_unix, handle_comm_up_unix}

pub record Paths : Type 0 where
  pub entries : List ℕ → ℕ
  pub taken : ℕ

pub data Event : Type 0 where
  message : (received : Reply) → Event
  connection : (path : List ℕ) → Event

module _ (env : Env) where
  abbrev pub changed_at : (List ℕ → ℕ) → List ℕ → ℕ → List ℕ → ℕ
  changed_at f path n q = if env.equals path q then n else f q

  -- A path that is met takes an entry, if there is one.
  abbrev pub meet : Paths → List ℕ → Paths
  meet d path =
      if ltb d.taken peers_max_count
      then record { entries = changed_at d.entries path (d.entries path + 1); taken = d.taken + 1 }
      else d

  -- A path that goes gives up one entry; one that has none is an error.
  abbrev pub drop_one : Paths → List ℕ → Option Paths
  drop_one d path =
      if ltb 0 (d.entries path)
      then some (record d { entries = changed_at d.entries path (d.entries path - 1) })
      else none

  abbrev pub serve : Paths → Event → Option Paths
  serve d (message r) =
      if env.equals r.bytes quit_msg
      then drop_one d r.from.sun_path
      else some (if ltb 0 (d.entries r.from.sun_path) then d else meet d r.from.sun_path)
  serve d (connection path) = some (meet d path)

  -- The paths after some events; the first error ends it.
  unfoldable pub serve_each : Paths → List Event → Option Paths
  serve_each d [] = some d
  serve_each d (e ∷ events) = elim (serve d e) [ none ↦ none | some d' ↦ serve_each d' events ]

  -- The same events at a socket: what handleMessageUnix does once recvfrom has answered, and a turn of
  -- the loop of connectSocketUnix.
  abbrev pub react : Socket → Event → M Socket
  react s (message r) = terminate_message s r >>= λ t. delivered_unix env t r.from.sun_path
  react s (connection path) = handle_comm_up_unix s path

  unfoldable pub react_each : Socket → List Event → M Socket
  react_each s [] = pure s
  react_each s (e ∷ events) = let more = λ (t : Socket). react_each t events in react s e >>= more
