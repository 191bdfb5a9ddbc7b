-- ===== src/UnixSocket/Paths/Refinement.antt =====
-- SocketUnix.c: runs of a Unix socket, event by event, beside those of its paths.
use sctp_sandbox_c.Base.{
  ℕ, ◌<◌, ◌≡◌, refl, true, false, List, [], ◌∷◌, Option, some, pos, ltb, leb, length,
  get_elem?_below, Bool-cases, inl, inr, arith, if◌then◌else◌,
}
use sctp_sandbox_c.Os.{Env, History, Outcome}
use sctp_sandbox_c.Os.Laws.{IsLawful}
use sctp_sandbox_c.Peers.{
  Socket, peers_max_count, path_max_length, msg_buffer_size, c_string, quit_msg,
}
use sctp_sandbox_c.Peers.Agrees.{Agrees, Agrees-then}
use sctp_sandbox_c.Peers.Matching.{by_entry}
use sctp_sandbox_c.Peers.Message.{IsText, terminate_message-c_string}
use sctp_sandbox_c.Peers.Remove.{remove_peer_lem, remove_peer_null, closed}
use sctp_sandbox_c.UnixSocket.{
  has_path, find_peer_by_path, handle_comm_up_unix, handle_graceful_shutdown_unix, delivered_unix,
}
use sctp_sandbox_c.UnixSocket.Laws.{named, handle_comm_up_unix_lem}
use sctp_sandbox_c.UnixSocket.Paths.{
  Paths, Event, message, connection, meet, drop_one, serve, serve_each, react, react_each,
}
use sctp_sandbox_c.UnixSocket.Paths.Represents.{
  Represents, later-Represents, met-Represents, dropped-Represents,
}

-- A path that is not empty and leaves room for its end.
abbrev pub IsPath : List ℕ → Type 0
IsPath path = (0 < length path) × (length path < path_max_length)

-- A message of nonzero bytes that leaves room for its end, from a path; or a path.
abbrev pub IsUsable : Event → Type 0
IsUsable (message r) =
    (r.result ≡ pos (length r.bytes))
    × (length r.bytes < msg_buffer_size)
    × IsText r.bytes
    × IsPath r.from.sun_path
IsUsable (connection path) = IsPath path

abbrev pub AreUsable : List Event → Type 0
AreUsable [] = Unit {0}
AreUsable (e ∷ events) = IsUsable e × AreUsable events

module _ (env : Env) where
  abbrev pub Simulates : Outcome Socket → Option Paths → Type 0
  Simulates = Agrees (Represents env)

  module _ (L : IsLawful env) where
    meet-Simulates :
        (s : Socket) (d : Paths) (path : List ℕ) (h : History)
        → Represents env s h d
        → IsPath path
        → Simulates (handle_comm_up_unix s path h) (some (meet env d path))
    unfolding handle_comm_up_unix
    meet-Simulates s d path h rep (some_text, short) =
        elim (Bool-cases (leb peers_max_count s.peer_count)) [
          | inl full ↦
              let same : meet env d path ≡ d = ground (arith, rep.taken) in rw (full, same) rep
          | inr free ↦
              let room : s.peer_count < peers_max_count = ground arith in
              let (p, there) =
                get_elem?_below s.peers s.peer_count (omega (arith, rep.valid.table)) in
              rw (handle_comm_up_unix_lem s path h p room short there)
                (met-Represents env L s h d path (named path p) rep refl room)
        ]

    drop-Simulates :
        (s : Socket) (d : Paths) (path : List ℕ) (h : History)
        → Represents env s h d
        → IsPath path
        → Simulates (handle_graceful_shutdown_unix env s path h) (drop_one env d path)
    unfolding handle_graceful_shutdown_unix find_peer_by_path
    drop-Simulates s d path h rep usable = elim (by_entry (has_path env path) s) [
      | inl (unknown, nothing) ↦
          let zero_entries : ltb 0 (d.entries path) ≡ false =
            ground (arith, rep.entries path usable.0) in
          rw (unknown, zero_entries, remove_peer_null env s h) refl
      | inr (i, p, known, below, there, own, matched) ↦
          let entry : ltb 0 (d.entries path) ≡ true = ground (arith, rep.entries path usable.0) in
          rw (known, entry, remove_peer_lem env s i p h rep.connected there)
            (dropped-Represents env L s h (closed p.fd h) d path i p rep below there own)
    ]

    hear-Simulates :
        (s : Socket) (d : Paths) (path : List ℕ) (h : History)
        → Represents env s h d
        → IsPath path
        → env.equals (c_string s.msg_buffer) quit_msg ≡ false
        → Simulates
            (delivered_unix env s path h)
            (some (if ltb 0 (d.entries path) then d else meet env d path))
    unfolding delivered_unix find_peer_by_path
    hear-Simulates s d path h rep usable other = elim (by_entry (has_path env path) s) [
      | inl (unknown, nothing) ↦
          let zero_entries : ltb 0 (d.entries path) ≡ false =
            ground (arith, rep.entries path usable.0) in
          rw (other, unknown, zero_entries) (meet-Simulates s d path h rep usable)
      | inr (i, p, known, below, there, own, matched) ↦
          let entry : ltb 0 (d.entries path) ≡ true = ground (arith, rep.entries path usable.0) in
          rw (other, known, entry) rep
    ]

    react-Simulates :
        (e : Event) (s : Socket) (d : Paths) (h : History)
        → Represents env s h d
        → IsUsable e
        → Simulates (react env s e h) (serve env d e)
    unfolding delivered_unix
    react-Simulates (connection path) s d h rep u = meet-Simulates s d path h rep u
    react-Simulates (message r) s d h rep (full, short, text, usable) =
        let (buffer, e, same) = terminate_message-c_string s r h full short text in
        let buffered = later-Represents env s h h d buffer rep in
        let t : Socket = record s { msg_buffer = buffer } in
        elim (Bool-cases (env.equals r.bytes quit_msg)) [
          | inl quits ↦
              let said : env.equals (c_string buffer) quit_msg ≡ true = rw same quits in
              rw (e, quits, said) (drop-Simulates t d r.from.sun_path h buffered usable)
          | inr other ↦
              let said : env.equals (c_string buffer) quit_msg ≡ false = rw same other in
              rw (e, other) (hear-Simulates t d r.from.sun_path h buffered usable said)
        ]

    -- A Unix socket refines a bag of paths: over any messages of nonzero bytes that fit the buffer
    -- and any connections, with paths of one to nine bytes, a socket that represents a bag returns
    -- exactly where the bag meets no error, and then represents the bag after these events; where
    -- the bag is to give up a path that it has not, the socket goes through a NULL pointer. The
    -- string tests test what their names say.
    pub run_paths-Simulates :
        (events : List Event) (s : Socket) (d : Paths) (h : History)
        → Represents env s h d
        → AreUsable events
        → Simulates (react_each env s events h) (serve_each env d events)
    unfolding react_each serve_each
    run_paths-Simulates [] s d h rep u = rep
    run_paths-Simulates (e ∷ events) s d h rep (u, us) =
        Agrees-then (Represents env) (react env s e h) (serve env d e)
          (λ t. react_each env t events) (λ d'. serve_each env d' events)
          (react-Simulates e s d h rep u) λ t d' h' rep'. run_paths-Simulates events t d' h' rep' us
