-- ===== src/UnixSocket/Laws.antt =====
-- SocketUnix.c: what a message does, by what it says and by whether its sender's path is known.
use sctp_sandbox_c.Base.{
  ℕ, ◌+◌, ◌<◌, ◌≤◌, ◌≡◌, ◌↔◌, true, false, List, none, some, get_elem?, length, get_elem?_below,
  Bool-cases, Option-cases, inl, inr, leb, ltb, arith,
}
use sctp_sandbox_c.Protocol.{is_udp}
use sctp_sandbox_c.Os.{Env, History, Fault, fault, ok}
use sctp_sandbox_c.Peers.{
  Peer, Socket, peers_max_count, path_max_length, add_peer, peer_at, c_string, quit_msg, set_peer,
}
use sctp_sandbox_c.Peers.Table.{IsValid}
use sctp_sandbox_c.Peers.Find.{find_peer-InTable}
use sctp_sandbox_c.Peers.Remove.{remove_peer_lem, remove_peer_null}
use sctp_sandbox_c.UnixSocket.{
  named_peer, has_path, handle_comm_up_unix, find_peer_by_path, handle_graceful_shutdown_unix,
  delivered_unix,
}

abbrev pub named : List ℕ → Peer → Peer
named path p = record p { path = path }

-- What a new path does to the socket.
pub handle_comm_up_unix_lem :
    (s : Socket) (path : List ℕ) (h : History) (p : Peer)
    → s.peer_count < peers_max_count
    → length path < path_max_length
    → get_elem? s.peers s.peer_count ≡ some p
    → handle_comm_up_unix s path h
      ≡ ok (record (set_peer s s.peer_count (named path p)) { peer_count = s.peer_count + 1 }) h
unfolding handle_comm_up_unix add_peer peer_at named_peer
handle_comm_up_unix_lem s path h p room short there = ground arith

-- With the table in shape, taking in a path overflows the path of an entry exactly if the table has
-- room and the path has ten bytes or more.
pub handle_comm_up_unix-overflow :
    (s : Socket) (path : List ℕ) (h : History)
    → IsValid s
    → (handle_comm_up_unix s path h ≡ fault Fault.path_overflow)
      ↔ ((s.peer_count < peers_max_count) × (path_max_length ≤ length path))
unfolding handle_comm_up_unix
handle_comm_up_unix-overflow s path h v = elim (Bool-cases (leb peers_max_count s.peer_count)) [
  | inl full ↦ (λ bad. absurd (ground arith), λ both. absurd (ground arith))
  | inr free ↦ elim (Bool-cases (ltb (length path) path_max_length)) [
    | inr long ↦ (λ _. (ground arith, ground arith), λ _. ground arith)
    | inl short ↦
        let room : s.peer_count < peers_max_count = ground arith in
        let (p, there) = get_elem?_below s.peers s.peer_count (omega (arith, v.table)) in
        (
          λ bad. absurd (ground (arith, handle_comm_up_unix_lem s path h p room)),
          λ both. absurd (ground arith),
        )
  ]
]

handle_comm_up_unix-present :
    (s : Socket) (path : List ℕ) (h : History)
    → handle_comm_up_unix s path h ≡ fault Fault.null_peer
    → ⊥
unfolding handle_comm_up_unix add_peer peer_at
handle_comm_up_unix-present s path h bad = ground arith

module _ (env : Env) where
  find_peer_by_path-below :
      (s : Socket) (path : List ℕ) (i : ℕ)
      → find_peer_by_path env s path ≡ some i
      → i < length s.peers
  unfolding find_peer_by_path
  find_peer_by_path-below s path i e = rw e at (find_peer-InTable s (has_path env path))

  -- On a protocol other than UDP and UDP-Lite, a message on a Unix socket makes the process go
  -- through a NULL pointer exactly if it says quit and no peer has its sender's path.
  pub delivered_unix-null :
      (s : Socket) (path : List ℕ) (h : History)
      → is_udp s.protocol ≡ false
      → (delivered_unix env s path h ≡ fault Fault.null_peer) ↔ (
          (env.equals (c_string s.msg_buffer) quit_msg ≡ true)
          × (find_peer_by_path env s path ≡ none))
  unfolding delivered_unix handle_graceful_shutdown_unix
  delivered_unix-null s path h stream =
      elim (Bool-cases (env.equals (c_string s.msg_buffer) quit_msg)) [
        | inl quits ↦ elim (Option-cases (find_peer_by_path env s path)) [
          | inl unknown ↦ (
            λ _. (quits, unknown),
            λ _. rw (quits, delivered_unix, unknown) (remove_peer_null env s h),
          )
          | inr (i, e) ↦
              let (p, there) = get_elem?_below s.peers i (find_peer_by_path-below s path i e) in
              (
                λ bad. absurd (ground (arith, remove_peer_lem env s i p h stream there)),
                λ both. absurd (ground arith),
              )
        ]
        | inr other ↦ elim (Option-cases (find_peer_by_path env s path)) [
          | inl unknown ↦ (
            λ bad.
                absurd (
                  handle_comm_up_unix-present s path h
                    (rw (other, delivered_unix, unknown) at bad)),
            λ both. absurd (ground arith),
          )
          | inr (i, e) ↦ (λ bad. absurd (ground arith), λ both. absurd (ground arith))
        ]
      ]

  -- A message that is not quit, from a path of fewer than ten bytes that no peer has, makes a peer
  -- with that path of the next entry, where the table has one free, and changes nothing else.
  pub delivered_unix-new :
      (s : Socket) (path : List ℕ) (h : History) (p : Peer)
      → env.equals (c_string s.msg_buffer) quit_msg ≡ false
      → find_peer_by_path env s path ≡ none
      → s.peer_count < peers_max_count
      → length path < path_max_length
      → get_elem? s.peers s.peer_count ≡ some p
      → delivered_unix env s path h
        ≡ ok (record (set_peer s s.peer_count (named path p)) { peer_count = s.peer_count + 1 }) h
  unfolding delivered_unix
  delivered_unix-new s path h p other unknown room short there =
      rw (other, delivered_unix, unknown) (handle_comm_up_unix_lem s path h p room short there)
