-- ===== src/Tcp/Connections/Refinement.antt =====
-- SocketTcp.c: what a TCP socket does with what happens on its descriptors, beside its connections.
use sctp_sandbox_c.Base.{
  ℕ, suc, ◌+◌, ◌<◌, ◌≡◌, refl, true, false, List, [], ◌∷◌, drop, Option, none, some, ℤ, pos, leb,
  ==ℤ_iff, get_elem?, get_elem?_below, Bool-cases, inl, inr, arith, is_negative, is_nonzero,
}
use sctp_sandbox_c.Errors.{Check, failed}
use sctp_sandbox_c.Os.{Env, Call, History, Outcome, ok, invoke, Reply, IpSocket}
use sctp_sandbox_c.Os.Laws.{IsLawful, check_passes, checked_passes}
use sctp_sandbox_c.Bind.{log_paddrs_tcp}
use sctp_sandbox_c.Bind.Packed.{sender_lem}
use sctp_sandbox_c.Peers.{
  msg_buffer_size, Peer, Socket, peers_max_count, set_peer, peer_through, peer_at,
}
use sctp_sandbox_c.Peers.Agrees.{Agrees, Reaches, Agrees-along}
use sctp_sandbox_c.Peers.Remove.{removed, add_peer_lem, remove_peer_lem}
use sctp_sandbox_c.Peers.Retries.{closed-retried}
use sctp_sandbox_c.Tcp.{
  accepted_peer, handle_comm_up_tcp, handle_comm_lost_tcp, handle_graceful_shutdown_tcp,
  received_tcp, handle_message_tcp,
}
use sctp_sandbox_c.Tcp.Laws.{reestablished, received_tcp-failed}
use sctp_sandbox_c.Tcp.Connections.{
  Connections, Event, accepted, data_on, ended, accept, retry, serve, serve_each, react_each, fd_of,
  IsFresh,
}
use sctp_sandbox_c.Tcp.Connections.Represents.{
  Represents, connection, later-Represents, retry-Represents, by_fd,
}
use sctp_sandbox_c.Tcp.Connections.Changes.{accepted-Represents, closed-Represents}
use sctp_sandbox_c.Tcp.Connections.Arrivals.{
  first_byte-taken, first_byte-zero, buffered, received_tcp-text, IsFrom, Arrives,
}

abbrev pub Simulates : Outcome Socket → Option Connections → Type 0
Simulates = Agrees Represents

peer_through_lem :
    (s : Socket) (i : ℕ) (p : Peer) (h : History)
    → get_elem? s.peers i ≡ some p
    → peer_through s (some i) h ≡ ok (i, p) h
unfolding peer_through peer_at
peer_through_lem s i p h there = ground arith

module _ (env : Env) (L : IsLawful env) where
  accepted-Simulates :
      (s : Socket) (d : Connections) (fd : ℤ) (remote : IpSocket) (h : History)
      → Represents s h d
      → Arrives env L s.fd h (accepted fd remote)
      → d.at_fd fd ≡ none
      → Simulates (handle_comm_up_tcp env s s.fd h) (some (accept d fd remote))
  unfolding handle_comm_up_tcp accepted_peer invoke failed
  accepted-Simulates s d fd remote h rep (gives, good, live, (t, from)) fresh =
      elim (Bool-cases (leb peers_max_count s.peer_count)) [
        | inl full ↦
            let same : accept d fd remote ≡ d = ground (arith, rep.taken) in rw (full, same) rep
        | inr free ↦
            let room : s.peer_count < peers_max_count = ground arith in
            let (p, there) =
              get_elem?_below s.peers s.peer_count (omega (arith, rep.valid.table)) in
            let h₁ : History = Call.accept s.fd ∷ h in
            let passes : failed Check.accept (env.reply (Call.accept s.fd) h).result
                  (env.reply (Call.accept s.fd) h).errno
                ≡ false =
              rw gives good in
            rw
              (
                free,
                check_passes env L Check.accept _ _ h₁ passes,
                from,
                sender_lem env L remote h₁ t,
                add_peer_lem s p _ h₁ there,
              )
              (accepted-Represents s h₁ d fd remote _
                (later-Represents s h h₁ d s.msg_buffer refl rep) gives refl live fresh room)
      ]

  failed-Simulates :
      (s : Socket) (d : Connections) (fd : ℤ) (r : Reply) (h : History)
      → Represents s h d
      → is_nonzero fd ≡ true
      → is_negative r.result ≡ true
      → Simulates (received_tcp env s fd r h) (serve d (Event.failed fd))
  unfolding received_tcp handle_comm_lost_tcp peer_through failed
  failed-Simulates s d fd r h rep live bad = elim (by_fd s h d fd rep live) [
    | inl (unknown, nothing) ↦ rw (bad, unknown, serve, nothing) refl
    | inr (i, p, known, below, there, own, entry) ↦
        rw (serve, entry, received_tcp-failed env s fd r h i p rep.connected bad known there)
          (later-Represents (set_peer s i (removed p)) (reestablished p h) _ _ s.msg_buffer
            (closed-retried p.fd (reestablished p h))
            (closed-Represents s (reestablished p h) (retry d (connection p)) fd i p
              (retry-Represents s h d p rep) live below there own))
  ]

  ended-Simulates :
      (s : Socket) (d : Connections) (fd : ℤ) (h : History)
      → Represents s h d
      → is_nonzero fd ≡ true
      → Simulates (handle_graceful_shutdown_tcp env s fd h) (serve d (ended fd))
  unfolding handle_graceful_shutdown_tcp peer_through
  ended-Simulates s d fd h rep live = elim (by_fd s h d fd rep live) [
    | inl (unknown, nothing) ↦ rw (unknown, serve, nothing) refl
    | inr (i, p, known, below, there, own, entry) ↦
        rw
          (
            serve,
            entry,
            known,
            peer_through_lem s i p h there,
            remove_peer_lem env s i p h rep.connected there,
          )
          (later-Represents (set_peer s i (removed p)) h _ _ s.msg_buffer (closed-retried p.fd h)
            (closed-Represents s h d fd i p rep live below there own))
  ]

  log_paddrs_tcp_lem :
      (fd : ℤ) (remote : IpSocket) (h : History)
      → (env.reply (Call.getpeername fd) h).result ≡ pos 0
      → IsFrom env L remote (env.reply (Call.getpeername fd) h)
      → log_paddrs_tcp env fd h ≡ ok tt (Call.getpeername fd ∷ h)
  unfolding log_paddrs_tcp failed
  log_paddrs_tcp_lem fd remote h named (t, from) =
      rw
        (
          checked_passes env L Check.getsockname (Call.getpeername fd) h (rw named refl),
          from,
          sender_lem env L remote (Call.getpeername fd ∷ h) t,
        )
        refl

  handle_message_tcp-Simulates :
      (e : Event) (s : Socket) (d : Connections) (h : History)
      → Represents s h d
      → Arrives env L s.fd h e
      → IsFresh d e
      → Simulates (handle_message_tcp env s (fd_of s.fd e) h) (serve d e)
  unfolding handle_message_tcp invoke
  handle_message_tcp-Simulates (accepted fd remote) s d h rep a fresh =
      rw ((==ℤ_iff s.fd s.fd).1 refl) (accepted-Simulates s d fd remote h rep a fresh)
  handle_message_tcp-Simulates (Event.failed fd) s d h rep (other, live, bad) fresh = rw other (
      failed-Simulates s d fd _ (Call.recv fd msg_buffer_size ∷ h)
        (later-Represents s h _ d s.msg_buffer refl rep) live bad)
  handle_message_tcp-Simulates (ended fd) s d h rep (other, live, (n, size, short, quiet)) fresh =
      let r = env.reply (Call.recv fd msg_buffer_size) h in
      rw (other, received_tcp-text env L s fd r n _ size short, first_byte-zero n r.bytes _ quiet)
        (ended-Simulates (buffered s r n) d fd _ (later-Represents s h _ d _ refl rep) live)
  handle_message_tcp-Simulates (data_on fd) s d h rep
        (other, (n, size, short), text, named, (remote, from)) fresh =
      let r = env.reply (Call.recv fd msg_buffer_size) h in
      rw
        (
          other,
          received_tcp-text env L s fd r (suc n) (Call.recv fd msg_buffer_size ∷ h) size short,
          first_byte-taken n r.bytes (drop (suc n + 1) s.msg_buffer),
          text,
          log_paddrs_tcp_lem fd remote _ named from,
        )
        (later-Represents s h _ d _ refl rep)

  -- Events that come one after another, from a socket and its connections on.
  abbrev pub AllArrive : List Event → Socket → Connections → History → Type 0
  AllArrive [] s d h = Unit {0}
  AllArrive (e ∷ events) s d h =
      Arrives env L s.fd h e
      × IsFresh d e
      × Reaches Represents (AllArrive events) (handle_message_tcp env s (fd_of s.fd e) h)
          (serve d e)

  -- A TCP socket refines a table of connections: over any run in which a ready descriptor gives a
  -- new connection on a descriptor that no connection has, data that leaves room for its end, the
  -- end of a connection or a failed receive, and inet_pton and inet_ntop translate the remotes, a
  -- socket that represents connections returns exactly where the table meets no error, and then
  -- represents the connections after the run, with the remotes to which a new connection was
  -- scheduled: those of the failed connections that this side made. Where a descriptor that has no
  -- connection ends or fails, the socket goes through a NULL pointer.
  pub react_events-Simulates :
      (events : List Event) (s : Socket) (d : Connections) (h : History)
      → Represents s h d
      → AllArrive events s d h
      → Simulates (react_each env s events h) (serve_each d events)
  unfolding react_each serve_each
  react_events-Simulates [] s d h rep a = rep
  react_events-Simulates (e ∷ events) s d h rep (a, fresh, later) =
      Agrees-along Represents (AllArrive events) (handle_message_tcp env s (fd_of s.fd e) h)
        (serve d e) (λ t. react_each env t events) (λ d'. serve_each d' events)
        (handle_message_tcp-Simulates e s d h rep a fresh) later
        λ t d' h' rep' later'. react_events-Simulates events t d' h' rep' later'
