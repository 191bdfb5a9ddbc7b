-- ===== src/Tcp/Connections/Changes.antt =====
-- SocketTcp.c: how a connection that is accepted or ends changes the table and the connections.
use sctp_sandbox_c.Base.{
  ℕ, suc, ◌+◌, ◌<◌, ◌≤◌, ◌≡◌, refl, ◌∙◌, true, false, Option, none, some, get_elem?, set, length,
  sym, length-set, arith, ℤ, pos, is_nonzero, ◌==ℤ◌, ==ℤ_iff, Bool-cases, inl, inr, ltb,
}
use sctp_sandbox_c.Os.{History, IpSocket}
use sctp_sandbox_c.Peers.{Peer, Socket, peers_max_count, set_peer}
use sctp_sandbox_c.Peers.Matching.{matching, matching-set, matching-add}
use sctp_sandbox_c.Peers.Found.{
  found, found-none, none-matching, found-set, found-add_first, found-add_other,
}
use sctp_sandbox_c.Peers.Remove.{removed}
use sctp_sandbox_c.Tcp.Connections.{Connections, accept, close, changed_at}
use sctp_sandbox_c.Tcp.Connections.Represents.{Represents, connection, connection_of, has_fd}

closed_fd : (fd : ℤ) → is_nonzero fd ≡ true → (pos 0 ==ℤ fd) ≡ false
closed_fd fd live = ground arith

connection_of-none : (o : Option Peer) → connection_of o ≡ none → o ≡ none
connection_of-none none e = refl
connection_of-none (some p) e = cc

-- A descriptor with no connection has no entry.
absent :
    (s : Socket) (h : History) (d : Connections) (fd : ℤ)
    → Represents s h d
    → is_nonzero fd ≡ true
    → d.at_fd fd ≡ none
    → found (has_fd fd) s.peer_count s.peers ≡ none
absent s h d fd rep live none_there = connection_of-none _ (sym (rep.at_fd fd live) ∙ none_there)

-- The entries of a table to which one is added.
module _ (s : Socket) (h : History) (d : Connections) (fd : ℤ) (p : Peer) (rep : Represents s h d)
    (own : p.fd ≡ fd) (live : is_nonzero fd ≡ true) (fresh : d.at_fd fd ≡ none)
    (room : s.peer_count < peers_max_count) where
  added-found :
      (b : ℤ)
      → is_nonzero b ≡ true
      → connection_of (found (has_fd b) (suc s.peer_count) (set s.peers s.peer_count p))
        ≡ changed_at d.at_fd fd (some (connection p)) b
  added-found b l =
      let free : s.peer_count < length s.peers = omega (arith, rep.valid.table) in
      elim (Bool-cases (fd ==ℤ b)) [
        | inl same ↦
            let passes : has_fd b p ≡ true = rw own same in
            let nothing : found (has_fd b) s.peer_count s.peers ≡ none =
              rw ((==ℤ_iff fd b).0 same) at (absent s h d fd rep live fresh) in
            rw (same, found-add_first (has_fd b) s.peer_count s.peers p free passes nothing) refl
        | inr other ↦
            let passed : has_fd b p ≡ false = rw own other in
            rw (other, found-add_other (has_fd b) s.peer_count s.peers p free passed)
              (sym (rep.at_fd b l))
      ]

  added-matching :
      (b : ℤ)
      → is_nonzero b ≡ true
      → matching (has_fd b) (suc s.peer_count) (set s.peers s.peer_count p) ≤ 1
  added-matching b l =
      let added = matching-add (has_fd b) s.peer_count s.peers p (omega (arith, rep.valid.table)) in
      elim (Bool-cases (fd ==ℤ b)) [
        | inl same ↦
            let there : b ≡ fd = ground arith in
            let nothing =
              none-matching (has_fd fd) s.peer_count s.peers (absent s h d fd rep live fresh) in
            ground (arith, added, there, nothing, own)
        | inr other ↦ ground (arith, added, own, other, rep.distinct b l)
      ]

pub accepted-Represents :
    (s : Socket) (h : History) (d : Connections) (fd : ℤ) (remote : IpSocket) (p : Peer)
    → Represents s h d
    → p.fd ≡ fd
    → connection p ≡ record { remote = remote; made_here = false }
    → is_nonzero fd ≡ true
    → d.at_fd fd ≡ none
    → s.peer_count < peers_max_count
    → Represents
        (record (set_peer s s.peer_count p) { peer_count = s.peer_count + 1 })
        h
        (accept d fd remote)
accepted-Represents s h d fd remote p rep own new live fresh room = record {
  valid = record {
    table = length-set s.peers s.peer_count p ∙ rep.valid.table;
    count = omega arith;
  };
  connected = rep.connected;
  taken = ground (arith, rep.taken);
  at_fd = λ b l.
      let next : s.peer_count + 1 ≡ suc s.peer_count = omega arith in
      let free : ltb d.taken peers_max_count ≡ true = ground (arith, rep.taken) in
      rw (next, added-found s h d fd p rep own live fresh room b l, free, new) refl;
  distinct = λ b l.
      let next : s.peer_count + 1 ≡ suc s.peer_count = omega arith in
      rw next (added-matching s h d fd p rep own live fresh room b l);
  retries = ground (arith, rep.taken, rep.retries);
}

pub closed-Represents :
    (s : Socket) (h : History) (d : Connections) (fd : ℤ) (i : ℕ) (p : Peer)
    → Represents s h d
    → is_nonzero fd ≡ true
    → i < s.peer_count
    → get_elem? s.peers i ≡ some p
    → has_fd fd p ≡ true
    → Represents (set_peer s i (removed p)) h (close d fd)
closed-Represents s h d fd i p rep live below there own = record {
  valid = record {
    table = length-set s.peers i (removed p) ∙ rep.valid.table;
    count = rep.valid.count;
  };
  connected = rep.connected;
  taken = rep.taken;
  at_fd = λ b l. elim (Bool-cases (fd ==ℤ b)) [
    | inl same ↦
        let here : b ≡ fd = ground arith in
        let nothing = found-none (has_fd b) s.peer_count (set s.peers i (removed p)) (
          ground (
            arith,
            here,
            own,
            closed_fd b l,
            rep.distinct b l,
            matching-set (has_fd b) s.peer_count s.peers i p (removed p),
          )) in
        rw (same, nothing) refl
    | inr other ↦
        let passed : has_fd b p ≡ false = ground arith in
        rw
          (
            other,
            found-set (has_fd b) s.peer_count s.peers i p (removed p) there passed (closed_fd b l),
          )
          (rep.at_fd b l)
  ];
  distinct = λ b l. ground (
    arith,
    closed_fd b l,
    rep.distinct b l,
    matching-set (has_fd b) s.peer_count s.peers i p (removed p),
  );
  retries = rep.retries;
}
