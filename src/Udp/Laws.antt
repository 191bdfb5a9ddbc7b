-- ===== src/Udp/Laws.antt =====
-- SocketUdp.c: what a message does, by what it says and by whether its sender is known.
use sctp_sandbox_c.Base.{
  ℕ, ◌+◌, ◌<◌, ◌≡◌, refl, true, List, [], ◌∷◌, some, get_elem?, length, get_elem?_below, length-set,
  ◌∙◌, Bool-cases, inl, inr, arith, min, leb, get_elem?-set_self, get_elem?-set_ne,
}
use sctp_sandbox_c.Protocol.{is_udp}
use sctp_sandbox_c.Os.{Env, Call, Task, IpSocket, History, ok, ◌>>=◌, invoke}
use sctp_sandbox_c.IpSocket.{IpSockets, listed}
use sctp_sandbox_c.Peers.{
  Peer, Socket, peers_max_count, add_peer, peer_at, set_peer, schedule_reestablishment,
}
use sctp_sandbox_c.Peers.Table.{IsValid}
use sctp_sandbox_c.Peers.Remove.{removed, without_tasks, disabled, closed, remove_peer_udp_lem}
use sctp_sandbox_c.Udp.{
  schedule_ping, find_peer_by_remote, handle_comm_lost_udp, schedule_comm_lost, met_peer,
  handle_comm_up_udp, reset_tasks, refresh_peer, connect_each_udp, connect_socket_udp,
}

module _ (env : Env) where
  pub refresh_peer-known :
      (s : Socket) (remote : IpSocket) (h : History) (i : ℕ) (p : Peer)
      → find_peer_by_remote env s remote ≡ some i
      → get_elem? s.peers i ≡ some p
      → refresh_peer env s remote h
        ≡ ok s (Call.reset_task p.comm_lost_task ∷ Call.reset_task p.ping_task ∷ h)
  unfolding refresh_peer reset_tasks peer_at invoke
  refresh_peer-known s remote h i p known there = rw (known, refresh_peer) (ground arith)

  abbrev pub ping_call : IpSocket → Call
  ping_call remote = Call.schedule_task (Task.ping remote) 1 3

  abbrev pub comm_lost_call : IpSocket → Call
  comm_lost_call remote = Call.schedule_task (Task.comm_lost remote) 4 1

  -- The entry of a peer that is met: its address, and its two timers.
  abbrev pub met : IpSocket → History → Peer → Peer
  met remote h p = record p {
    remote = remote;
    ping_task = (env.reply (ping_call remote) h).task;
    comm_lost_task = (env.reply (comm_lost_call remote) (ping_call remote ∷ h)).task;
  }

  -- Where the table has room, a new UDP peer takes the next entry, with its address and its two
  -- tasks; three pings, a second apart, and the loss after four seconds are scheduled.
  pub handle_comm_up_udp_lem :
      (s : Socket) (remote : IpSocket) (h : History) (p : Peer)
      → s.peer_count < peers_max_count
      → get_elem? s.peers s.peer_count ≡ some p
      → handle_comm_up_udp env s remote h
        ≡ ok
            (record (set_peer s s.peer_count (met remote h p)) { peer_count = s.peer_count + 1 })
            (comm_lost_call remote ∷ ping_call remote ∷ h)
  unfolding handle_comm_up_udp schedule_ping schedule_comm_lost met_peer add_peer invoke
  handle_comm_up_udp_lem s remote h p room there = ground arith

  -- A UDP peer that is lost and then reestablished does not get its entry back: with the table in
  -- shape and with room, both steps return, the old entry stays without a port, and the count is
  -- one higher.
  pub lost-reestablish :
      (s : Socket) (remote : IpSocket) (h : History) (i : ℕ)
      → is_udp s.protocol ≡ true
      → IsValid s
      → s.peer_count < peers_max_count
      → find_peer_by_remote env s remote ≡ some i
      → i < s.peer_count
      → (t : Socket) × (h' : History) × (p : Peer) × ((handle_comm_lost_udp env s remote >>= λ u.
              handle_comm_up_udp env u remote)
            h
          ≡ ok t h')
        × (t.peer_count ≡ s.peer_count + 1)
        × (get_elem? t.peers i ≡ some p)
        × (p.remote.port ≡ 0)
  unfolding handle_comm_lost_udp schedule_reestablishment invoke
  lost-reestablish s remote h i datagram v room known low =
      let (p, there) = get_elem?_below s.peers i (omega (arith, v.table)) in
      let gone : Peer = removed (without_tasks p) in
      let u : Socket = set_peer s i gone in
      let h₁ : History = closed p.fd (
        disabled p.comm_lost_task
          (disabled p.ping_task (Call.schedule_task (Task.reestablish remote) 5 1 ∷ h))) in
      let (q, next) =
        get_elem?_below u.peers u.peer_count (omega (arith, v.table, length-set s.peers i gone)) in
      (
        record (set_peer u u.peer_count (met remote h₁ q)) { peer_count = s.peer_count + 1 },
        comm_lost_call remote ∷ ping_call remote ∷ h₁,
        gone,
        rw
            (
              known,
              remove_peer_udp_lem env s i p (Call.schedule_task (Task.reestablish remote) 5 1 ∷ h)
                  datagram there,
            )
            (handle_comm_up_udp_lem u remote h₁ q room next),
        refl,
        get_elem?-set_ne u.peers u.peer_count i (met remote h₁ q) (λ e. absurd (omega arith))
            ∙ get_elem?-set_self s.peers i gone (omega (arith, v.table)),
        refl,
      )

  pub handle_comm_up_udp-full :
      (s : Socket) (remote : IpSocket) (h : History)
      → leb peers_max_count s.peer_count ≡ true
      → handle_comm_up_udp env s remote h ≡ ok s h
  unfolding handle_comm_up_udp
  handle_comm_up_udp-full s remote h full = rw (full, handle_comm_up_udp)

  added-IsValid :
      (s : Socket) (p : Peer)
      → IsValid s
      → s.peer_count < peers_max_count
      → IsValid (record (set_peer s s.peer_count p) { peer_count = s.peer_count + 1 })
  added-IsValid s p v room = record {
    table = length-set s.peers s.peer_count p ∙ v.table;
    count = omega arith;
  }

  connect_each_udp-count :
      (s : Socket) (remotes : List IpSocket) (h : History)
      → IsValid s
      → (t : Socket) × (h' : History) × (connect_each_udp env s remotes h ≡ ok t h')
        × (t.peer_count ≡ min peers_max_count (s.peer_count + length remotes))
  unfolding connect_each_udp
  connect_each_udp-count s [] h v = (s, h, refl, omega (arith, v.count))
  connect_each_udp-count s (remote ∷ rest) h v =
      elim (Bool-cases (leb peers_max_count s.peer_count)) [
        | inl full ↦
            let (t, h', e, n) = connect_each_udp-count s rest h v in
            (t, h', rw (handle_comm_up_udp-full s remote h full) e, ground (arith, v.count))
        | inr free ↦
            let room : s.peer_count < peers_max_count = ground arith in
            let (p, there) = get_elem?_below s.peers s.peer_count (omega (arith, v.table)) in
            let (t, h', e, n) =
              connect_each_udp-count
                (record (set_peer s s.peer_count (met remote h p)) {
                  peer_count = s.peer_count + 1;
                })
                rest (comm_lost_call remote ∷ ping_call remote ∷ h)
                (added-IsValid s (met remote h p) v room) in
            (t, h', rw (handle_comm_up_udp_lem s remote h p room there) e, omega arith)
      ]

  -- With the table in shape, connecting to remotes on UDP returns, and adds a peer for each remote
  -- until the table is full.
  pub connect_socket_udp-count :
      (s : Socket) (remotes : IpSockets) (h : History)
      → IsValid s
      → (t : Socket) × (h' : History) × (connect_socket_udp env s remotes h ≡ ok t h')
        × (t.peer_count ≡ min peers_max_count (s.peer_count + length (listed remotes)))
  unfolding connect_socket_udp
  connect_socket_udp-count s remotes h v = connect_each_udp-count s (listed remotes) h v
