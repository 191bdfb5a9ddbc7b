-- ===== src/Dispatch/Directory/Simulates.antt =====
-- SocketUdp.c: when a run of a UDP socket agrees with its directory; a remote that is met, dropped or
-- heard from.
use sctp_sandbox_c.Base.{
  ℕ, ◌+◌, ◌<◌, ◌≡◌, refl, true, false, List, [], ◌∷◌, Option, ℤ, pos, ltb, leb, is_negative, length,
  get_elem?_below, Bool-cases, inl, inr, arith, if◌then◌else◌,
}
use sctp_sandbox_c.Os.{Env, IpSocket, Call, Sockaddr, History, Outcome, ok}
use sctp_sandbox_c.Os.Laws.{IsLawful}
use sctp_sandbox_c.Peers.{Socket, peers_max_count, msg_buffer_size, set_peer, remove_peer}
use sctp_sandbox_c.Peers.Agrees.{Agrees}
use sctp_sandbox_c.Peers.Matching.{by_entry}
use sctp_sandbox_c.Peers.Message.{IsText}
use sctp_sandbox_c.Peers.Remove.{remove_peer_udp_lem, remove_peer_null}
use sctp_sandbox_c.Udp.{has_remote, find_peer_by_remote, handle_comm_up_udp, refresh_peer}
use sctp_sandbox_c.Udp.Laws.{
  met, handle_comm_up_udp_lem, handle_comm_up_udp-full, refresh_peer-known,
}
use sctp_sandbox_c.Dispatch.Directory.{Directory, Event, datagram, connection, loss, meet, drop_one}
use sctp_sandbox_c.Dispatch.Directory.Represents.{Represents, met-Represents, dropped-Represents}

module _ (env : Env) where
  -- Every datagram is sent.
  abbrev pub SendsPass : Type 0
  SendsPass =
      (fd : ℤ) (msg : List ℕ) (a : Sockaddr) (h : History)
      → is_negative (env.reply (Call.sendto fd msg a) h).result ≡ false

  -- A datagram of nonzero bytes that leaves room for its end, from a port and an address that inet_pton
  -- reads; or a remote with a port.
  abbrev pub IsUsable : Event → Type 0
  IsUsable (datagram r sender) =
      (r.result ≡ pos (length r.bytes))
      × (length r.bytes < msg_buffer_size)
      × IsText r.bytes
      × (0 < sender.port)
      × ((env.pton sender.family sender.addr).0 ≡ pos 1)
  IsUsable (connection remote) = 0 < remote.port
  IsUsable (loss remote) = 0 < remote.port

  abbrev pub AreUsable : List Event → Type 0
  AreUsable [] = Unit {0}
  AreUsable (e ∷ events) = IsUsable e × AreUsable events

  -- A run ends in a socket that represents the directory, or goes through a NULL pointer where the
  -- directory has an error.
  abbrev pub Simulates : Outcome Socket → Option Directory → Type 0
  Simulates = Agrees λ s h d. Represents env s d

  module _ (L : IsLawful env) where
    pub comm_up-Represents :
        (s : Socket) (d : Directory) (r : IpSocket) (h : History)
        → Represents env s d
        → 0 < r.port
        → (t : Socket) × (h' : History) × (handle_comm_up_udp env s r h ≡ ok t h')
          × Represents env t (meet env d r)
    comm_up-Represents s d r h rep usable = elim (Bool-cases (leb peers_max_count s.peer_count)) [
      | inl full ↦
          let same : meet env d r ≡ d = ground (arith, rep.taken) in
          (s, h, handle_comm_up_udp-full env s r h full, rw same rep)
      | inr free ↦
          let room : s.peer_count < peers_max_count = ground arith in
          let (p, there) = get_elem?_below s.peers s.peer_count (omega (arith, rep.valid.table)) in
          (
            record (set_peer s s.peer_count (met env r h p)) { peer_count = s.peer_count + 1 },
            _,
            handle_comm_up_udp_lem env s r h p room there,
            met-Represents env L s d r (met env r h p) rep usable refl room,
          )
    ]

    pub drop-Simulates :
        (s : Socket) (d : Directory) (r : IpSocket) (h : History)
        → Represents env s d
        → 0 < r.port
        → Simulates (remove_peer env s (find_peer_by_remote env s r) h) (drop_one env d r)
    unfolding find_peer_by_remote
    drop-Simulates s d r h rep usable = elim (by_entry (has_remote env r) s) [
      | inl (unknown, nothing) ↦
          let zero_entries : ltb 0 (d.entries r) ≡ false = ground (arith, rep.entries r usable) in
          rw (unknown, zero_entries, remove_peer_null env s h) refl
      | inr (i, p, known, below, there, own, matched) ↦
          let entry : ltb 0 (d.entries r) ≡ true = ground (arith, rep.entries r usable) in
          rw (known, entry, remove_peer_udp_lem env s i p h rep.datagrams there)
            (dropped-Represents env L s d r i p rep usable below there own)
    ]

    pub refresh-Represents :
        (s : Socket) (d : Directory) (r : IpSocket) (h : History)
        → Represents env s d
        → 0 < r.port
        → (t : Socket) × (h' : History) × (refresh_peer env s r h ≡ ok t h')
          × Represents env t (if ltb 0 (d.entries r) then d else meet env d r)
    unfolding refresh_peer find_peer_by_remote
    refresh-Represents s d r h rep usable = elim (by_entry (has_remote env r) s) [
      | inl (unknown, nothing) ↦
          let zero_entries : ltb 0 (d.entries r) ≡ false = ground (arith, rep.entries r usable) in
          let (t, h', e, rep') = comm_up-Represents s d r h rep usable in
          (t, h', rw (unknown, refresh_peer) e, rw zero_entries rep')
      | inr (i, p, known, below, there, own, matched) ↦
          let entry : ltb 0 (d.entries r) ≡ true = ground (arith, rep.entries r usable) in
          (s, _, refresh_peer-known env s r h i p known there, rw entry rep)
    ]
