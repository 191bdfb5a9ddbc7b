-- ===== src/Tcp/Laws.antt =====
-- SocketTcp.c: how connections end, and what is sent.
use sctp_sandbox_c.Base.{
  ℕ, ◌≡◌, refl, true, false, List, [], ◌∷◌, ◌++◌, map, some, get_elem?, ℤ, is_nonzero, is_negative,
  if◌then◌else◌, arith, Bool-cases, inl, inr,
}
use mathlib.Core.List.{reverse, reverse-cons, append_assoc}
use sctp_sandbox_c.Errors.{Check, failed}
use sctp_sandbox_c.Protocol.{is_udp}
use sctp_sandbox_c.Os.{Env, Call, Task, Reply, History, ok, invoke}
use sctp_sandbox_c.Os.Laws.{IsLawful, checked_passes}
use sctp_sandbox_c.Peers.{
  Peer, Socket, set_peer, find_peer_by_fd, peer_through, peer_at, schedule_reestablishment,
}
use sctp_sandbox_c.Peers.Remove.{removed, closed, remove_peer_lem}
use sctp_sandbox_c.Tcp.{handle_comm_lost_tcp, received_tcp, send_each_tcp}

-- A new connection is scheduled for a peer that this side connected to.
abbrev pub reestablished : Peer → History → History
reestablished p h =
    if p.should_reestablish then Call.schedule_task (Task.reestablish p.remote) 5 1 ∷ h else h

-- The descriptors of the peers that are connected.
abbrev pub live_fds : List Peer → List ℤ
live_fds [] = []
live_fds (p ∷ peers) = let rest = live_fds peers in if is_nonzero p.fd then p.fd ∷ rest else rest

module _ (env : Env) where
  -- On a protocol other than UDP and UDP-Lite, a receive that fails on the connection of a peer in
  -- the table gives up its entry and closes its descriptor; a new connection is scheduled exactly
  -- if this side had made the old one.
  pub received_tcp-failed :
      (s : Socket) (fd : ℤ) (r : Reply) (h : History) (i : ℕ) (p : Peer)
      → is_udp s.protocol ≡ false
      → is_negative r.result ≡ true
      → find_peer_by_fd s fd ≡ some i
      → get_elem? s.peers i ≡ some p
      → received_tcp env s fd r h ≡ ok (set_peer s i (removed p)) (closed p.fd (reestablished p h))
  unfolding received_tcp handle_comm_lost_tcp peer_through peer_at schedule_reestablishment invoke
      failed
  received_tcp-failed s fd r h i p stream bad known there =
      rw (bad, received_tcp, known)
        (ground (arith, remove_peer_lem env s i p (reestablished p h) stream there))

  abbrev pub SendsPass : List ℕ → Type 0
  SendsPass msg =
      (fd : ℤ) (h : History) → is_negative (env.reply (Call.send fd msg) h).result ≡ false

  -- Where every send of a message succeeds, each of the peers that has a descriptor is sent it
  -- once, in the order of the table, and nothing else is called.
  pub send_each_tcp-live :
      IsLawful env
      → (msg : List ℕ) (peers : List Peer) (h : History) → SendsPass msg
      → send_each_tcp env msg peers h
        ≡ ok tt (reverse (map (λ fd. Call.send fd msg) (live_fds peers)) ++ h)
  unfolding send_each_tcp failed
  send_each_tcp-live L msg [] h pass = refl
  send_each_tcp-live L msg (p ∷ peers) h pass = elim (Bool-cases (is_nonzero p.fd)) [
    | inl live ↦
        rw (live, checked_passes env L Check.send (Call.send p.fd msg) h (pass p.fd h))
          (rw
            (
              reverse-cons (Call.send p.fd msg) (map (λ fd. Call.send fd msg) (live_fds peers)),
              append_assoc,
            )
            (send_each_tcp-live L msg peers (Call.send p.fd msg ∷ h) pass))
    | inr gone ↦ rw gone (send_each_tcp-live L msg peers h pass)
  ]
