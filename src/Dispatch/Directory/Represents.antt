-- ===== src/Dispatch/Directory/Represents.antt =====
-- SocketUdp.c: what it is for a socket to represent a directory, and how meeting and removing a peer
-- change both.
use sctp_sandbox_c.Base.{
  ℕ, suc, ◌+◌, ◌-◌, ◌<◌, ◌≡◌, refl, ◌∙◌, true, false, List, some, get_elem?, length-set, arith,
}
use sctp_sandbox_c.Protocol.{is_udp}
use sctp_sandbox_c.Os.{Env, IpSocket}
use sctp_sandbox_c.Os.Laws.{IsLawful}
use sctp_sandbox_c.Peers.{Peer, Socket, peers_max_count, set_peer}
use sctp_sandbox_c.Peers.Table.{IsValid}
use sctp_sandbox_c.Peers.Matching.{matching, matching-set, matching-add}
use sctp_sandbox_c.Peers.Remove.{removed, without_tasks}
use sctp_sandbox_c.Udp.{has_remote}
use sctp_sandbox_c.Dispatch.Directory.{Directory, same_remote, changed_at, meet}

module _ (env : Env) where
  pub record Represents (s : Socket) (d : Directory) : Type 0 where
    pub valid : IsValid s
    pub datagrams : is_udp s.protocol ≡ true
    pub taken : d.taken ≡ s.peer_count
    pub entries :
        (q : IpSocket) → 0 < q.port → d.entries q ≡ matching (has_remote env q) s.peer_count s.peers

  module _ (L : IsLawful env) where
    -- The entry of a remote passes another remote's test exactly if the remotes are the same.
    has_remote-same :
        (r q : IpSocket) (p : Peer)
        → has_remote env r p ≡ true
        → has_remote env q p ≡ same_remote env r q
    has_remote-same r q p t =
        let addr : p.remote.addr ≡ r.addr = (L.equals_iff p.remote.addr r.addr).0 (ground arith) in
        let port : p.remote.port ≡ r.port = ground arith in rw (addr, port) refl

    -- The same remotes have as many entries.
    matching-same :
        (r q : IpSocket) (count : ℕ) (peers : List Peer)
        → same_remote env r q ≡ true
        → matching (has_remote env r) count peers ≡ matching (has_remote env q) count peers
    matching-same r q count peers t =
        let addr : r.addr ≡ q.addr = (L.equals_iff r.addr q.addr).0 (ground arith) in
        let port : r.port ≡ q.port = ground arith in rw (addr, port) refl

    pub met-Represents :
        (s : Socket) (d : Directory) (r : IpSocket) (p : Peer)
        → Represents s d
        → 0 < r.port
        → p.remote ≡ r
        → s.peer_count < peers_max_count
        → Represents
            (record (set_peer s s.peer_count p) { peer_count = s.peer_count + 1 })
            (meet env d r)
    met-Represents s d r p rep usable own room = record {
      valid = record {
        table = length-set s.peers s.peer_count p ∙ rep.valid.table;
        count = omega arith;
      };
      datagrams = rep.datagrams;
      taken = ground (arith, rep.taken);
      entries = λ q h.
          let own_test : has_remote env q p ≡ same_remote env r q = rw own refl in
          let next : s.peer_count + 1 ≡ suc s.peer_count = omega arith in
          rw next (
            ground (
              arith,
              rep.taken,
              own_test,
              rep.entries q h,
              rep.entries r usable,
              matching-add (has_remote env q) s.peer_count s.peers p,
              matching-same r q s.peer_count s.peers,
              rep.valid.table,
            ));
    }

    pub dropped-Represents :
        (s : Socket) (d : Directory) (r : IpSocket) (i : ℕ) (p : Peer)
        → Represents s d
        → 0 < r.port
        → i < s.peer_count
        → get_elem? s.peers i ≡ some p
        → has_remote env r p ≡ true
        → Represents
            (set_peer s i (removed (without_tasks p)))
            (record d { entries = changed_at env d.entries r (d.entries r - 1) })
    dropped-Represents s d r i p rep usable below there own = record {
      valid = record {
        table = length-set s.peers i (removed (without_tasks p)) ∙ rep.valid.table;
        count = rep.valid.count;
      };
      datagrams = rep.datagrams;
      taken = rep.taken;
      entries = λ q h.
          let gone : Peer = removed (without_tasks p) in
          let not_there : has_remote env q gone ≡ false = ground arith in
          ground (
            arith,
            not_there,
            has_remote-same r q p own,
            rep.entries q h,
            rep.entries r usable,
            matching-set (has_remote env q) s.peer_count s.peers i p gone,
            matching-same r q s.peer_count s.peers,
          );
    }
