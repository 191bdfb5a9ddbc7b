-- ===== src/Sctp/Associations/Represents.antt =====
-- SocketSctp.c: what it is for a socket and its calls to represent associations, and how an association
-- that comes up or ends changes both.
use sctp_sandbox_c.Base.{
  ℕ, suc, ◌+◌, ◌-◌, ◌<◌, ◌≡◌, refl, ◌∙◌, true, false, Bool, List, ◌∷◌, some, get_elem?, length-set,
  arith, ◌==◌,
}
use sctp_sandbox_c.Protocol.{is_udp}
use sctp_sandbox_c.Os.{Call, Task, History, IpSocket}
use sctp_sandbox_c.Peers.{Peer, Socket, peers_max_count, set_peer}
use sctp_sandbox_c.Peers.Table.{IsValid}
use sctp_sandbox_c.Peers.Matching.{matching, matching-set, matching-add}
use sctp_sandbox_c.Peers.Remove.{removed}
use sctp_sandbox_c.Peers.Retries.{retried}
use sctp_sandbox_c.Sctp.Associations.{Associations, changed_at, establish, retry}

abbrev pub has_assoc : ℕ → Peer → Bool
has_assoc a p = p.assoc_id == a

pub record Represents (s : Socket) (h : History) (d : Associations) : Type 0 where
  pub valid : IsValid s
  pub connected : is_udp s.protocol ≡ false
  pub taken : d.taken ≡ s.peer_count
  pub entries : (a : ℕ) → 0 < a → d.entries a ≡ matching (has_assoc a) s.peer_count s.peers
  pub retries : d.retries ≡ retried h

-- Only these calls count.
pub later-Represents :
    (s : Socket) (h h' : History) (d : Associations)
    → retried h' ≡ retried h
    → Represents s h d
    → Represents s h' d
later-Represents s h h' d same rep = record {
  valid = rep.valid;
  connected = rep.connected;
  taken = rep.taken;
  entries = rep.entries;
  retries = rw same rep.retries;
}

pub retry-Represents :
    (s : Socket) (h : History) (d : Associations) (remote : IpSocket)
    → Represents s h d
    → Represents s (Call.schedule_task (Task.reestablish remote) 5 1 ∷ h) (retry d remote)
retry-Represents s h d remote rep = record {
  valid = rep.valid;
  connected = rep.connected;
  taken = rep.taken;
  entries = rep.entries;
  retries = rw rep.retries refl;
}

-- The text of a message does not count.
pub buffered-Represents :
    (s : Socket) (h : History) (d : Associations) (buffer : List ℕ)
    → Represents s h d
    → Represents (record s { msg_buffer = buffer }) h d
buffered-Represents s h d buffer rep = record {
  valid = record { table = rep.valid.table; count = rep.valid.count };
  connected = rep.connected;
  taken = rep.taken;
  entries = rep.entries;
  retries = rep.retries;
}

pub peeled-Represents :
    (s : Socket) (h : History) (d : Associations) (a : ℕ) (p : Peer)
    → Represents s h d
    → p.assoc_id ≡ a
    → s.peer_count < peers_max_count
    → Represents
        (record (set_peer s s.peer_count p) { peer_count = s.peer_count + 1 })
        h
        (establish d a)
peeled-Represents s h d a p rep own room = record {
  valid = record {
    table = length-set s.peers s.peer_count p ∙ rep.valid.table;
    count = omega arith;
  };
  connected = rep.connected;
  taken = ground (arith, rep.taken);
  entries = λ b l.
      let next : s.peer_count + 1 ≡ suc s.peer_count = omega arith in
      rw next (
        ground (
          arith,
          rep.taken,
          own,
          rep.entries b l,
          matching-add (has_assoc b) s.peer_count s.peers p,
          rep.valid.table,
        ));
  retries = ground (arith, rep.taken, rep.retries);
}

pub ended-Represents :
    (s : Socket) (h : History) (d : Associations) (a i : ℕ) (p : Peer)
    → Represents s h d
    → 0 < a
    → i < s.peer_count
    → get_elem? s.peers i ≡ some p
    → has_assoc a p ≡ true
    → Represents
        (set_peer s i (removed p))
        h
        (record d { entries = changed_at d.entries a (d.entries a - 1) })
ended-Represents s h d a i p rep positive below there own = record {
  valid = record {
    table = length-set s.peers i (removed p) ∙ rep.valid.table;
    count = rep.valid.count;
  };
  connected = rep.connected;
  taken = rep.taken;
  entries = λ b l. ground (
    arith,
    own,
    rep.entries b l,
    matching-set (has_assoc b) s.peer_count s.peers i p (removed p),
  );
  retries = rep.retries;
}
