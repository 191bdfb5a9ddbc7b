-- ===== src/UnixSocket/Paths/Represents.antt =====
-- SocketUnix.c: what it is for a socket to represent paths, and how a path that is met or dropped
-- changes both.
use sctp_sandbox_c.Base.{
  ℕ, suc, ◌+◌, ◌-◌, ◌<◌, ◌≡◌, refl, ◌∙◌, true, false, List, [], some, get_elem?, length, length-set,
  arith, Bool-cases, inl, inr, ap, ltb,
}
use sctp_sandbox_c.Protocol.{is_udp}
use sctp_sandbox_c.Os.{Env, History}
use sctp_sandbox_c.Os.Laws.{IsLawful}
use sctp_sandbox_c.Peers.{Peer, Socket, peers_max_count, set_peer}
use sctp_sandbox_c.Peers.Table.{IsValid}
use sctp_sandbox_c.Peers.Matching.{matching, matching-set, matching-add}
use sctp_sandbox_c.Peers.Remove.{removed}
use sctp_sandbox_c.UnixSocket.{has_path}
use sctp_sandbox_c.UnixSocket.Paths.{Paths, changed_at, meet}

module _ (env : Env) where
  pub record Represents (s : Socket) (h : History) (d : Paths) : Type 0 where
    pub valid : IsValid s
    pub connected : is_udp s.protocol ≡ false
    pub taken : d.taken ≡ s.peer_count
    pub entries :
        (path : List ℕ)
        → 0 < length path
        → d.entries path ≡ matching (has_path env path) s.peer_count s.peers

  -- Neither the calls nor the text of a message count.
  pub later-Represents :
      (s : Socket) (h h' : History) (d : Paths) (buffer : List ℕ)
      → Represents s h d
      → Represents (record s { msg_buffer = buffer }) h' d
  later-Represents s h h' d buffer rep = record {
    valid = record { table = rep.valid.table; count = rep.valid.count };
    connected = rep.connected;
    taken = rep.taken;
    entries = rep.entries;
  }

  module _ (L : IsLawful env) where
    -- A removed entry has no path.
    pub cleared : (path : List ℕ) → 0 < length path → env.equals [] path ≡ false
    cleared path some_text = elim (Bool-cases (env.equals [] path)) [
      | inl e ↦ absurd (omega (arith, ap length ((L.equals_iff [] path).0 e)))
      | inr e ↦ e
    ]

    pub met-Represents :
        (s : Socket) (h : History) (d : Paths) (path : List ℕ) (p : Peer)
        → Represents s h d
        → p.path ≡ path
        → s.peer_count < peers_max_count
        → Represents
            (record (set_peer s s.peer_count p) { peer_count = s.peer_count + 1 })
            h
            (meet env d path)
    met-Represents s h d path p rep own room = record {
      valid = record {
        table = length-set s.peers s.peer_count p ∙ rep.valid.table;
        count = omega arith;
      };
      connected = rep.connected;
      taken = ground (arith, rep.taken);
      entries = λ q l.
          let next : s.peer_count + 1 ≡ suc s.peer_count = omega arith in
          let free : ltb d.taken peers_max_count ≡ true = ground (arith, rep.taken) in
          let passes : has_path env q p ≡ env.equals path q = rw own refl in
          rw (next, free)
            (elim (Bool-cases (env.equals path q)) [
              | inl same ↦
                  let here : path ≡ q = (L.equals_iff path q).0 same in
                  rw same (
                    ground (
                      arith,
                      passes,
                      same,
                      here,
                      rep.entries q l,
                      matching-add (has_path env q) s.peer_count s.peers p,
                      rep.valid.table,
                    ))
              | inr other ↦ rw other (
                  ground (
                    arith,
                    passes,
                    other,
                    rep.entries q l,
                    matching-add (has_path env q) s.peer_count s.peers p,
                    rep.valid.table,
                  ))
            ]);
    }

    pub dropped-Represents :
        (s : Socket) (h h' : History) (d : Paths) (path : List ℕ) (i : ℕ) (p : Peer)
        → Represents s h d
        → i < s.peer_count
        → get_elem? s.peers i ≡ some p
        → has_path env path p ≡ true
        → Represents
            (set_peer s i (removed p))
            h'
            (record d { entries = changed_at env d.entries path (d.entries path - 1) })
    dropped-Represents s h h' d path i p rep below there own = record {
      valid = record {
        table = length-set s.peers i (removed p) ∙ rep.valid.table;
        count = rep.valid.count;
      };
      connected = rep.connected;
      taken = rep.taken;
      entries = λ q l.
          let its : p.path ≡ path = (L.equals_iff p.path path).0 own in
          let passes : has_path env q p ≡ env.equals path q = rw its refl in
          let count =
            matching-set (has_path env q) s.peer_count s.peers i p (removed p) below there in
          elim (Bool-cases (env.equals path q)) [
            | inl same ↦
                let here : path ≡ q = (L.equals_iff path q).0 same in
                rw same (ground (arith, passes, same, here, cleared q l, rep.entries q l, count))
            | inr other ↦
                rw other (ground (arith, passes, other, cleared q l, rep.entries q l, count))
          ];
    }
