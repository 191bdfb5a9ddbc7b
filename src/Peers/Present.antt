-- ===== src/Peers/Present.antt =====
-- Which descriptors have an entry in the table: what the stream protocols' handlers rely on when they
-- look a descriptor up and go through the pointer unchecked.
use sctp_sandbox_c.Base.{
  ℕ, ◌<◌, ◌≡◌, ◌≢◌, refl, ◌∙◌, true, false, Option, none, some, ℤ, pos, negsuc, ◌==ℤ◌, ==ℤ_iff,
  get_elem?, get_elem?-set_ne, is_nonzero, ltb, arith,
}
use sctp_sandbox_c.Protocol.{is_udp}
use sctp_sandbox_c.Os.{Env, Reply, IpSocket, Fault, fault, M, History}
use sctp_sandbox_c.Os.Ensures.{
  Ensures, Any, Ensures-pure, Ensures-fails, Ensures-bind, Ensures-if, Ensures-invoke,
}
use sctp_sandbox_c.Peers.{
  Peer, Socket, set_peer, peer_at, peer_through, add_peer, find_peer_by_fd, disable_if_set,
  msg_buffer_size, disable_tasks, close_fd, remove_peer, schedule_reestablishment,
  terminate_message,
}
use sctp_sandbox_c.Peers.Find.{Finds, find_peer-Finds}

-- No run may go through a NULL pointer to a peer.
abbrev pub NotNull : Fault → Type 0
NotNull x = x ≢ Fault.null_peer

pub unset-NotNull : NotNull Fault.uninitialised
unset-NotNull e = cc

pub Ensures-never :
    {A : Type 0} {P : A → Type 0} (m : M A)
    → Ensures NotNull P m
    → (h : History) → m h ≢ fault Fault.null_peer
Ensures-never m e h eq = let bad : NotNull Fault.null_peer = rw eq at (e.holds h) in bad refl

-- Some entry below the count has the descriptor.
abbrev pub Present : Socket → ℤ → Type 0
Present s fd =
    (j : ℕ) × (p : Peer) × (j < s.peer_count) × (get_elem? s.peers j ≡ some p) × (p.fd ≡ fd)

-- The index and the entry that the search gives.
abbrev pub Found : Socket → ℤ → Type 0
Found s fd =
    (i : ℕ) × (p : Peer) × (find_peer_by_fd s fd ≡ some i)
    × (get_elem? s.peers i ≡ some p)
    × (p.fd ≡ fd)

by-Found :
    (s : Socket) (fd : ℤ) (o : Option ℕ)
    → find_peer_by_fd s fd ≡ o
    → Finds (λ p. p.fd ==ℤ fd) s.peer_count s.peers o
    → Present s fd
    → Found s fd
by-Found s fd none e f (j, p, below, there, same) =
    let miss : (p.fd ==ℤ fd) ≡ false = f j p below there in
    let hit : (p.fd ==ℤ fd) ≡ true = (==ℤ_iff p.fd fd).1 same in absurd (ground arith)
by-Found s fd (some i) e (below, (p, at, hit), first) present =
    (i, p, e, at, (==ℤ_iff p.fd fd).0 hit)

pub Present-Found : (s : Socket) (fd : ℤ) → Present s fd → Found s fd
unfolding find_peer_by_fd
Present-Found s fd present =
    by-Found s fd _ refl (find_peer-Finds (λ p. p.fd ==ℤ fd) s.peer_count s.peers) present

-- After a message on `fd` all other descriptors still have their entries.
pub record Kept (fd : ℤ) (s t : Socket) : Type 0 where
  pub same_fd : t.fd ≡ s.fd
  pub same_protocol : t.protocol ≡ s.protocol
  pub retained : (other : ℤ) → other ≢ fd → Present s other → Present t other

pub Kept-refl : (fd : ℤ) (s : Socket) → Kept fd s s
Kept-refl fd s = record {
  same_fd = refl;
  same_protocol = refl;
  retained = λ other differ present. present;
}

pub Kept-trans : (fd : ℤ) (s t u : Socket) → Kept fd s t → Kept fd t u → Kept fd s u
Kept-trans fd s t u k l = record {
  same_fd = l.same_fd ∙ k.same_fd;
  same_protocol = l.same_protocol ∙ k.same_protocol;
  retained = λ other differ present. l.retained other differ (k.retained other differ present);
}

peer_at-NotNull :
    (s : Socket) (i : ℕ) → Ensures NotNull (λ p. get_elem? s.peers i ≡ some p) (peer_at s i)
unfolding peer_at
peer_at-NotNull s i = record { holds = λ h. ground arith }

pub add_peer-Kept :
    (s : Socket) (fill : Peer → Peer) (fd : ℤ) → Ensures NotNull (Kept fd s) (add_peer s fill)
unfolding add_peer
add_peer-Kept s fill fd = Ensures-bind _ _ (peer_at-NotNull s s.peer_count) λ p at.
    Ensures-pure _ (record {
      same_fd = refl;
      same_protocol = refl;
      retained = λ other differ (j, q, below, found, same). (
        j,
        q,
        omega arith,
        get_elem?-set_ne s.peers s.peer_count j (fill p) (λ e. absurd (omega arith)) ∙ found,
        same,
      );
    })

-- Overwriting an entry that has the descriptor `fd`.
set_peer-Kept :
    (s : Socket) (i : ℕ) (p q : Peer) (fd : ℤ)
    → get_elem? s.peers i ≡ some p
    → p.fd ≡ fd
    → Kept fd s (set_peer s i q)
set_peer-Kept s i p q fd at mine = record {
  same_fd = refl;
  same_protocol = refl;
  retained = λ other differ (j, r, below, found, same). (
    j,
    r,
    below,
    get_elem?-set_ne s.peers i j q (λ e. differ (cc (e, at, found, mine, same))) ∙ found,
    same,
  );
}

module _ (env : Env) where
  disable_if_set-NotNull : (task : Option ℕ) → Ensures NotNull Any (disable_if_set env task)
  unfolding disable_if_set
  disable_if_set-NotNull none = Ensures-pure tt tt
  disable_if_set-NotNull (some task) =
      Ensures-bind _ _ (Ensures-invoke env _) λ _ _. Ensures-pure tt tt

  disable_tasks-NotNull : (p : Peer) → Ensures NotNull Any (disable_tasks env p)
  unfolding disable_tasks
  disable_tasks-NotNull p =
      Ensures-bind _ _ (disable_if_set-NotNull p.ping_task)
        λ _ _. Ensures-bind _ _ (disable_if_set-NotNull p.comm_lost_task) λ _ _. Ensures-pure _ tt

  close_fd-NotNull : (fd : ℤ) → Ensures NotNull Any (close_fd env fd)
  unfolding close_fd
  close_fd-NotNull fd =
      Ensures-if (is_nonzero fd) _ _
        (λ _. Ensures-bind _ _ (Ensures-invoke env _) λ _ _. Ensures-pure _ tt)
        λ _. Ensures-pure fd tt

  pub peer_through-NotNull :
      (s : Socket) (i : ℕ)
      → Ensures NotNull
          (λ ip. (ip.0 ≡ i) × (get_elem? s.peers i ≡ some ip.1))
          (peer_through s (some i))
  unfolding peer_through
  peer_through-NotNull s i =
      Ensures-bind _ _ (peer_at-NotNull s i) λ p at. Ensures-pure _ (refl, at)

  pub remove_peer-Kept :
      (s : Socket) (fd : ℤ)
      → Found s fd
      → Ensures NotNull (Kept fd s) (remove_peer env s (find_peer_by_fd s fd))
  unfolding remove_peer
  remove_peer-Kept s fd (i, p, e, at, mine) =
      rw (e, remove_peer)
        (Ensures-bind _ _ (peer_through-NotNull s i) λ ip got.
          Ensures-bind _ _
            (Ensures-if (is_udp s.protocol) _ _ (λ _. disable_tasks-NotNull ip.1)
              λ _. Ensures-pure ip.1 tt)
            λ q _.
              Ensures-bind _ _ (close_fd-NotNull q.fd)
                λ c _. Ensures-pure _ (set_peer-Kept s ip.0 p _ fd (rw got.0 at) mine))

  pub schedule_reestablishment-NotNull :
      (remote : IpSocket) → Ensures NotNull Any (schedule_reestablishment env remote)
  unfolding schedule_reestablishment
  schedule_reestablishment-NotNull remote =
      Ensures-bind _ _ (Ensures-invoke env _) λ _ _. Ensures-pure tt tt

-- A message in the buffer leaves the table alone.
abbrev pub SamePeers : Socket → Socket → Type 0
SamePeers s t = (t.fd ≡ s.fd) × (t.protocol ≡ s.protocol) × ((fd : ℤ) → Present s fd → Present t fd)

terminated-SamePeers :
    (s : Socket) (r : Reply) (z : ℤ)
    → r.result ≡ z
    → Ensures NotNull (SamePeers s) (terminate_message s r)
unfolding terminate_message
terminated-SamePeers s r (pos n) e =
    rw (e, terminate_message)
      (Ensures-if (ltb n msg_buffer_size) _ _
        (λ _. Ensures-pure _ (refl, refl, λ fd present. present))
        λ _. Ensures-fails Fault.msg_buffer_index (λ x. cc))
terminated-SamePeers s r (negsuc n) e =
    rw (e, terminate_message) (Ensures-fails Fault.msg_buffer_index (λ x. cc))

pub terminate_message-SamePeers :
    (s : Socket) (r : Reply) → Ensures NotNull (SamePeers s) (terminate_message s r)
terminate_message-SamePeers s r = terminated-SamePeers s r r.result refl

-- What is kept after the message, is kept from before it.
pub SamePeers-Kept : (fd : ℤ) (s t u : Socket) → SamePeers s t → Kept fd t u → Kept fd s u
SamePeers-Kept fd s t u (same_fd, same_protocol, all) k = record {
  same_fd = k.same_fd ∙ same_fd;
  same_protocol = k.same_protocol ∙ same_protocol;
  retained = λ other differ present. k.retained other differ (all other present);
}
