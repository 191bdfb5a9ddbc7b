-- ===== src/Peers/Table.antt =====
-- Socket.c, Socket.h: the table of peers stays in shape. An operation may not leave the array, and
-- keeps the entries below the count: they are never given up.
use sctp_sandbox_c.Base.{
  ℕ, ◌≤◌, ◌<◌, ◌≡◌, ◌≢◌, refl, ◌∙◌, Option, none, some, ℤ, length, length-set, get_elem?_below,
  arith, is_nonzero, leb, if◌then◌else◌,
}
use sctp_sandbox_c.Protocol.{is_udp}
use sctp_sandbox_c.Os.{Env, IpSocket, Reply, M, Fault, pure, ◌>>=◌}
use sctp_sandbox_c.Os.Ensures.{
  Ensures, Any, Ensures-pure, Ensures-fails, Ensures-bind, Ensures-if, Ensures-invoke,
  Ensures-weaken,
}
use sctp_sandbox_c.Peers.{
  Peer, Socket, peers_max_count, set_peer, peer_at, peer_through, add_peer, terminate_message,
  close_fd, disable_if_set, disable_tasks, remove_peer, schedule_reestablishment,
}

-- No run may index outside the array of peers; the other faults are told of elsewhere.
abbrev pub Indexed : Fault → Type 0
Indexed x = x ≢ Fault.peer_index

pub record IsValid (s : Socket) : Type 0 where
  pub table : length s.peers ≡ peers_max_count
  pub count : s.peer_count ≤ peers_max_count

-- What every operation keeps.
pub record Follows (s t : Socket) : Type 0 where
  pub valid : IsValid t
  pub grows : s.peer_count ≤ t.peer_count
  pub same_protocol : t.protocol ≡ s.protocol
  pub same_fd : t.fd ≡ s.fd

pub Follows-refl : (s : Socket) → IsValid s → Follows s s
Follows-refl s v = record { valid = v; grows = omega arith; same_protocol = refl; same_fd = refl }

pub Follows-trans : (s t u : Socket) → Follows s t → Follows t u → Follows s u
Follows-trans s t u f g = record {
  valid = g.valid;
  grows = omega arith;
  same_protocol = g.same_protocol ∙ f.same_protocol;
  same_fd = g.same_fd ∙ f.same_fd;
}

-- One operation after another.
pub Ensures-then :
    (s : Socket) (m : M Socket) (f : Socket → M Socket)
    → Ensures Indexed (Follows s) m
    → ((t : Socket) → IsValid t → Ensures Indexed (Follows t) (f t))
    → Ensures Indexed (Follows s) (m >>= f)
Ensures-then s m f e k =
    Ensures-bind m f e λ t g. Ensures-weaken (f t) (k t g.valid) λ u g'. Follows-trans s t u g g'

pub Ensures-unchanged : (s : Socket) → IsValid s → Ensures Indexed (Follows s) (pure s)
Ensures-unchanged s v = Ensures-pure s (Follows-refl s v)

set_peer-Follows : (s : Socket) (i : ℕ) (p : Peer) → IsValid s → Follows s (set_peer s i p)
set_peer-Follows s i p v = record {
  valid = record { table = length-set s.peers i p ∙ v.table; count = v.count };
  grows = omega arith;
  same_protocol = refl;
  same_fd = refl;
}

pub peer_at-Indexed : (s : Socket) (i : ℕ) → i < length s.peers → Ensures Indexed Any (peer_at s i)
unfolding peer_at
peer_at-Indexed s i h =
    let (p, e) = get_elem?_below s.peers i h in rw (e, peer_at) (Ensures-pure p tt)

pub add_peer-Follows :
    (s : Socket) (fill : Peer → Peer)
    → IsValid s
    → s.peer_count < peers_max_count
    → Ensures Indexed (Follows s) (add_peer s fill)
unfolding add_peer
add_peer-Follows s fill v h = Ensures-bind _ _ (peer_at-Indexed s s.peer_count (omega arith)) λ p _.
    Ensures-pure _ (record {
      valid = record {
        table = length-set s.peers s.peer_count (fill p) ∙ v.table;
        count = omega arith;
      };
      grows = omega arith;
      same_protocol = refl;
      same_fd = refl;
    })

pub terminate_message-Follows :
    (s : Socket) (r : Reply) → IsValid s → Ensures Indexed (Follows s) (terminate_message s r)
unfolding terminate_message
terminate_message-Follows s r v = record { holds = λ h. ground arith }

-- A pointer that is NULL or points into the array.
abbrev pub InTable : Socket → Option ℕ → Type 0
InTable s none = Unit {0}
InTable s (some i) = i < length s.peers

pub peer_through-Indexed :
    (s : Socket) (peer : Option ℕ) → InTable s peer → Ensures Indexed Any (peer_through s peer)
unfolding peer_through
peer_through-Indexed s none h = Ensures-fails Fault.null_peer (λ e. cc)
peer_through-Indexed s (some i) h =
    Ensures-bind _ _ (peer_at-Indexed s i h) λ p _. Ensures-pure _ tt

module _ (env : Env) where
  disable_if_set-Indexed : (task : Option ℕ) → Ensures Indexed Any (disable_if_set env task)
  unfolding disable_if_set
  disable_if_set-Indexed none = Ensures-pure tt tt
  disable_if_set-Indexed (some task) =
      Ensures-bind _ _ (Ensures-invoke env _) λ _ _. Ensures-pure tt tt

  disable_tasks-Indexed : (p : Peer) → Ensures Indexed Any (disable_tasks env p)
  unfolding disable_tasks
  disable_tasks-Indexed p =
      Ensures-bind _ _ (disable_if_set-Indexed p.ping_task)
        λ _ _. Ensures-bind _ _ (disable_if_set-Indexed p.comm_lost_task) λ _ _. Ensures-pure _ tt

  pub close_fd-Indexed : (fd : ℤ) → Ensures Indexed Any (close_fd env fd)
  unfolding close_fd
  close_fd-Indexed fd =
      Ensures-if (is_nonzero fd) _ _
        (λ _. Ensures-bind _ _ (Ensures-invoke env _) λ _ _. Ensures-pure _ tt)
        λ _. Ensures-pure fd tt

  pub remove_peer-Follows :
      (s : Socket) (peer : Option ℕ)
      → IsValid s
      → InTable s peer
      → Ensures Indexed (Follows s) (remove_peer env s peer)
  unfolding remove_peer
  remove_peer-Follows s peer v h = Ensures-bind _ _ (peer_through-Indexed s peer h) λ ip _.
      Ensures-bind _ _
        (Ensures-if (is_udp s.protocol) _ _ (λ _. disable_tasks-Indexed ip.1)
          λ _. Ensures-pure ip.1 tt)
        λ p _.
          Ensures-bind _ _ (close_fd-Indexed p.fd)
            λ fd _. Ensures-pure _ (set_peer-Follows s ip.0 _ v)

  pub schedule_reestablishment-Indexed :
      (remote : IpSocket) → Ensures Indexed Any (schedule_reestablishment env remote)
  unfolding schedule_reestablishment
  schedule_reestablishment-Indexed remote =
      Ensures-bind _ _ (Ensures-invoke env _) λ _ _. Ensures-pure tt tt

pub unset-Indexed : Indexed Fault.uninitialised
unset-Indexed e = cc

-- A check of the count before an entry is taken.
pub Ensures-room :
    (s : Socket) (m : M Socket)
    → IsValid s
    → (s.peer_count < peers_max_count → Ensures Indexed (Follows s) m)
    → Ensures Indexed (Follows s) (if leb peers_max_count s.peer_count then pure s else m)
Ensures-room s m v k = Ensures-if _ _ m (λ _. Ensures-unchanged s v) λ e. k (ground arith)
