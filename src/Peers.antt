-- ===== src/Peers.antt =====
-- Socket.h: the socket with its table of peers; Socket.c: closing descriptors, removing a peer,
-- scheduling a new connection. Logging is not modelled, the reads that it makes through a null
-- pointer are.
pub mod Table
pub mod Find
pub mod Matching
pub mod Agrees
pub mod Found
pub mod Retries
pub mod Present
pub mod Within
pub mod Message
pub mod Remove
pub mod Scheduled
use sctp_sandbox_c.Base.{
  ℕ, zero, suc, ◌+◌, ◌*◌, Bool, false, List, [], ◌∷◌, ◌++◌, Option, none, some, ℤ, pos, negsuc,
  is_nonzero, ◌==ℤ◌, ◌==◌, ltb, get_elem?, set, take, drop, if◌then◌else◌,
}
use sctp_sandbox_c.Protocol.{NetworkProtocol, is_udp}
use sctp_sandbox_c.Os.{
  Env, Call, Task, Reply, IpSocket, Semaphore, M, Fault, pure, fails, ◌>>=◌, ◌>>◌, invoke,
}
use sctp_sandbox_c.IpSocket.{no_ip_socket}
use sctp_sandbox_c.FdSet.{FdSet}

abbrev pub msg_buffer_size : ℕ
msg_buffer_size = 64 * 1024

abbrev pub peers_max_count : ℕ
peers_max_count = 10

abbrev pub path_max_length : ℕ
path_max_length = 10

-- Constants.h
abbrev pub quit_msg : List ℕ
quit_msg = b'q' ∷ []

pub record Peer : Type 0 where
  pub assoc_id : ℕ
  pub fd : ℤ
  pub remote : IpSocket
  pub should_reestablish : Bool
  pub ping_task : Option ℕ
  pub comm_lost_task : Option ℕ
  pub path : List ℕ

-- An entry of the zeroed table.
abbrev pub no_peer : Peer
no_peer = record {
  assoc_id = 0;
  fd = pos 0;
  remote = no_ip_socket;
  should_reestablish = false;
  ping_task = none;
  comm_lost_task = none;
  path = [];
}

pub record Forked : Type 0 where
  pub parent : ℤ
  pub pipe : ℤ
  pub named_pipe : ℤ
  pub mq : ℤ
  pub peer_mq : ℤ
  pub shm : ℤ
  pub shm_id : ℤ
  pub shm_mmap : ℤ
  pub shm_shmat : ℤ
  pub sem_named : Semaphore
  pub sem_unnamed : Semaphore

abbrev pub no_forked : Forked
no_forked = record {
  parent = pos 0;
  pipe = pos 0;
  named_pipe = pos 0;
  mq = pos 0;
  peer_mq = pos 0;
  shm = pos 0;
  shm_id = pos 0;
  shm_mmap = pos 0;
  shm_shmat = pos 0;
  sem_named = Semaphore.null;
  sem_unnamed = Semaphore.null;
}

-- `peers` is the whole array. `msg_buffer` holds its first bytes; those behind them are zero.
pub record Socket : Type 0 where
  pub fd : ℤ
  pub family : ℕ
  pub protocol : NetworkProtocol
  pub local : IpSocket
  pub msg_buffer : List ℕ
  pub peers : List Peer
  pub peer_count : ℕ
  pub fd_set : FdSet
  pub forked : Forked

-- `peers + i` for the first of the `count` entries that passes the test, or NULL.
unfoldable pub find_peer : (Peer → Bool) → (count : ℕ) → List Peer → Option ℕ
find_peer test zero peers = none
find_peer test (suc count) [] = none
find_peer test (suc count) (p ∷ peers) =
    let rest = find_peer test count peers in
    if test p then some 0 else elim rest [ none ↦ none | some i ↦ some (suc i) ]

unfoldable pub find_peer_by_fd : Socket → ℤ → Option ℕ
unfolding find_peer
find_peer_by_fd s fd = find_peer (λ p. p.fd ==ℤ fd) s.peer_count s.peers

unfoldable pub find_peer_by_assoc_id : Socket → ℕ → Option ℕ
unfolding find_peer
find_peer_by_assoc_id s assoc_id = find_peer (λ p. p.assoc_id == assoc_id) s.peer_count s.peers

-- `socket->peers[i]`
unfoldable pub peer_at : Socket → ℕ → M Peer
peer_at s i = elim (get_elem? s.peers i) [ none ↦ fails Fault.peer_index | some p ↦ pure p ]

-- `*peer` through a pointer that may be NULL.
unfoldable pub peer_through : Socket → Option ℕ → M (ℕ × Peer)
unfolding peer_at
peer_through s none = fails Fault.null_peer
peer_through s (some i) = do p ← peer_at s i; pure (i, p)

abbrev pub set_peer : Socket → ℕ → Peer → Socket
set_peer s i p = record s { peers = set s.peers i p }

-- `Peer* peer = socket->peers + socket->peer_count++;` and the assignments to its fields.
unfoldable pub add_peer : Socket → (Peer → Peer) → M Socket
unfolding peer_at
add_peer s fill = do
  p ← peer_at s s.peer_count
  pure (record (set_peer s s.peer_count (fill p)) { peer_count = s.peer_count + 1 })

-- `socket->msg_buffer[result] = 0` after `result` bytes were received.
unfoldable pub terminate_message : Socket → Reply → M Socket
terminate_message s r = elim r.result [
  | negsuc n ↦ fails Fault.msg_buffer_index
  | pos n ↦
      if ltb n msg_buffer_size
      then pure (record s { msg_buffer = take n r.bytes ++ 0 ∷ drop (n + 1) s.msg_buffer })
      else fails Fault.msg_buffer_index
]

-- The buffer read as a C string.
unfoldable pub c_string : List ℕ → List ℕ
c_string [] = []
c_string (b ∷ bytes) = let rest = c_string bytes in if b == 0 then [] else b ∷ rest

-- `socket->msg_buffer[0]`
unfoldable pub first_byte : List ℕ → ℕ
first_byte [] = 0
first_byte (b ∷ bytes) = b

module _ (env : Env) where
  -- `closeFd(&fd)`: the new value of the descriptor.
  unfoldable pub close_fd : ℤ → M ℤ
  close_fd fd = if is_nonzero fd then (invoke env (Call.close fd) >> pure (pos 0)) else pure fd

  disable_if_set : Option ℕ → M (Unit {0})
  disable_if_set none = pure tt
  disable_if_set (some task) = do invoke env (Call.disable_task task); pure tt

  unfoldable pub disable_tasks : Peer → M Peer
  unfolding disable_if_set
  disable_tasks p = do
    disable_if_set p.ping_task
    disable_if_set p.comm_lost_task
    pure (record p { ping_task = none; comm_lost_task = none })

  unfoldable pub remove_peer : Socket → Option ℕ → M Socket
  unfolding peer_through disable_tasks close_fd
  remove_peer s peer = do
    ip ← peer_through s peer
    p ← if is_udp s.protocol then disable_tasks ip.1 else pure ip.1
    fd ← close_fd p.fd
    pure (
        set_peer s ip.0
          (record p { fd = fd; assoc_id = 0; remote = record (p.remote) { port = 0 }; path = [] }))

  -- Once, in five seconds.
  unfoldable pub schedule_reestablishment : IpSocket → M (Unit {0})
  schedule_reestablishment remote = do
    invoke env (Call.schedule_task (Task.reestablish remote) 5 1)
    pure tt
