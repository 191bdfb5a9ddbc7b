-- ===== src/Os.antt =====
-- What the program is run against: the system calls it makes, the answers it is given, the functions
-- of tools_c that it uses, and the sequencing of calls. A run is judged on its history of calls.
pub mod Ensures
pub mod Laws
pub mod Calls
pub mod Scheduled
pub mod Safe
use sctp_sandbox_c.Base.{ℕ, Bool, List, ◌∷◌, Option, none, some, ℤ}
use sctp_sandbox_c.Errors.{Check}

-- `IPSocket`: the address is the text of the C string, the port is in host order.
pub record IpSocket : Type 0 where
  pub addr : List ℕ
  pub port : ℕ
  pub family : ℕ

-- `struct sockaddr_storage`, as it is read through sockaddr_in, sockaddr_in6 and sockaddr_un. Both
-- ports lie at one place, in network order. `sun_path` is the text behind the first byte of the path.
pub record Sockaddr : Type 0 where
  pub ss_family : ℕ
  pub port : ℕ
  pub sin_addr : List ℕ
  pub sin6_addr : List ℕ
  pub sun_path : List ℕ

-- The callbacks handed to the scheduler, with the remote in their `RemoteParams`.
pub data Task : Type 0 where
  reestablish ping comm_lost : IpSocket → Task

-- The socket options that are set, with the values put in them.
pub data SockOpt : Type 0 where
  sctp_nodelay so_reuseaddr sctp_i_want_mapped_v4_addr so_keepalive so_passcred : ℕ → SockOpt
  ip_tos ipv6_tclass ip_ttl tcp_keepidle tcp_keepintvl tcp_keepcnt : ℕ → SockOpt
  sctp_events : List ℕ → SockOpt
  sctp_initmsg : (max_attempts max_init_timeo : ℕ) → SockOpt
  sctp_rtoinfo : (assoc_id initial min max : ℕ) → SockOpt
  sctp_delayed_sack : (assoc_id freq delay : ℕ) → SockOpt
  sctp_associnfo : (assoc_id asocmaxrxt : ℕ) → SockOpt
  sctp_peer_addr_params :
      (family assoc_id hbinterval pathmaxrxt pathmtu : ℕ) (pmtud_disable hb_enable : Bool) → SockOpt
  sctp_maxseg : (assoc_id value : ℕ) → SockOpt

-- The names of the global objects: "/parent", "/child", "/sem", "/shm" and "/tmp/named_pipe".
pub data Name : Type 0 where
  parent_mq child_mq sem shm named_pipe : Name

-- A pointer to a semaphore: NULL, one that sem_open gave, or the one within a shared mapping.
pub data Semaphore : Type 0 where
  null : Semaphore
  named mapped : (address : ℤ) → Semaphore

pub data Call : Type 0 where
  socket : (family type protocol : ℕ) → Call
  setsockopt : (fd : ℤ) → SockOpt → Call
  fcntl_getfl : (fd : ℤ) → Call
  fcntl_setfl : (fd flags : ℤ) (nonblock : Bool) → Call
  bind : (fd : ℤ) → Sockaddr → Call
  bind_unnamed : (fd : ℤ) → Call
  sctp_bindx : (fd : ℤ) (addrs : List ℕ) (count : ℕ) → Call
  listen : (fd : ℤ) (backlog : ℕ) → Call
  connect : (fd : ℤ) → Sockaddr → Call
  sctp_connectx : (fd : ℤ) (count : ℕ) → Call
  accept getsockname getpeername : (fd : ℤ) → Call
  sctp_getladdrs sctp_getpaddrs : (fd : ℤ) → Call
  sctp_status sctp_paddr_params : (fd : ℤ) → Call
  sctp_peeloff : (fd : ℤ) (assoc_id : ℕ) → Call
  select : (fds : List ℕ) (nfds : ℕ) (timeout_us : ℕ) → Call
  recv recvfrom sctp_recvmsg read mq_receive : (fd : ℤ) (size : ℕ) → Call
  send : (fd : ℤ) (msg : List ℕ) → Call
  sendto : (fd : ℤ) (msg : List ℕ) → Sockaddr → Call
  sendto_path : (fd : ℤ) (msg : List ℕ) (family : ℕ) (path : List ℕ) → Call
  close : (fd : ℤ) → Call
  schedule_task : Task → (delay_s repetitions : ℕ) → Call
  disable_task : (task : ℕ) → Call
  reset_task : (task : Option ℕ) → Call
  mq_unlink mq_open sem_unlink sem_open shm_unlink shm_open remove mkfifo : Name → Call
  open_read open_write : Name → Call
  ftruncate : (fd : ℤ) (size : ℕ) → Call
  mmap : (fd : ℤ) (size : ℕ) → Call
  shmget : (size : ℕ) → Call
  shmat : (id : ℤ) → Call
  sem_init : Semaphore → (value : ℕ) → Call
  sem_trywait sem_getvalue sem_post sem_close sem_destroy : Semaphore → Call
  socketpair : (family type protocol : ℕ) → Call
  pipe2 fork getpid getppid : Call
  sigaction prctl_pdeathsig : (signal : ℕ) → Call
  mq_close : (fd : ℤ) → Call
  write : (fd : ℤ) (msg : List ℕ) → Call
  mq_send : (mq : ℤ) (msg : List ℕ) (priority : ℕ) → Call
  shuffled_indexes : (count : ℕ) → Call
  store_shared : (address : ℤ) (value : ℕ) → Call
  munmap : (address : ℤ) (size : ℕ) → Call
  shmdt : (address : ℤ) → Call
  nanosleep_ns : ℕ → Call
  kill : (pid : ℤ) (signal : ℕ) → Call
  launch_scheduled_tasks gettimeofday : Call
  nanosleep : (delay : ℕ × ℕ) → Call
  chat : Option (List ℕ) → Call
  fgets : (size : ℕ) → Call

-- `union sctp_notification`, as far as the program reads it: `sac_state` of an association change.
pub data AssocState : Type 0 where
  comm_up comm_lost restart shutdown_comp cant_str_assoc : AssocState
  other : ℕ → AssocState

-- `spc_state` of a change of a peer's address.
pub data AddrState : Type 0 where
  addr_available addr_unreachable addr_removed addr_added addr_made_prim addr_confirmed : AddrState
  other : ℕ → AddrState

pub data Notification : Type 0 where
  assoc_change : AssocState → (assoc_id : ℕ) → Notification
  peer_addr_change : AddrState → Notification
  remote_error shutdown_event adaptation_indication : Notification
  partial_delivery_event sender_dry_event : Notification
  other : (sn_type : ℕ) → Notification

-- An answer: the result, errno, and what the call fills in.
pub record Reply : Type 0 where
  pub result : ℤ
  pub errno : ℕ
  pub bytes : List ℕ
  pub from : Sockaddr
  pub msg_flags : ℕ
  pub notification : Notification
  pub addresses : List ℕ
  pub is_set : ℕ → Bool
  pub task : Option ℕ
  pub pair : ℤ × ℤ
  pub numbers : List ℕ
  pub due : List Task
  pub time : ℕ × ℕ

-- The calls made so far, the latest first.
abbrev pub History : Type 0
History = List Call

-- The kernel, libsctp, the scheduler, and tools_c. A reply may depend on all calls before it.
-- `check_exit` is what a generated check does with a result: it ends the process with a status, or
-- returns; `check_fgets` is the check of tools_c on the pointer that fgets returns. `equals` and
-- `empty` are those of StringEquals.h. `extent` is how many bytes can be read from the start of a
-- text. `pton` is the result of inet_pton and the address that it stores; `ntop` is inet_ntop.
pub record Env : Type 0 where
  pub reply : Call → History → Reply
  pub check_exit : Check → ℤ → ℕ → History → Option ℕ
  pub check_fgets : ℤ → History → Option ℕ
  pub equals : List ℕ → List ℕ → Bool
  pub empty : List ℕ → Bool
  pub extent : List ℕ → ℕ
  pub pton : ℕ → List ℕ → ℤ × List ℕ
  pub ntop : ℕ → List ℕ → Option (List ℕ)
  pub is_zero : ℕ × ℕ → Bool
  pub compare_time : ℕ × ℕ → ℕ × ℕ → ℤ

-- Undefined behaviour that the program can reach.
pub data Fault : Type 0 where
  null_peer peer_index msg_buffer_index path_overflow fd_range uninitialised protocol_overflow
        socket_overflow text_overread unterminated int_overflow :
      Fault

pub data Outcome {ℓ} (A : Type ℓ) : Type ℓ where
  ok : A → History → Outcome A
  exited : ℕ → History → Outcome A
  fault : Fault → Outcome A

abbrev pub M {ℓ} : Type ℓ → Type ℓ
M A = History → Outcome A

abbrev pub pure {ℓ} : {A : Type ℓ} → A → M A
pure a h = ok a h

abbrev pub fails {ℓ} : {A : Type ℓ} → Fault → M A
fails f h = fault f

-- `exit(status)`
abbrev pub exits {ℓ} : {A : Type ℓ} → ℕ → M A
exits status h = exited status h

abbrev pub and_then {ℓ κ} : {A : Type ℓ} {B : Type κ} → Outcome A → (A → M B) → Outcome B
and_then (ok a h) f = f a h
and_then (exited code h) f = exited code h
and_then (fault x) f = fault x

infixl 5 ◌>>=◌ ◌>>◌
abbrev pub ◌>>=◌ {ℓ κ} : {A : Type ℓ} {B : Type κ} → M A → (A → M B) → M B
◌>>=◌ m f h = and_then (m h) f

abbrev pub ◌>>◌ {ℓ κ} : {A : Type ℓ} {B : Type κ} → M A → M B → M B
m >> k = m >>= λ _. k

unfoldable pub run_check : Option ℕ → M (Unit {0})
run_check none = pure tt
run_check (some code) = λ h. exited code h

module _ (env : Env) where
  unfoldable pub invoke : Call → M Reply
  invoke c h = ok (env.reply c h) (c ∷ h)

  -- `checkX(result)`
  unfoldable pub check : Check → ℤ → ℕ → M (Unit {0})
  unfolding run_check
  check k result errno h = run_check (env.check_exit k result errno h) h

  -- `checkX(call(…))`, and `checkedX(call(…))`: the reply is at hand after the check returns.
  unfoldable pub checked : Check → Call → M Reply
  unfolding invoke check
  checked k c = do r ← invoke c; check k r.result r.errno; pure r
