-- ===== src/Forked/Setup.antt =====
-- SocketUnixForked.c: the objects that the two processes share, and the fork.
use sctp_sandbox_c.Base.{ℕ, not, ℤ, is_nonzero, ◌==ℤ◌, if◌then◌else◌}
use sctp_sandbox_c.Errors.{Check}
use sctp_sandbox_c.Protocol.{type_from_network_protocol, protocol_from_network_protocol}
use sctp_sandbox_c.Os.{
  Env, Call, Name, Semaphore, M, pure, exits, ◌>>=◌, ◌>>◌, invoke, check, checked,
}
use sctp_sandbox_c.Bind.{configure_socket}
use sctp_sandbox_c.Peers.{Socket, Forked, close_fd}
use sctp_sandbox_c.Forked.{shm_size, clean_up_globals}

abbrev pub sigterm : ℕ
sigterm = 15

abbrev pub sigchld : ℕ
sigchld = 17

abbrev pub with_forked : Socket → Forked → Socket
with_forked s f = record s { forked = f }

module _ (env : Env) where
  unfoldable pub create_message_queues : Socket → M Socket
  create_message_queues s = do
    invoke env (Call.mq_unlink Name.parent_mq)
    invoke env (Call.mq_unlink Name.child_mq)
    mq ← checked env Check.mq_open (Call.mq_open Name.parent_mq)
    peer_mq ← checked env Check.mq_open (Call.mq_open Name.child_mq)
    pure (with_forked s (record s.forked { mq = mq.result; peer_mq = peer_mq.result }))

  unfoldable pub create_posix_shared_memory : Socket → M Socket
  create_posix_shared_memory s = do
    shm ← checked env Check.shmopen (Call.shm_open Name.shm)
    checked env Check.truncate (Call.ftruncate shm.result shm_size)
    address ← checked env Check.mmap (Call.mmap shm.result shm_size)
    pure (with_forked s (record s.forked { shm = shm.result; shm_mmap = address.result }))

  unfoldable pub create_sys_v_shared_memory : Socket → M Socket
  create_sys_v_shared_memory s = do
    id ← checked env Check.shmget (Call.shmget shm_size)
    address ← checked env Check.shmat (Call.shmat id.result)
    pure (with_forked s (record s.forked { shm_id = id.result; shm_shmat = address.result }))

  unfoldable pub create_named_semaphore : Socket → M Socket
  create_named_semaphore s = do
    sem ← checked env Check.semopen (Call.sem_open Name.sem)
    pure (with_forked s (record s.forked { sem_named = Semaphore.named sem.result }))

  unfoldable pub create_unnamed_semaphore : Socket → M Socket
  create_unnamed_semaphore s = do
    let sem = Semaphore.mapped s.forked.shm_mmap
    checked env Check.seminit (Call.sem_init sem 0)
    pure (with_forked s (record s.forked { sem_unnamed = sem }))

  unfoldable pub create_socket_pair : Socket → M (ℤ × ℤ)
  create_socket_pair s = do
    r ← checked env Check.socketpair (
        Call.socketpair s.family (type_from_network_protocol s.protocol)
          (protocol_from_network_protocol s.protocol))
    pure r.pair

  unfoldable pub create_pipe : M (ℤ × ℤ)
  create_pipe = do r ← checked env Check.pipe Call.pipe2; pure r.pair

  unfoldable pub create_named_pipe : M (ℤ × ℤ)
  create_named_pipe = do
    checked env Check.remove (Call.remove Name.named_pipe)
    checked env Check.mkfifo (Call.mkfifo Name.named_pipe)
    first ← checked env Check.open_call (Call.open_read Name.named_pipe)
    second ← checked env Check.open_call (Call.open_write Name.named_pipe)
    pure (first.result, second.result)

  -- The handlers of SIGCHLD in the parent and of SIGTERM in the child.
  unfoldable pub child_died : M (Unit {0})
  child_died = clean_up_globals env >> exits 0

  unfoldable pub parent_died : M (Unit {0})
  parent_died = clean_up_globals env >> exits 0

  unfoldable pub kill_parent_on_child_death : M (Unit {0})
  kill_parent_on_child_death = invoke env (Call.sigaction sigchld) >> pure tt

  unfoldable pub fork_parent : Socket → (socket_pair pipe named_pipe : ℤ × ℤ) → M Socket
  unfolding kill_parent_on_child_death
  fork_parent s socket_pair pipe named_pipe = do
    kill_parent_on_child_death
    close_fd env socket_pair.0
    close_fd env pipe.0
    close_fd env named_pipe.0
    pure (record s {
      fd = socket_pair.1;
      forked = record s.forked { pipe = pipe.1; named_pipe = named_pipe.1 };
    })

  unfoldable pub check_parent_alive : Socket → M (Unit {0})
  check_parent_alive s = do
    r ← invoke env Call.getppid
    if not (r.result ==ℤ s.forked.parent) then (clean_up_globals env >> exits 0) else pure tt

  unfoldable pub kill_child_on_parent_death : Socket → M (Unit {0})
  unfolding check_parent_alive
  kill_child_on_parent_death s = do
    invoke env (Call.sigaction sigterm)
    checked env Check.prctl (Call.prctl_pdeathsig sigterm)
    check_parent_alive s

  -- The child reads from the first ends, and its queues are the parent's the other way round.
  unfoldable pub fork_child : Socket → (socket_pair pipe named_pipe : ℤ × ℤ) → M Socket
  unfolding kill_child_on_parent_death
  fork_child s socket_pair pipe named_pipe = do
    kill_child_on_parent_death s
    close_fd env socket_pair.1
    close_fd env pipe.1
    close_fd env named_pipe.1
    pure (record s {
      fd = socket_pair.0;
      forked = record s.forked {
        pipe = pipe.0;
        named_pipe = named_pipe.0;
        mq = s.forked.peer_mq;
        peer_mq = s.forked.mq;
      };
    })

  unfoldable pub fork_socket : Socket → (socket_pair pipe named_pipe : ℤ × ℤ) → M Socket
  unfolding fork_parent fork_child
  fork_socket s socket_pair pipe named_pipe = do
    pid ← invoke env Call.getpid
    r ← invoke env Call.fork
    if is_nonzero r.result
        then (check env Check.fork r.result r.errno >> fork_parent s socket_pair pipe named_pipe)
        else fork_child (with_forked s (record s.forked { parent = pid.result })) socket_pair pipe
            named_pipe

  unfoldable pub create_shared_objects : Socket → M Socket
  create_shared_objects s = do
    t ← create_message_queues s
    t' ← create_posix_shared_memory t
    t'' ← create_sys_v_shared_memory t'
    t''' ← create_named_semaphore t''
    create_unnamed_semaphore t'''

  unfoldable pub init_forked_socket : Socket → M Socket
  unfolding create_shared_objects
  init_forked_socket s = do
    clean_up_globals env
    t ← create_shared_objects s
    socket_pair ← create_socket_pair t
    pipe ← create_pipe
    named_pipe ← create_named_pipe
    u ← fork_socket t socket_pair pipe named_pipe
    configure_socket env u u.fd
    pure u
