-- ===== src/Forked.antt =====
-- SocketUnixForked.c: a parent and a child joined by a socket pair, two pipes, message queues, two
-- shared memories and two semaphores. One process is followed: the answer to fork says which.
-- Arguments are evaluated from left to right. The log's reads of shared memory are left out.
pub mod Setup
pub mod Table
pub mod Scheduled
pub mod Pairs
pub mod Traffic
pub mod Ways
pub mod Sends
use sctp_sandbox_c.Base.{
  ℕ, zero, suc, Bool, List, [], ◌∷◌, ℤ, pos, is_nonzero, ◌==ℤ◌, ltb, length, pos_part,
  if◌then◌else◌,
}
use sctp_sandbox_c.Errors.{Check}
use sctp_sandbox_c.Os.{
  Env, Call, Name, Semaphore, Reply, M, Fault, pure, fails, exits, ◌>>=◌, ◌>>◌, invoke, check,
  checked,
}
use sctp_sandbox_c.Peers.{msg_buffer_size, Socket, Forked, terminate_message, c_string, quit_msg}

-- sizeof(SharedMemory): an int and a sem_t.
abbrev pub shm_size : ℕ
shm_size = 40

unfoldable pub is_child : Socket → Bool
is_child s = is_nonzero s.forked.parent

-- `if (result > 0) socket->msg_buffer[result] = 0`
unfoldable pub terminate_if_any : Socket → Reply → M Socket
terminate_if_any s r = if ltb 0 (pos_part r.result) then terminate_message s r else pure s

module _ (env : Env) where
  unfoldable pub clean_up_globals : M (Unit {0})
  clean_up_globals = do
    invoke env (Call.mq_unlink Name.parent_mq)
    invoke env (Call.mq_unlink Name.child_mq)
    invoke env (Call.sem_unlink Name.sem)
    invoke env (Call.shm_unlink Name.shm)
    pure tt

  unfoldable pub is_semaphore_ready : Semaphore → M Bool
  is_semaphore_ready sem = do
    r ← checked env Check.semtrywait (Call.sem_trywait sem)
    pure (r.result ==ℤ pos 0)

  unfoldable pub print_semaphore_values : Socket → M (Unit {0})
  print_semaphore_values s = do
    checked env Check.semgetvalue (Call.sem_getvalue s.forked.sem_named)
    checked env Check.semgetvalue (Call.sem_getvalue s.forked.sem_unnamed)
    pure tt

  unfoldable pub read_posix_shared_memory : Socket → M (Unit {0})
  unfolding is_semaphore_ready print_semaphore_values
  read_posix_shared_memory s = do
    ready ← is_semaphore_ready s.forked.sem_named
    if ready then print_semaphore_values s else pure tt

  unfoldable pub read_sys_v_shared_memory : Socket → M (Unit {0})
  unfolding is_semaphore_ready print_semaphore_values
  read_sys_v_shared_memory s = do
    ready ← is_semaphore_ready s.forked.sem_unnamed
    if ready then print_semaphore_values s else pure tt

  unfoldable pub receive_from_pipe : Socket → M Socket
  unfolding terminate_if_any
  receive_from_pipe s =
      checked env Check.read (Call.read s.forked.pipe msg_buffer_size) >>= terminate_if_any s

  unfoldable pub receive_from_named_pipe : Socket → M Socket
  unfolding terminate_if_any
  receive_from_named_pipe s =
      checked env Check.read (Call.read s.forked.named_pipe msg_buffer_size) >>= terminate_if_any s

  unfoldable pub receive_from_message_queue : Socket → M Socket
  unfolding terminate_if_any
  receive_from_message_queue s = do
    invoke env (Call.nanosleep_ns 10000000)
    r ← checked env Check.mq_receive (Call.mq_receive s.forked.mq msg_buffer_size)
    terminate_if_any s r

  unfoldable pub send_on_socket_pair : Socket → List ℕ → M (Unit {0})
  send_on_socket_pair s msg = checked env Check.send (Call.send s.fd msg) >> pure tt

  unfoldable pub send_on_pipe : Socket → List ℕ → M (Unit {0})
  send_on_pipe s msg = checked env Check.write (Call.write s.forked.pipe msg) >> pure tt

  unfoldable pub send_on_named_pipe : Socket → List ℕ → M (Unit {0})
  send_on_named_pipe s msg = checked env Check.write (Call.write s.forked.named_pipe msg) >> pure tt

  -- The next `n` rounds of the loop, with the priorities that are left.
  unfoldable pub send_each_mq : ℤ → List ℕ → ℕ → List ℕ → M (Unit {0})
  send_each_mq mq msg zero priorities = pure tt
  send_each_mq mq msg (suc n) [] = fails Fault.uninitialised
  send_each_mq mq msg (suc n) (priority ∷ rest) =
      let more = send_each_mq mq msg n rest in
      checked env Check.mq_send (Call.mq_send mq msg priority) >> more

  unfoldable pub send_on_message_queue : Socket → List ℕ → M (Unit {0})
  unfolding send_each_mq
  send_on_message_queue s msg = do
    r ← invoke env (Call.shuffled_indexes 5)
    send_each_mq s.forked.peer_mq msg 5 r.numbers

  unfoldable pub set_posix_shared_memory : Socket → ℕ → M (Unit {0})
  set_posix_shared_memory s v = invoke env (Call.store_shared s.forked.shm_mmap v) >> pure tt

  unfoldable pub set_sys_v_shared_memory : Socket → ℕ → M (Unit {0})
  set_sys_v_shared_memory s v = invoke env (Call.store_shared s.forked.shm_shmat v) >> pure tt

  unfoldable pub post_named_semaphore : Socket → M (Unit {0})
  unfolding print_semaphore_values
  post_named_semaphore s = do
    checked env Check.sempost (Call.sem_post s.forked.sem_named)
    print_semaphore_values s

  unfoldable pub post_unnamed_semaphore : Socket → M (Unit {0})
  unfolding print_semaphore_values
  post_unnamed_semaphore s = do
    checked env Check.sempost (Call.sem_post s.forked.sem_unnamed)
    print_semaphore_values s

  -- What a message does, once it is in the buffer: a quit message ends the process.
  unfoldable pub delivered_unix_forked : Socket → M Socket
  unfolding clean_up_globals
  delivered_unix_forked s =
      if env.equals (c_string s.msg_buffer) quit_msg then (clean_up_globals >> exits 0) else pure s

  unfoldable pub handle_message_unix_forked : Socket → ℤ → M Socket
  unfolding delivered_unix_forked
  handle_message_unix_forked s fd = do
    r ← checked env Check.receive (Call.recv fd msg_buffer_size)
    t ← terminate_message s r
    delivered_unix_forked t

  receive_from_pipes : Socket → M Socket
  unfolding receive_from_pipe receive_from_named_pipe
  receive_from_pipes s = receive_from_pipe s >>= receive_from_named_pipe

  unfoldable pub receive_unix_forked : Socket → M Socket
  unfolding read_posix_shared_memory read_sys_v_shared_memory receive_from_pipes
      receive_from_message_queue is_child
  receive_unix_forked s = do
    read_posix_shared_memory s
    read_sys_v_shared_memory s
    t ← if is_child s then receive_from_pipes s else pure s
    receive_from_message_queue t

  unfoldable pub send_socket_unix_forked : Socket → List ℕ → M (Unit {0})
  send_socket_unix_forked s msg = do
    send_on_socket_pair s msg
    send_on_pipe s msg
    send_on_named_pipe s msg
    send_on_message_queue s msg
    set_posix_shared_memory s (length msg)
    post_named_semaphore s
    set_sys_v_shared_memory s (length msg)
    post_unnamed_semaphore s

  unfoldable pub clean_up_message_queues : Socket → M (Unit {0})
  clean_up_message_queues s = do
    invoke env (Call.mq_close s.forked.mq)
    invoke env (Call.mq_close s.forked.peer_mq)
    pure tt

  unfoldable pub clean_up_semaphores : Socket → M (Unit {0})
  clean_up_semaphores s = do
    invoke env (Call.sem_close s.forked.sem_named)
    invoke env (Call.sem_close s.forked.sem_unnamed)
    invoke env (Call.sem_destroy s.forked.sem_unnamed)
    pure tt

  unfoldable pub clean_up_shared_memory : Socket → M (Unit {0})
  clean_up_shared_memory s = do
    invoke env (Call.munmap s.forked.shm_mmap shm_size)
    invoke env (Call.shmdt s.forked.shm_shmat)
    pure tt
