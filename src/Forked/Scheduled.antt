-- ===== src/Forked/Scheduled.antt =====
-- SocketUnixForked.c: what the two processes hand to the scheduler.
use sctp_sandbox_c.Base.{ℕ, zero, suc, ℤ, List, [], ◌∷◌}
use sctp_sandbox_c.Errors.{Check}
use sctp_sandbox_c.Os.{Env, Call, Semaphore, Reply, pure, ◌>>◌, invoke, checked}
use sctp_sandbox_c.Os.Calls.{Calls-pure, Calls-bind, Calls-if, Calls-checked, Calls-invoke, calls}
use sctp_sandbox_c.Os.Scheduled.{Streams, IsStreamCall}
use sctp_sandbox_c.Bind.Scheduled.{configure_socket-Streams}
use sctp_sandbox_c.Peers.{Socket}
use sctp_sandbox_c.Peers.Scheduled.{terminate_message-Streams, close_fd-Streams}
use sctp_sandbox_c.Forked.{
  terminate_if_any, clean_up_globals, is_semaphore_ready, print_semaphore_values,
  read_posix_shared_memory, read_sys_v_shared_memory, receive_from_pipe, receive_from_named_pipe,
  receive_from_pipes, receive_from_message_queue, send_on_socket_pair, send_on_pipe,
  send_on_named_pipe, send_each_mq, send_on_message_queue, set_posix_shared_memory,
  set_sys_v_shared_memory, post_named_semaphore, post_unnamed_semaphore, delivered_unix_forked,
  handle_message_unix_forked, receive_unix_forked, send_socket_unix_forked, is_child,
}
use sctp_sandbox_c.Forked.Setup.{
  create_message_queues, create_posix_shared_memory, create_sys_v_shared_memory,
  create_named_semaphore, create_unnamed_semaphore, create_socket_pair, create_pipe,
  create_named_pipe, kill_parent_on_child_death, fork_parent, check_parent_alive,
  kill_child_on_parent_death, fork_child, fork_socket, create_shared_objects, init_forked_socket,
}

terminate_if_any-Streams : (s : Socket) (r : Reply) → Streams (terminate_if_any s r)
unfolding terminate_if_any
terminate_if_any-Streams s r = search (calls, terminate_message-Streams)

module _ (env : Env) where
  pub clean_up_globals-Streams : Streams (clean_up_globals env)
  unfolding clean_up_globals
  clean_up_globals-Streams = search calls depth 8

  print_semaphore_values-Streams : (s : Socket) → Streams (print_semaphore_values env s)
  unfolding print_semaphore_values
  print_semaphore_values-Streams s = search calls

  is_semaphore_ready-Streams : (sem : Semaphore) → Streams (is_semaphore_ready env sem)
  unfolding is_semaphore_ready
  is_semaphore_ready-Streams sem = search calls

  read_posix_shared_memory-Streams : (s : Socket) → Streams (read_posix_shared_memory env s)
  unfolding read_posix_shared_memory
  read_posix_shared_memory-Streams s =
      search (calls, is_semaphore_ready-Streams, print_semaphore_values-Streams)

  read_sys_v_shared_memory-Streams : (s : Socket) → Streams (read_sys_v_shared_memory env s)
  unfolding read_sys_v_shared_memory
  read_sys_v_shared_memory-Streams s =
      search (calls, is_semaphore_ready-Streams, print_semaphore_values-Streams)

  receive_from_pipes-Streams : (s : Socket) → Streams (receive_from_pipes env s)
  unfolding receive_from_pipes receive_from_pipe receive_from_named_pipe
  receive_from_pipes-Streams s = search (calls, terminate_if_any-Streams)

  receive_from_message_queue-Streams : (s : Socket) → Streams (receive_from_message_queue env s)
  unfolding receive_from_message_queue
  receive_from_message_queue-Streams s = search (calls, terminate_if_any-Streams)

  pub receive_unix_forked-Streams : (s : Socket) → Streams (receive_unix_forked env s)
  unfolding receive_unix_forked
  receive_unix_forked-Streams s = Calls-bind _ _ (read_posix_shared_memory-Streams s) λ _.
      Calls-bind _ _ (read_sys_v_shared_memory-Streams s) λ _.
        Calls-bind _ _ (Calls-if (is_child s) _ _ (receive_from_pipes-Streams s) (Calls-pure s))
          λ t. receive_from_message_queue-Streams t

  delivered_unix_forked-Streams : (s : Socket) → Streams (delivered_unix_forked env s)
  unfolding delivered_unix_forked
  delivered_unix_forked-Streams s = search (calls, clean_up_globals-Streams)

  pub handle_message_unix_forked-Streams :
      (s : Socket) (fd : ℤ) → Streams (handle_message_unix_forked env s fd)
  unfolding handle_message_unix_forked
  handle_message_unix_forked-Streams s fd =
      search (calls, terminate_message-Streams, delivered_unix_forked-Streams)

  send_each_mq-Streams :
      (mq : ℤ) (msg : List ℕ) (n : ℕ) (priorities : List ℕ)
      → Streams (send_each_mq env mq msg n priorities)
  unfolding send_each_mq
  send_each_mq-Streams mq msg zero priorities = Calls-pure tt
  send_each_mq-Streams mq msg (suc n) [] = search calls
  send_each_mq-Streams mq msg (suc n) (priority ∷ rest) =
      Calls-bind _ _ (Calls-checked env _ _ tt) λ _. send_each_mq-Streams mq msg n rest

  -- A call whose answer is not used, checked or not.
  called-Streams : (k : Check) (c : Call) → IsStreamCall c → Streams (checked env k c >> pure tt)
  called-Streams k c p = Calls-bind _ _ (Calls-checked env k c p) λ _. Calls-pure tt

  noted-Streams : (c : Call) → IsStreamCall c → Streams (invoke env c >> pure tt)
  noted-Streams c p = Calls-bind _ _ (Calls-invoke env c p) λ _. Calls-pure tt

  post_named_semaphore-Streams : (s : Socket) → Streams (post_named_semaphore env s)
  unfolding post_named_semaphore
  post_named_semaphore-Streams s = search (calls, print_semaphore_values-Streams)

  post_unnamed_semaphore-Streams : (s : Socket) → Streams (post_unnamed_semaphore env s)
  unfolding post_unnamed_semaphore
  post_unnamed_semaphore-Streams s = search (calls, print_semaphore_values-Streams)

  pub send_socket_unix_forked-Streams :
      (s : Socket) (msg : List ℕ) → Streams (send_socket_unix_forked env s msg)
  unfolding send_socket_unix_forked send_on_socket_pair send_on_pipe send_on_named_pipe
      send_on_message_queue set_posix_shared_memory set_sys_v_shared_memory
  send_socket_unix_forked-Streams s msg = Calls-bind _ _ (called-Streams _ _ tt) λ _.
      Calls-bind _ _ (called-Streams _ _ tt) λ _. Calls-bind _ _ (called-Streams _ _ tt) λ _.
        Calls-bind _ _
          (Calls-bind _ _ (Calls-invoke env _ tt)
            λ r. send_each_mq-Streams s.forked.peer_mq msg 5 r.numbers)
          λ _. Calls-bind _ _ (noted-Streams _ tt) λ _.
            Calls-bind _ _ (post_named_semaphore-Streams s)
              λ _. Calls-bind _ _ (noted-Streams _ tt) λ _. post_unnamed_semaphore-Streams s

  create_message_queues-Streams : (s : Socket) → Streams (create_message_queues env s)
  unfolding create_message_queues
  create_message_queues-Streams s = search calls depth 8

  create_posix_shared_memory-Streams : (s : Socket) → Streams (create_posix_shared_memory env s)
  unfolding create_posix_shared_memory
  create_posix_shared_memory-Streams s = search calls depth 8

  create_sys_v_shared_memory-Streams : (s : Socket) → Streams (create_sys_v_shared_memory env s)
  unfolding create_sys_v_shared_memory
  create_sys_v_shared_memory-Streams s = search calls depth 8

  create_named_semaphore-Streams : (s : Socket) → Streams (create_named_semaphore env s)
  unfolding create_named_semaphore
  create_named_semaphore-Streams s = search calls

  create_unnamed_semaphore-Streams : (s : Socket) → Streams (create_unnamed_semaphore env s)
  unfolding create_unnamed_semaphore
  create_unnamed_semaphore-Streams s = search calls

  create_shared_objects-Streams : (s : Socket) → Streams (create_shared_objects env s)
  unfolding create_shared_objects
  create_shared_objects-Streams s = Calls-bind _ _ (create_message_queues-Streams s) λ t.
      Calls-bind _ _ (create_posix_shared_memory-Streams t) λ t'.
        Calls-bind _ _ (create_sys_v_shared_memory-Streams t') λ t''.
          Calls-bind _ _ (create_named_semaphore-Streams t'')
            λ t'''. create_unnamed_semaphore-Streams t'''

  create_named_pipe-Streams : Streams (create_named_pipe env)
  unfolding create_named_pipe
  create_named_pipe-Streams = search calls depth 8

  fork_parent-Streams : (s : Socket) (a b c : ℤ × ℤ) → Streams (fork_parent env s a b c)
  unfolding fork_parent kill_parent_on_child_death
  fork_parent-Streams s a b c = search (calls, close_fd-Streams) depth 8

  check_parent_alive-Streams : (s : Socket) → Streams (check_parent_alive env s)
  unfolding check_parent_alive
  check_parent_alive-Streams s = search (calls, clean_up_globals-Streams)

  kill_child_on_parent_death-Streams : (s : Socket) → Streams (kill_child_on_parent_death env s)
  unfolding kill_child_on_parent_death
  kill_child_on_parent_death-Streams s = search (calls, check_parent_alive-Streams)

  fork_child-Streams : (s : Socket) (a b c : ℤ × ℤ) → Streams (fork_child env s a b c)
  unfolding fork_child
  fork_child-Streams s a b c =
      search (calls, kill_child_on_parent_death-Streams, close_fd-Streams) depth 8

  fork_socket-Streams : (s : Socket) (a b c : ℤ × ℤ) → Streams (fork_socket env s a b c)
  unfolding fork_socket
  fork_socket-Streams s a b c = search (calls, fork_parent-Streams, fork_child-Streams) depth 8

  pub init_forked_socket-Streams : (s : Socket) → Streams (init_forked_socket env s)
  unfolding init_forked_socket create_socket_pair create_pipe
  init_forked_socket-Streams s = Calls-bind _ _ clean_up_globals-Streams λ _.
      Calls-bind _ _ (create_shared_objects-Streams s) λ t.
        Calls-bind _ _ (Calls-bind _ _ (Calls-checked env _ _ tt) λ r. Calls-pure r.pair) λ a.
          Calls-bind _ _ (Calls-bind _ _ (Calls-checked env _ _ tt) λ r. Calls-pure r.pair) λ b.
            Calls-bind _ _ create_named_pipe-Streams λ c.
              Calls-bind _ _ (fork_socket-Streams t a b c)
                λ u. Calls-bind _ _ (configure_socket-Streams env u u.fd) λ _. Calls-pure u
