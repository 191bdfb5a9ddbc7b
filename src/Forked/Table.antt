-- ===== src/Forked/Table.antt =====
-- SocketUnixForked.c does not touch the table of peers.
use sctp_sandbox_c.Base.{ℕ, Bool, ℤ, pos_part, ltb, is_nonzero, not, ◌==ℤ◌, if◌then◌else◌}
use sctp_sandbox_c.Os.{Env, Semaphore, Reply, pure, exits, ◌>>◌}
use sctp_sandbox_c.Os.Ensures.{
  Ensures, Any, Ensures-pure, Ensures-bind, Ensures-if, Ensures-invoke, Ensures-check,
  Ensures-checked,
}
use sctp_sandbox_c.Bind.Quiet.{configure_socket-Quiet}
use sctp_sandbox_c.Peers.{Socket, c_string, quit_msg}
use sctp_sandbox_c.Peers.Table.{
  Indexed, unset-Indexed, IsValid, Follows, Ensures-then, Ensures-unchanged,
  terminate_message-Follows, close_fd-Indexed,
}
use sctp_sandbox_c.Forked.{
  is_child, clean_up_globals, is_semaphore_ready, print_semaphore_values, read_posix_shared_memory,
  read_sys_v_shared_memory, terminate_if_any, receive_from_pipe, receive_from_named_pipe,
  receive_from_message_queue, receive_from_pipes, delivered_unix_forked, handle_message_unix_forked,
  receive_unix_forked,
}
use sctp_sandbox_c.Forked.Setup.{
  create_message_queues, create_posix_shared_memory, create_sys_v_shared_memory,
  create_named_semaphore, create_unnamed_semaphore, create_socket_pair, create_pipe,
  create_named_pipe, kill_parent_on_child_death, fork_parent, check_parent_alive,
  kill_child_on_parent_death, fork_child, fork_socket, with_forked, create_shared_objects,
  init_forked_socket,
}

module _ (env : Env) where
  clean_up_globals-Indexed : Ensures Indexed Any (clean_up_globals env)
  unfolding clean_up_globals
  clean_up_globals-Indexed = Ensures-bind _ _ (Ensures-invoke env _) λ _ _.
      Ensures-bind _ _ (Ensures-invoke env _) λ _ _.
        Ensures-bind _ _ (Ensures-invoke env _)
          λ _ _. Ensures-bind _ _ (Ensures-invoke env _) λ _ _. Ensures-pure tt tt

  Ensures-exits : {A : Type 0} {P : A → Type 0} (code : ℕ) → Ensures Indexed P (exits {A = A} code)
  Ensures-exits code = record { holds = λ h. tt }

  leave-Ensures :
      {A : Type 0} {P : A → Type 0} → Ensures Indexed P (clean_up_globals env >> exits {A = A} 0)
  leave-Ensures = Ensures-bind _ _ clean_up_globals-Indexed λ _ _. Ensures-exits 0

  terminate_if_any-Follows :
      (s : Socket) (r : Reply) → IsValid s → Ensures Indexed (Follows s) (terminate_if_any s r)
  unfolding terminate_if_any
  terminate_if_any-Follows s r v =
      Ensures-if (ltb 0 (pos_part r.result)) _ _ (λ _. terminate_message-Follows s r v)
        λ _. Ensures-unchanged s v

  print_semaphore_values-Indexed : (s : Socket) → Ensures Indexed Any (print_semaphore_values env s)
  unfolding print_semaphore_values
  print_semaphore_values-Indexed s =
      Ensures-bind _ _ (Ensures-checked env _ _)
        λ _ _. Ensures-bind _ _ (Ensures-checked env _ _) λ _ _. Ensures-pure tt tt

  is_semaphore_ready-Indexed : (sem : Semaphore) → Ensures Indexed Any (is_semaphore_ready env sem)
  unfolding is_semaphore_ready
  is_semaphore_ready-Indexed sem =
      Ensures-bind _ _ (Ensures-checked env _ _) λ r _. Ensures-pure _ tt

  print_if_ready-Indexed :
      (s : Socket) (ready : Bool)
      → Ensures Indexed Any (if ready then print_semaphore_values env s else pure tt)
  print_if_ready-Indexed s ready =
      Ensures-if ready _ _ (λ _. print_semaphore_values-Indexed s) λ _. Ensures-pure tt tt

  read_posix_shared_memory-Indexed :
      (s : Socket) → Ensures Indexed Any (read_posix_shared_memory env s)
  unfolding read_posix_shared_memory
  read_posix_shared_memory-Indexed s =
      Ensures-bind _ _ (is_semaphore_ready-Indexed _) λ ready _. print_if_ready-Indexed s ready

  read_sys_v_shared_memory-Indexed :
      (s : Socket) → Ensures Indexed Any (read_sys_v_shared_memory env s)
  unfolding read_sys_v_shared_memory
  read_sys_v_shared_memory-Indexed s =
      Ensures-bind _ _ (is_semaphore_ready-Indexed _) λ ready _. print_if_ready-Indexed s ready

  receive_from_pipes-Follows :
      (s : Socket) → IsValid s → Ensures Indexed (Follows s) (receive_from_pipes env s)
  unfolding receive_from_pipes receive_from_pipe receive_from_named_pipe
  receive_from_pipes-Follows s v =
      Ensures-then s _ _
        (Ensures-bind _ _ (Ensures-checked env _ _) λ r _. terminate_if_any-Follows s r v)
        λ t v'. Ensures-bind _ _ (Ensures-checked env _ _) λ r _. terminate_if_any-Follows t r v'

  receive_from_message_queue-Follows :
      (s : Socket) → IsValid s → Ensures Indexed (Follows s) (receive_from_message_queue env s)
  unfolding receive_from_message_queue
  receive_from_message_queue-Follows s v =
      Ensures-bind _ _ (Ensures-invoke env _)
        λ _ _. Ensures-bind _ _ (Ensures-checked env _ _) λ r _. terminate_if_any-Follows s r v

  pub receive_unix_forked-Follows :
      (s : Socket) → IsValid s → Ensures Indexed (Follows s) (receive_unix_forked env s)
  unfolding receive_unix_forked
  receive_unix_forked-Follows s v = Ensures-bind _ _ (read_posix_shared_memory-Indexed s) λ _ _.
      Ensures-bind _ _ (read_sys_v_shared_memory-Indexed s) λ _ _.
        Ensures-then s _ _
          (Ensures-if (is_child s) _ _ (λ _. receive_from_pipes-Follows s v)
            λ _. Ensures-unchanged s v)
          λ t v'. receive_from_message_queue-Follows t v'

  pub handle_message_unix_forked-Follows :
      (s : Socket) (fd : ℤ)
      → IsValid s
      → Ensures Indexed (Follows s) (handle_message_unix_forked env s fd)
  unfolding handle_message_unix_forked delivered_unix_forked
  handle_message_unix_forked-Follows s fd v = Ensures-bind _ _ (Ensures-checked env _ _) λ r _.
      Ensures-then s _ _ (terminate_message-Follows s r v) λ t v'.
        Ensures-if (env.equals (c_string t.msg_buffer) quit_msg) _ _ (λ _. leave-Ensures)
          λ _. Ensures-unchanged t v'

  create_shared_objects-IsValid :
      (s : Socket) → IsValid s → Ensures Indexed IsValid (create_shared_objects env s)
  unfolding create_shared_objects create_message_queues create_posix_shared_memory
      create_sys_v_shared_memory create_named_semaphore create_unnamed_semaphore
  create_shared_objects-IsValid s v = Ensures-bind _ _ queues λ t v'.
      Ensures-bind _ _ (posix t v') λ t' v''.
        Ensures-bind _ _ (sys_v t' v'')
          λ t'' w. Ensures-bind _ _ (named_sem t'' w) λ t''' w'. unnamed t''' w'
    where
      queues : Ensures Indexed IsValid (create_message_queues env s)
      queues = Ensures-bind _ _ (Ensures-invoke env _) λ _ _.
          Ensures-bind _ _ (Ensures-invoke env _) λ _ _.
            Ensures-bind _ _ (Ensures-checked env _ _) λ _ _.
              Ensures-bind _ _ (Ensures-checked env _ _)
                λ _ _. Ensures-pure _ (record { table = v.table; count = v.count })

      posix : (t : Socket) → IsValid t → Ensures Indexed IsValid (create_posix_shared_memory env t)
      posix t w = Ensures-bind _ _ (Ensures-checked env _ _) λ _ _.
          Ensures-bind _ _ (Ensures-checked env _ _) λ _ _.
            Ensures-bind _ _ (Ensures-checked env _ _)
              λ _ _. Ensures-pure _ (record { table = w.table; count = w.count })

      sys_v : (t : Socket) → IsValid t → Ensures Indexed IsValid (create_sys_v_shared_memory env t)
      sys_v t w = Ensures-bind _ _ (Ensures-checked env _ _) λ _ _.
          Ensures-bind _ _ (Ensures-checked env _ _)
            λ _ _. Ensures-pure _ (record { table = w.table; count = w.count })

      named_sem : (t : Socket) → IsValid t → Ensures Indexed IsValid (create_named_semaphore env t)
      named_sem t w =
          Ensures-bind _ _ (Ensures-checked env _ _)
            λ _ _. Ensures-pure _ (record { table = w.table; count = w.count })

      unnamed : (t : Socket) → IsValid t → Ensures Indexed IsValid (create_unnamed_semaphore env t)
      unnamed t w =
          Ensures-bind _ _ (Ensures-checked env _ _)
            λ _ _. Ensures-pure _ (record { table = w.table; count = w.count })

  fork_parent-IsValid :
      (s : Socket) (a b c : ℤ × ℤ) → IsValid s → Ensures Indexed IsValid (fork_parent env s a b c)
  unfolding fork_parent kill_parent_on_child_death
  fork_parent-IsValid s a b c v =
      Ensures-bind {P = Any} _ _ (Ensures-bind _ _ (Ensures-invoke env _) λ _ _. Ensures-pure tt tt)
        λ _ _. Ensures-bind _ _ (close_fd-Indexed env a.0) λ _ _.
          Ensures-bind _ _ (close_fd-Indexed env b.0) λ _ _.
            Ensures-bind _ _ (close_fd-Indexed env c.0)
              λ _ _. Ensures-pure _ (record { table = v.table; count = v.count })

  kill_child_on_parent_death-Indexed :
      (s : Socket) → Ensures Indexed Any (kill_child_on_parent_death env s)
  unfolding kill_child_on_parent_death check_parent_alive
  kill_child_on_parent_death-Indexed s = Ensures-bind _ _ (Ensures-invoke env _) λ _ _.
      Ensures-bind _ _ (Ensures-checked env _ _) λ _ _.
        Ensures-bind _ _ (Ensures-invoke env _) λ r _.
          Ensures-if (not (r.result ==ℤ s.forked.parent)) _ _ (λ _. leave-Ensures)
            λ _. Ensures-pure tt tt

  fork_child-IsValid :
      (s : Socket) (a b c : ℤ × ℤ) → IsValid s → Ensures Indexed IsValid (fork_child env s a b c)
  unfolding fork_child
  fork_child-IsValid s a b c v = Ensures-bind _ _ (kill_child_on_parent_death-Indexed s) λ _ _.
      Ensures-bind _ _ (close_fd-Indexed env a.1) λ _ _.
        Ensures-bind _ _ (close_fd-Indexed env b.1) λ _ _.
          Ensures-bind _ _ (close_fd-Indexed env c.1)
            λ _ _. Ensures-pure _ (record { table = v.table; count = v.count })

  fork_socket-IsValid :
      (s : Socket) (a b c : ℤ × ℤ) → IsValid s → Ensures Indexed IsValid (fork_socket env s a b c)
  unfolding fork_socket
  fork_socket-IsValid s a b c v = Ensures-bind _ _ (Ensures-invoke env _) λ pid _.
      Ensures-bind _ _ (Ensures-invoke env _) λ r _.
        Ensures-if (is_nonzero r.result) _ _
          (λ _. Ensures-bind _ _ (Ensures-check env _ _ _) λ _ _. fork_parent-IsValid s a b c v)
          λ _.
            fork_child-IsValid (with_forked s (record s.forked { parent = pid.result })) a b c
              (record { table = v.table; count = v.count })

  pub init_forked_socket-IsValid :
      (s : Socket) → IsValid s → Ensures Indexed IsValid (init_forked_socket env s)
  unfolding init_forked_socket create_socket_pair create_pipe create_named_pipe
  init_forked_socket-IsValid s v = Ensures-bind _ _ clean_up_globals-Indexed λ _ _.
      Ensures-bind _ _ (create_shared_objects-IsValid s v) λ t v'.
        Ensures-bind _ _ (socket_pair t) λ a _. Ensures-bind _ _ pipe λ b _.
          Ensures-bind _ _ named_pipe λ c _.
            Ensures-bind _ _ (fork_socket-IsValid t a b c v') λ u w.
              Ensures-bind _ _ (configure_socket-Quiet env Indexed unset-Indexed u u.fd)
                λ _ _. Ensures-pure u w
    where
      socket_pair : (t : Socket) → Ensures Indexed Any (create_socket_pair env t)
      socket_pair t = Ensures-bind _ _ (Ensures-checked env _ _) λ r _. Ensures-pure _ tt

      pipe : Ensures Indexed Any (create_pipe env)
      pipe = Ensures-bind _ _ (Ensures-checked env _ _) λ r _. Ensures-pure _ tt

      named_pipe : Ensures Indexed Any (create_named_pipe env)
      named_pipe = Ensures-bind _ _ (Ensures-checked env _ _) λ _ _.
          Ensures-bind _ _ (Ensures-checked env _ _) λ _ _.
            Ensures-bind _ _ (Ensures-checked env _ _)
              λ a _. Ensures-bind _ _ (Ensures-checked env _ _) λ b _. Ensures-pure _ tt
