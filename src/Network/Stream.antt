-- ===== src/Network/Stream.antt =====
-- NetworkTask.c on a stream protocol: the rounds of a task and the tasks that are due in them.
use sctp_sandbox_c.Base.{
  ℕ, zero, suc, ◌≢◌, refl, true, false, not, List, [], ◌∷◌, Option, none, some,
}
use sctp_sandbox_c.Os.{Env, Task, History, Fault, fault}
use sctp_sandbox_c.Os.Ensures.{Any, Ensures-pure, Ensures-bind, Ensures-if, Ensures-invoke}
use sctp_sandbox_c.Os.Scheduled.{AreStreamCalls, CallsScheduled}
use sctp_sandbox_c.Os.Calls.{calls, Calls-invoke}
use sctp_sandbox_c.Os.Safe.{
  AreStreamTasks, launched-AreStreamTasks, Safe, Safe-both, Safe-bind, Safe-pure, Safe-if,
  Safe-never,
}
use sctp_sandbox_c.Bind.{listen_socket}
use sctp_sandbox_c.Bind.Scheduled.{listen_socket-Streams}
use sctp_sandbox_c.Peers.{Socket, quit_msg}
use sctp_sandbox_c.Peers.Present.{NotNull, unset-NotNull}
use sctp_sandbox_c.Dispatch.Stream.{IsStream, SelectNarrows}
use sctp_sandbox_c.Dispatch.Scheduled.{OnStream}
use sctp_sandbox_c.Dispatch.Calls.{send_socket-Streams, clean_up_socket-Streams}
use sctp_sandbox_c.Dispatch.Safe.{
  create_socket-Safe, connect_socket-Safe, run_task-Safe, receive_socket-Safe,
}
use sctp_sandbox_c.Dispatch.Quiet.{send_socket-Quiet, clean_up_socket-Quiet, listen_socket-Quiet}
use sctp_sandbox_c.Network.{
  NetworkTaskParams, start_task, run_each, launch_scheduled_tasks, time_to_die, goes_on,
  answer_chat, network_round, network_loop, deadline_of, finish, network_task,
}

module _ (env : Env) where
  pub start_task-Safe : (delay : ℕ × ℕ) → Safe NotNull Any (start_task env delay)
  unfolding start_task
  start_task-Safe delay =
      Safe-both _
        (Ensures-if (env.is_zero delay) _ _ (λ _. Ensures-pure tt tt)
          λ _. Ensures-bind _ _ (Ensures-invoke env _) λ _ _. Ensures-pure tt tt)
        (search calls)

  pub deadline_of-Safe : (lifetime : ℕ × ℕ) → Safe NotNull Any (deadline_of env lifetime)
  unfolding deadline_of time_to_die
  deadline_of-Safe lifetime =
      Safe-both _
        (Ensures-if (env.is_zero lifetime) _ _ (λ _. Ensures-pure none tt)
          λ _.
            Ensures-bind {P = Any} _ _
              (Ensures-bind _ _ (Ensures-invoke env _) λ r _. Ensures-pure _ tt)
              λ t _. Ensures-pure _ tt)
        (search calls)

  pub goes_on-Safe : (deadline : Option (ℕ × ℕ)) → Safe NotNull Any (goes_on env deadline)
  unfolding goes_on
  goes_on-Safe none = Safe-pure true tt
  goes_on-Safe (some deadline) =
      Safe-both _ (Ensures-bind _ _ (Ensures-invoke env _) λ r _. Ensures-pure _ tt) (search calls)

  pub answer_chat-Safe : (s : Socket) (msg : List ℕ) → Safe NotNull Any (answer_chat env s msg)
  unfolding answer_chat
  answer_chat-Safe s msg =
      Safe-if (env.empty msg) _ _ (λ _. Safe-pure false tt)
        λ _.
          Safe-if (not (env.equals msg quit_msg)) _ _
            (λ _.
              Safe-bind _ _
                (Safe-both _ (send_socket-Quiet env NotNull unset-NotNull s msg)
                  (send_socket-Streams env s msg))
                λ _ _. Safe-pure false tt)
            λ _.
              Safe-both _ (Ensures-bind _ _ (Ensures-invoke env _) λ _ _. Ensures-pure true tt)
                (search calls)

  finish-Safe : (o : Option Socket) → Safe NotNull Any (finish env o)
  unfolding finish
  finish-Safe none = Safe-pure none tt
  finish-Safe (some s) =
      Safe-bind _ _
        (Safe-both _ (clean_up_socket-Quiet env NotNull unset-NotNull s)
          (clean_up_socket-Streams env s))
        λ _ _. Safe-pure _ tt

  pub run_each-Safe :
      (s : Socket) (tasks : List Task)
      → OnStream s
      → AreStreamTasks tasks
      → Safe NotNull OnStream (run_each env s tasks)
  unfolding run_each
  run_each-Safe s [] stream all = Safe-pure s stream
  run_each-Safe s (t ∷ rest) stream (i, all) =
      Safe-bind _ _ (run_task-Safe env s t stream i) λ u stream'. run_each-Safe u rest stream' all

  pub listen_socket-Safe : (s : Socket) → Safe NotNull Any (listen_socket env s 10)
  listen_socket-Safe s =
      Safe-both _ (listen_socket-Quiet env NotNull unset-NotNull s 10)
        (listen_socket-Streams env s 10)

  module _ (narrows : SelectNarrows env) (calls : CallsScheduled env) where
    pub launch_scheduled_tasks-Safe :
        (s : Socket) → OnStream s → Safe NotNull OnStream (launch_scheduled_tasks env s)
    unfolding launch_scheduled_tasks
    launch_scheduled_tasks-Safe s stream =
        Safe-bind _ _ (launched-AreStreamTasks env calls) λ r due. run_each-Safe s r.due stream due

    network_round-Safe :
        (s : Socket) → OnStream s → Safe NotNull (λ r. OnStream r.0) (network_round env s)
    unfolding network_round
    network_round-Safe s stream = Safe-bind _ _ (launch_scheduled_tasks-Safe s stream) λ t on_t.
        Safe-bind _ _ (receive_socket-Safe env t narrows on_t) λ u on_u.
          Safe-bind _ _ (Safe-both _ (Ensures-invoke env _) (Calls-invoke env _ tt))
            λ r _. Safe-bind _ _ (answer_chat-Safe u r.bytes) λ ends _. Safe-pure _ on_u

    network_loop-Safe :
        (fuel : ℕ) (deadline : Option (ℕ × ℕ)) (s : Socket)
        → OnStream s
        → Safe NotNull Any (network_loop env fuel deadline s)
    unfolding network_loop
    network_loop-Safe zero deadline s stream = Safe-pure none tt
    network_loop-Safe (suc fuel) deadline s stream = Safe-bind _ _ (goes_on-Safe deadline) λ on _.
        Safe-if on _ _
          (λ _. Safe-bind _ _ (network_round-Safe s stream) λ r on_r.
            Safe-if r.1 _ _ (λ _. Safe-pure _ tt) λ _. network_loop-Safe fuel deadline r.0 on_r)
          λ _. Safe-pure _ tt

    network_task-Safe :
        (fuel : ℕ) (p : NetworkTaskParams)
        → IsStream p.config.protocol
        → Safe NotNull Any (network_task env fuel p)
    unfolding network_task
    network_task-Safe fuel p stream = Safe-bind _ _ (start_task-Safe p.delay) λ _ _.
        Safe-bind _ _ (create_socket-Safe env p.config.locals p.config.protocol _ stream) λ s on_s.
          Safe-bind _ _ (listen_socket-Safe s) λ _ _.
            Safe-bind _ _ (connect_socket-Safe env s p.config.remotes on_s) λ t on_t.
              Safe-bind _ _ (deadline_of-Safe p.lifetime) λ deadline _.
                Safe-bind _ _ (network_loop-Safe fuel deadline t on_t) λ end _. finish-Safe end

    -- A TCP or DCCP network task, from its start over any number of rounds to its clean-up, never
    -- goes through a NULL pointer to a peer, whatever its configuration, messages and results of
    -- calls, where select reports only descriptors that it was asked for and the scheduler calls
    -- only tasks that were handed to it, no ping and no loss having been handed to it before.
    pub network_task-Stream :
        (fuel : ℕ) (p : NetworkTaskParams) (h : History)
        → IsStream p.config.protocol
        → AreStreamCalls h
        → network_task env fuel p h ≢ fault Fault.null_peer
    network_task-Stream fuel p h stream before =
        Safe-never _ Fault.null_peer (network_task-Safe fuel p stream) (λ n. n refl) h before
