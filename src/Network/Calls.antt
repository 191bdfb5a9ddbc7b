-- ===== src/Network/Calls.antt =====
-- NetworkTask.c: a task's runs go on from the calls made before.
use sctp_sandbox_c.Base.{ℕ, true, false, List, [], ◌∷◌, Option, none, some, not}
use sctp_sandbox_c.Os.{Env, Task}
use sctp_sandbox_c.Os.Calls.{
  Grows, calls, Calls-Grows, Calls-bind, Calls-if, Calls-pure, Calls-invoke,
}
use sctp_sandbox_c.Peers.{Socket, quit_msg}
use sctp_sandbox_c.Dispatch.Calls.{run_task-Grows, send_socket-Streams}
use sctp_sandbox_c.Network.{start_task, run_each, launch_scheduled_tasks, goes_on, answer_chat}

module _ (env : Env) where
  pub start_task-Grows : (delay : ℕ × ℕ) → Grows (start_task env delay)
  unfolding start_task
  start_task-Grows delay = search calls

  pub goes_on-Grows : (deadline : Option (ℕ × ℕ)) → Grows (goes_on env deadline)
  unfolding goes_on
  goes_on-Grows none = Calls-pure true
  goes_on-Grows (some deadline) = search calls

  pub answer_chat-Grows : (s : Socket) (msg : List ℕ) → Grows (answer_chat env s msg)
  unfolding answer_chat
  answer_chat-Grows s msg = Calls-if (env.empty msg) _ _ (Calls-pure false) (
      Calls-if (not (env.equals msg quit_msg)) _ _
        (Calls-bind _ _ (Calls-Grows _ (send_socket-Streams env s msg)) λ _. Calls-pure false)
        (Calls-bind _ _ (Calls-invoke env _ tt) λ _. Calls-pure true))

  run_each-Grows : (s : Socket) (tasks : List Task) → Grows (run_each env s tasks)
  unfolding run_each
  run_each-Grows s [] = Calls-pure s
  run_each-Grows s (t ∷ rest) = Calls-bind _ _ (run_task-Grows env s t) λ u. run_each-Grows u rest

  pub launch_scheduled_tasks-Grows : (s : Socket) → Grows (launch_scheduled_tasks env s)
  unfolding launch_scheduled_tasks
  launch_scheduled_tasks-Grows s =
      Calls-bind _ _ (Calls-invoke env _ tt) λ r. run_each-Grows s r.due
