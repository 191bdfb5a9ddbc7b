-- ===== src/Network/Table.antt =====
-- NetworkTask.c: over its whole life a network task keeps within the table of peers.
use sctp_sandbox_c.Base.{ℕ, zero, suc, true, not, List, [], ◌∷◌, Option, none, some}
use sctp_sandbox_c.Os.{Env, Task}
use sctp_sandbox_c.Os.Ensures.{
  Ensures, Any, Ensures-pure, Ensures-bind, Ensures-if, Ensures-invoke, Ensures-weaken,
}
use sctp_sandbox_c.Peers.{Socket, quit_msg}
use sctp_sandbox_c.Peers.Table.{
  Indexed, unset-Indexed, IsValid, Follows, Follows-refl, Follows-trans, Ensures-then,
  Ensures-unchanged,
}
use sctp_sandbox_c.Dispatch.Table.{run_task-Follows, receive_socket-Follows}
use sctp_sandbox_c.Dispatch.Quiet.{send_socket-Quiet}
use sctp_sandbox_c.Network.{
  run_each, launch_scheduled_tasks, goes_on, answer_chat, network_round, network_loop,
}

module _ (env : Env) where
  run_each-Follows :
      (s : Socket) (tasks : List Task)
      → IsValid s
      → Ensures Indexed (Follows s) (run_each env s tasks)
  unfolding run_each
  run_each-Follows s [] v = Ensures-unchanged s v
  run_each-Follows s (t ∷ rest) v =
      Ensures-then s _ _ (run_task-Follows env s t v) λ u v'. run_each-Follows u rest v'

  answer_chat-Indexed : (s : Socket) (msg : List ℕ) → Ensures Indexed Any (answer_chat env s msg)
  unfolding answer_chat
  answer_chat-Indexed s msg =
      Ensures-if (env.empty msg) _ _ (λ _. Ensures-pure _ tt)
        λ _.
          Ensures-if (not (env.equals msg quit_msg)) _ _
            (λ _.
              Ensures-bind _ _ (send_socket-Quiet env Indexed unset-Indexed s msg)
                λ _ _. Ensures-pure _ tt)
            λ _. Ensures-bind _ _ (Ensures-invoke env _) λ _ _. Ensures-pure _ tt

  pub network_round-Follows :
      (s : Socket) → IsValid s → Ensures Indexed (λ r. Follows s r.0) (network_round env s)
  unfolding network_round launch_scheduled_tasks
  network_round-Follows s v =
      Ensures-bind _ _ (Ensures-bind _ _ (Ensures-invoke env _) λ r _. run_each-Follows s r.due v)
        λ t f. Ensures-bind _ _ (receive_socket-Follows env t f.valid) λ u g.
          Ensures-bind _ _ (Ensures-invoke env _) λ r _.
            Ensures-bind _ _ (answer_chat-Indexed u r.bytes)
              λ ends _. Ensures-pure _ (Follows-trans s t u f g)

  goes_on-Indexed : (deadline : Option (ℕ × ℕ)) → Ensures Indexed Any (goes_on env deadline)
  unfolding goes_on
  goes_on-Indexed none = Ensures-pure true tt
  goes_on-Indexed (some deadline) = Ensures-bind _ _ (Ensures-invoke env _) λ r _. Ensures-pure _ tt

  -- The socket that a task ends with, if it ends.
  abbrev pub EndsAfter : Socket → Option Socket → Type 0
  EndsAfter s none = Unit {0}
  EndsAfter s (some t) = Follows s t

  EndsAfter-trans : (s t : Socket) (o : Option Socket) → Follows s t → EndsAfter t o → EndsAfter s o
  EndsAfter-trans s t none f e = tt
  EndsAfter-trans s t (some u) f e = Follows-trans s t u f e

  pub network_loop-EndsAfter :
      (fuel : ℕ) (deadline : Option (ℕ × ℕ)) (s : Socket)
      → IsValid s
      → Ensures Indexed (EndsAfter s) (network_loop env fuel deadline s)
  unfolding network_loop
  network_loop-EndsAfter zero deadline s v = Ensures-pure none tt
  network_loop-EndsAfter (suc fuel) deadline s v =
      Ensures-bind _ _ (goes_on-Indexed deadline) λ on _.
        Ensures-if on _ _
          (λ _. Ensures-bind _ _ (network_round-Follows s v) λ r f.
            Ensures-if r.1 _ _ (λ _. Ensures-pure _ f)
              λ _.
                Ensures-weaken _ (network_loop-EndsAfter fuel deadline r.0 f.valid)
                  λ o e. EndsAfter-trans s r.0 o f e)
          λ _. Ensures-pure _ (Follows-refl s v)
