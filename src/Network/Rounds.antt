-- ===== src/Network/Rounds.antt =====
-- NetworkTask.c: one round of a task, and its test of the clock.
use sctp_sandbox_c.Base.{
  ℕ, suc, ◌+◌, ◌≤◌, ◌≡◌, ==ℤ_iff, refl, Bool, true, false, ◌∷◌, none, some, ap, length, Bool-cases,
  inl, inr, arith, pos, leb_ℤ, ◌&&◌, ◌==ℤ◌,
}
use sctp_sandbox_c.Os.{
  Env, Call, Fault, History, Outcome, ok, exited, fault, M, pure, and_then, invoke,
}
use sctp_sandbox_c.Os.Calls.{Made, AnyCall}
use sctp_sandbox_c.Os.Laws.{IsLawful}
use sctp_sandbox_c.Peers.{Socket, quit_msg}
use sctp_sandbox_c.Dispatch.{receive_socket}
use sctp_sandbox_c.Dispatch.Calls.{receive_socket-Grows}
use sctp_sandbox_c.Network.{launch_scheduled_tasks, goes_on, answer_chat, network_round}
use sctp_sandbox_c.Network.Polls.{
  After, After-trans, After-poll, After-call, After-weaken, QuitsBy, IsPast,
}
use sctp_sandbox_c.Network.Calls.{answer_chat-Grows, launch_scheduled_tasks-Grows}

-- A goal about a run that goes on from what a first part of it has called.
pub grown :
    {A B : Type 0} (G : Outcome B → Type 0) (base h : History) (n : ℕ) (o : Outcome A) (f : A → M B)
    → Made AnyCall h o
    → After base n h
    → ((status : ℕ) (h' : History) → G (exited status h'))
    → ((x : Fault) → G (fault x))
    → ((a : A) (h' : History) → After base n h' → G (f a h'))
    → G (and_then o f)
grown G base h n (ok a h') f (l, e, _) g stops faults k =
    k a h' (
      After-weaken base h' n (n + 0) (omega arith)
        (After-trans base h h' n 0 g (l, e, omega arith)))
grown G base h n (exited status h') f m g stops faults k = stops status h'
grown G base h n (fault x) f m g stops faults k = faults x

module _ (env : Env) where
  pub goes_on-past :
      (deadline : ℕ × ℕ) (h : History)
      → IsPast env deadline h
      → goes_on env (some deadline) h ≡ ok false (Call.gettimeofday ∷ h)
  unfolding goes_on invoke
  goes_on-past deadline h past =
      let clock = env.reply Call.gettimeofday h in
      let over : (clock.result ==ℤ pos 0 && leb_ℤ (env.compare_time clock.time deadline) (pos 0))
          ≡ false =
        elim past [
          | inl unread ↦ elim (Bool-cases (clock.result ==ℤ pos 0)) [
            | inl e ↦ absurd (unread ((==ℤ_iff clock.result (pos 0)).0 e))
            | inr e ↦ rw e refl
          ]
          | inr late ↦ elim (Bool-cases (clock.result ==ℤ pos 0)) [
            | inl e ↦ rw (e, late) refl
            | inr e ↦ rw e refl
          ]
        ] in
      rw over refl

  answer_chat-quit :
      (s : Socket) (h : History)
      → IsLawful env
      → answer_chat env s quit_msg h ≡ ok true (Call.chat (some quit_msg) ∷ h)
  unfolding answer_chat invoke
  answer_chat-quit s h L =
      let same : env.equals quit_msg quit_msg ≡ true = (L.equals_iff quit_msg quit_msg).1 refl in
      elim (Bool-cases (env.empty quit_msg)) [
        | inl e ↦ absurd (omega (arith, ap length ((L.empty_iff quit_msg).0 e)))
        | inr e ↦ rw (e, same) refl
      ]

-- A round that starts `n` readings after `base`: it has read the mailbox, and ends the loop if quit
-- must have been in it.
abbrev pub Turn : Env → History → ℕ → ℕ → Outcome (Socket × Bool) → Type 0
Turn env base n k (ok r h) = After base (suc k) h × (QuitsBy env n base → n ≤ k → r.1 ≡ true)
Turn env base n k (exited status h) = Unit {0}
Turn env base n k (fault x) = Unit {0}

module _ (env : Env) (L : IsLawful env) (base : History) (n : ℕ) where
  -- What is left of a round once it has received.
  polled-Turn :
      (s : Socket) (k : ℕ) (h : History)
      → After base k h
      → Turn env base n k (
          and_then
            (answer_chat env s (env.reply (Call.chat none) h).bytes (Call.chat none ∷ h))
            λ ends. pure (s, ends))
  polled-Turn s k h g =
      let bytes = (env.reply (Call.chat none) h).bytes in
      let polled = After-poll base h k g in
      elim (Bool-cases (env.equals bytes quit_msg)) [
        | inl e ↦
            rw ((L.equals_iff bytes quit_msg).0 e, answer_chat-quit env s (Call.chat none ∷ h) L)
              (After-call (Call.chat (some quit_msg)) base _ (suc k) polled, λ _ _. refl)
        | inr e ↦
            grown (Turn env base n k) base _ (suc k) _ _
              ((answer_chat-Grows env s bytes).holds (Call.chat none ∷ h)) polled (λ status h'. tt)
              (λ x. tt)
              λ ends h' g'. (
                g',
                λ quits l. absurd (
                    grind (
                      arith,
                      e,
                      quits h (After-weaken base h n k l g),
                      L.equals_iff bytes quit_msg,
                    )),
              )
      ]

  pub network_round-Turn :
      (s : Socket) (k : ℕ) (h : History)
      → After base k h
      → Turn env base n k (network_round env s h)
  unfolding network_round invoke
  network_round-Turn s k h g =
      grown (Turn env base n k) base h k (launch_scheduled_tasks env s h) _
        ((launch_scheduled_tasks-Grows env s).holds h) g (λ status h'. tt) (λ x. tt)
        λ t h₁ g₁.
          grown (Turn env base n k) base h₁ k (receive_socket env t h₁) _
            ((receive_socket-Grows env t).holds h₁) g₁ (λ status h'. tt) (λ x. tt)
            λ u h₂ g₂. polled-Turn u k h₂ g₂
