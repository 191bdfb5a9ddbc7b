-- ===== src/Network.antt =====
-- NetworkTask.c, NetworkTask.h, StartTask.c: the life of one network task. The mailbox of Chat.c is
-- reached by a call, since other tasks use it between two calls of this one.
pub mod Table
pub mod Stream
pub mod Polls
pub mod Calls
pub mod Rounds
pub mod Ends
pub mod Relay
use sctp_sandbox_c.Base.{
  ℕ, zero, suc, ◌+◌, ◌/◌, Bool, true, false, not, ◌||◌, ◌&&◌, List, [], ◌∷◌, Option, none, some, ℤ,
  pos, ◌==ℤ◌, leb_ℤ, if◌then◌else◌,
}
use sctp_sandbox_c.Protocol.{NetworkProtocol, is_unix, af_unix, af_unspec}
use sctp_sandbox_c.Os.{Env, Call, Task, M, pure, ◌>>=◌, ◌>>◌, invoke}
use sctp_sandbox_c.IpSocket.{IpSockets}
use sctp_sandbox_c.Bind.{listen_socket}
use sctp_sandbox_c.Arguments.{NetworkConfiguration}
use sctp_sandbox_c.Peers.{Socket, quit_msg}
use sctp_sandbox_c.Dispatch.{
  create_socket, connect_socket, run_task, receive_socket, send_socket, clean_up_socket,
}

-- Durations are seconds and nanoseconds.
pub record NetworkTaskParams : Type 0 where
  pub config : NetworkConfiguration
  pub name : List ℕ
  pub delay : ℕ × ℕ
  pub lifetime : ℕ × ℕ

module _ (env : Env) where
  unfoldable pub start_task : ℕ × ℕ → M (Unit {0})
  start_task delay =
      if env.is_zero delay then pure tt else (invoke env (Call.nanosleep delay) >> pure tt)

  -- `launchScheduledTasks`: the scheduler says which tasks are due, and calls them.
  unfoldable pub run_each : Socket → List Task → M Socket
  run_each s [] = pure s
  run_each s (t ∷ rest) = let more = λ (u : Socket). run_each u rest in run_task env s t >>= more

  unfoldable pub launch_scheduled_tasks : Socket → M Socket
  unfolding run_each
  launch_scheduled_tasks s = invoke env Call.launch_scheduled_tasks >>= λ r. run_each s r.due

  -- The seconds and microseconds at which the task dies: now, and its lifetime.
  unfoldable pub time_to_die : ℕ × ℕ → M (ℕ × ℕ)
  time_to_die lifetime = do
    r ← invoke env Call.gettimeofday
    pure (r.time.0 + lifetime.0, r.time.1 + lifetime.1 / 1000)

  -- The test of the loop: no deadline (`none`), or the clock can be read and is not past it.
  unfoldable pub goes_on : Option (ℕ × ℕ) → M Bool
  goes_on none = pure true
  goes_on (some deadline) = do
    r ← invoke env Call.gettimeofday
    pure (r.result ==ℤ pos 0 && leb_ℤ (env.compare_time r.time deadline) (pos 0))

  -- What a round does with the message that was in the mailbox; true if it ends the loop.
  unfoldable pub answer_chat : Socket → List ℕ → M Bool
  answer_chat s msg =
      if env.empty msg
      then pure false
      else if not (env.equals msg quit_msg)
      then (send_socket env s msg >> pure false)
      else (invoke env (Call.chat (some quit_msg)) >> pure true)

  unfoldable pub network_round : Socket → M (Socket × Bool)
  unfolding launch_scheduled_tasks answer_chat
  network_round s = do
    t ← launch_scheduled_tasks s
    u ← receive_socket env t
    r ← invoke env (Call.chat none)
    ends ← answer_chat u r.bytes
    pure (u, ends)

  -- At most `fuel` rounds; `none` is a task that still runs then.
  unfoldable pub network_loop : (fuel : ℕ) → Option (ℕ × ℕ) → Socket → M (Option Socket)
  unfolding goes_on network_round
  network_loop zero deadline s = pure none
  network_loop (suc fuel) deadline s =
      let more = λ (t : Socket). network_loop fuel deadline t in
      goes_on deadline >>= λ on.
      if on
      then (network_round s >>= λ r. if r.1 then pure (some r.0) else more r.0)
      else pure (some s)

  unfoldable pub deadline_of : ℕ × ℕ → M (Option (ℕ × ℕ))
  unfolding time_to_die
  deadline_of lifetime =
      if env.is_zero lifetime then pure none else (time_to_die lifetime >>= λ t. pure (some t))

  finish : Option Socket → M (Option Socket)
  finish none = pure none
  finish (some s) = clean_up_socket env s >> pure (some s)

  unfoldable pub network_task : (fuel : ℕ) → NetworkTaskParams → M (Option Socket)
  unfolding start_task network_loop deadline_of finish
  network_task fuel p = do
    start_task p.delay
    s ←
        create_socket env p.config.locals p.config.protocol
          (if is_unix p.config.protocol then af_unix else af_unspec)
    listen_socket env s 10
    t ← connect_socket env s p.config.remotes
    deadline ← deadline_of p.lifetime
    end ← network_loop fuel deadline t
    finish end
