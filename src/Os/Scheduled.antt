-- ===== src/Os/Scheduled.antt =====
-- What a run hands to the scheduler. On a stream protocol only new connections are to be scheduled.
use sctp_sandbox_c.Base.{List, [], ◌∷◌, ◌≡◌, ◌⊎◌}
use sctp_sandbox_c.Os.{Env, Call, Task, History, M}
use sctp_sandbox_c.Os.Calls.{AllCalls, Calls}

-- No ping and no loss of a datagram protocol.
abbrev pub IsStreamTask : Task → Type 0
IsStreamTask (Task.reestablish remote) = Unit {0}
IsStreamTask (Task.ping remote) = ⊥
IsStreamTask (Task.comm_lost remote) = ⊥

abbrev pub IsStreamCall : Call → Type 0
IsStreamCall (Call.schedule_task task delay repetitions) = IsStreamTask task
IsStreamCall c = Unit {0}

abbrev pub AreStreamCalls : History → Type 0
AreStreamCalls = AllCalls IsStreamCall

-- A run that hands no ping and no loss to the scheduler.
abbrev pub Streams : {A : Type 0} → M A → Type 0
Streams m = Calls IsStreamCall m

abbrev pub IsAmong : Task → List Task → Type 0
IsAmong t [] = ⊥
IsAmong t (u ∷ tasks) = (t ≡ u) ⊎ IsAmong t tasks

abbrev pub Schedules : Task → Call → Type 0
Schedules t (Call.schedule_task u delay repetitions) = t ≡ u
Schedules t c = ⊥

abbrev pub WasScheduled : Task → History → Type 0
WasScheduled t [] = ⊥
WasScheduled t (c ∷ h) = Schedules t c ⊎ WasScheduled t h

-- The scheduler calls only what was handed to it.
abbrev pub CallsScheduled : Env → Type 0
CallsScheduled env =
    (t : Task) (h : History)
    → IsAmong t (env.reply Call.launch_scheduled_tasks h).due
    → WasScheduled t h
