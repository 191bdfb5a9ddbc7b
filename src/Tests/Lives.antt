-- ===== src/Tests/Lives.antt =====
-- Whole lives of a TCP task, on a machine with a scheduler, whose mailbox holds quit from its third
-- reading on.
use sctp_sandbox_c.Base.{
  ◌≢◌, refl, List, [], ◌∷◌, ◌++◌, none, pos, leb, inl, inr, arith, if◌then◌else◌,
}
use sctp_sandbox_c.Os.{Env, Call, Reply, History, Task, Fault, fault, ok}
use sctp_sandbox_c.Os.Laws.{IsLawful}
use sctp_sandbox_c.Os.Scheduled.{IsAmong, WasScheduled, CallsScheduled}
use sctp_sandbox_c.Protocol.{udp}
use sctp_sandbox_c.Dispatch.Stream.{SelectNarrows}
use sctp_sandbox_c.Network.{NetworkTaskParams, network_task}
use sctp_sandbox_c.Network.Stream.{network_task-Stream}
use sctp_sandbox_c.Network.Polls.{polls, After-polls, OutlivedBy}
use sctp_sandbox_c.Network.Ends.{network_task-Ends}
use sctp_sandbox_c.Tests.{machine, answering, answering-IsLawful, replies, answer}
use sctp_sandbox_c.Tests.Rounds.{params, machine-SelectNarrows}

abbrev scheduled_by : Call → List Task
scheduled_by (Call.schedule_task t delay repetitions) = t ∷ []
scheduled_by c = []

abbrev scheduled_in : History → List Task
scheduled_in [] = []
scheduled_in (c ∷ h) = scheduled_by c ++ scheduled_in h

abbrev lived : Call → History → Reply
lived Call.launch_scheduled_tasks h = record answer { due = scheduled_in h }
lived c h = replies c

abbrev living : Env
living = record machine { reply = lived }

living-SelectNarrows : SelectNarrows living
living-SelectNarrows fds nfds timeout n h e = machine-SelectNarrows fds nfds timeout n h e

IsAmong-WasScheduled : (t : Task) (h : History) → IsAmong t (scheduled_in h) → WasScheduled t h
IsAmong-WasScheduled t [] w = elim w [ ]
IsAmong-WasScheduled t (Call.schedule_task u delay repetitions ∷ h) (inl e) = inl e
IsAmong-WasScheduled t (Call.schedule_task u delay repetitions ∷ h) (inr w) =
    inr (IsAmong-WasScheduled t h w)
IsAmong-WasScheduled t (c ∷ h) w = inr (IsAmong-WasScheduled t h w)

living-CallsScheduled : CallsScheduled living
living-CallsScheduled t h w = IsAmong-WasScheduled t h w

network_task-Stream_example : network_task living 5 params [] ≢ fault Fault.null_peer
network_task-Stream_example =
    network_task-Stream living living-SelectNarrows living-CallsScheduled 5 params [] (inl refl) tt

-- On this machine a second passes with each reading of the mailbox.
abbrev ticks : Call → History → Reply
ticks Call.gettimeofday h = record answer { time = (polls h, 0) }
ticks c h = replies c

abbrev ticking : Env
ticking = answering (ticks) (λ a b. if leb a.0 b.0 then pos 0 else pos 1)

ticking-IsLawful : IsLawful ticking
ticking-IsLawful = answering-IsLawful _ _

-- The parameters of a UDP task that lives for a second.
abbrev short_lived : NetworkTaskParams
short_lived = record params { config = record params.config { protocol = udp }; lifetime = (1, 0) }

ticking-OutlivedBy : OutlivedBy ticking 2 short_lived.lifetime []
ticking-OutlivedBy = (
  refl,
  λ h' g h'' g'. inr (let late = After-polls (Call.gettimeofday ∷ h') h'' 2 g' in ground arith),
)

network_task-Ends_example : network_task ticking 3 short_lived [] ≢ ok none []
network_task-Ends_example =
    network_task-Ends ticking ticking-IsLawful 2 3 short_lived [] (inr ticking-OutlivedBy)
      (omega arith) []
