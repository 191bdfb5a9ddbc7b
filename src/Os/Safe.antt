-- ===== src/Os/Safe.antt =====
-- Runs from a history in which nothing but new connections was scheduled: what they reach, and which
-- tasks are due in them.
use sctp_sandbox_c.Base.{Bool, true, false, List, [], ◌∷◌, ◌≡◌, ◌≢◌, refl, inl, inr, if◌then◌else◌}
use sctp_sandbox_c.Os.{
  Env, Call, Task, History, M, Outcome, ok, exited, fault, Fault, pure, ◌>>=◌, and_then, invoke,
}
use sctp_sandbox_c.Os.Ensures.{Ensures, Post}
use sctp_sandbox_c.Os.Scheduled.{
  IsStreamTask, IsStreamCall, AreStreamCalls, IsAmong, Schedules, WasScheduled, CallsScheduled,
  Streams,
}
use sctp_sandbox_c.Os.Calls.{Made, AllCalls-append}

-- A run from such a history: it reaches no fault but those allowed, and where it returns, its result
-- has the property and its history is such a one.
abbrev pub Safely : {A : Type 0} → (Fault → Type 0) → (A → Type 0) → Outcome A → Type 0
Safely F P (ok a h') = P a × AreStreamCalls h'
Safely F P (exited status h') = Unit {0}
Safely F P (fault x) = F x

pub record Safe {A : Type 0} (F : Fault → Type 0) (P : A → Type 0) (m : M A) : Type 0 where
  pub holds : (h : History) → AreStreamCalls h → Safely F P (m h)

Safely-both :
    (F : Fault → Type 0) {A : Type 0} (P : A → Type 0) (h : History) (o : Outcome A)
    → AreStreamCalls h
    → Post F P o
    → Made IsStreamCall h o
    → Safely F P o
Safely-both F P h (ok a h') before p (later, e, made) =
    (p, rw e (AllCalls-append IsStreamCall later h made before))
Safely-both F P h (exited status h') before p q = tt
Safely-both F P h (fault x) before p q = p

Safely-then :
    (F : Fault → Type 0) {A B : Type 0} (P : A → Type 0) (Q : B → Type 0) (o : Outcome A)
    (f : A → M B)
    → Safely F P o
    → ((a : A) → P a → Safe F Q (f a))
    → Safely F Q (and_then o f)
Safely-then F P Q (ok a h) f (p, q) k = (k a p).holds h q
Safely-then F P Q (exited status h) f p k = tt
Safely-then F P Q (fault x) f p k = p

module _ {F : Fault → Type 0} where
  pub Safe-both : {A : Type 0} {P : A → Type 0} (m : M A) → Ensures F P m → Streams m → Safe F P m
  Safe-both {P} m e s = record { holds = λ h a. Safely-both F P h (m h) a (e.holds h) (s.holds h) }

  pub Safe-bind :
      {A B : Type 0} {P : A → Type 0} {Q : B → Type 0} (m : M A) (f : A → M B)
      → Safe F P m
      → ((a : A) → P a → Safe F Q (f a))
      → Safe F Q (m >>= f)
  Safe-bind {P} {Q} m f e k = record { holds = λ h a. Safely-then F P Q (m h) f (e.holds h a) k }

  pub Safe-pure : {A : Type 0} {P : A → Type 0} (a : A) → P a → Safe F P (pure a)
  Safe-pure a p = record { holds = λ h q. (p, q) }

  pub Safe-if :
      {A : Type 0} {P : A → Type 0} (b : Bool) (m n : M A)
      → (b ≡ true → Safe F P m)
      → (b ≡ false → Safe F P n)
      → Safe F P (if b then m else n)
  Safe-if true m n p q = p refl
  Safe-if false m n p q = q refl

Schedules-IsStreamTask : (t : Task) (c : Call) → IsStreamCall c → Schedules t c → IsStreamTask t
Schedules-IsStreamTask t (Call.schedule_task u delay repetitions) p e = rw e p
Schedules-IsStreamTask t _ p e = elim e [ ]

-- What was scheduled in such a history is such a task.
WasScheduled-IsStreamTask :
    (t : Task) (h : History) → AreStreamCalls h → WasScheduled t h → IsStreamTask t
WasScheduled-IsStreamTask t [] a w = elim w [ ]
WasScheduled-IsStreamTask t (c ∷ h) a (inl w) = Schedules-IsStreamTask t c a.0 w
WasScheduled-IsStreamTask t (c ∷ h) a (inr w) = WasScheduled-IsStreamTask t h a.1 w

abbrev pub AreStreamTasks : List Task → Type 0
AreStreamTasks [] = Unit {0}
AreStreamTasks (t ∷ tasks) = IsStreamTask t × AreStreamTasks tasks

IsAmong-AreStreamTasks :
    (tasks : List Task) → ((t : Task) → IsAmong t tasks → IsStreamTask t) → AreStreamTasks tasks
IsAmong-AreStreamTasks [] k = tt
IsAmong-AreStreamTasks (t ∷ tasks) k =
    (k t (inl refl), IsAmong-AreStreamTasks tasks λ u w. k u (inr w))

-- The tasks that are due.
pub launched-AreStreamTasks :
    {F : Fault → Type 0} (env : Env)
    → CallsScheduled env
    → Safe F (λ r. AreStreamTasks r.due) (invoke env Call.launch_scheduled_tasks)
unfolding invoke
launched-AreStreamTasks env calls = record {
  holds = λ h a. (
    IsAmong-AreStreamTasks (env.reply Call.launch_scheduled_tasks h).due
        λ t w. WasScheduled-IsStreamTask t h a (calls t h w),
    (tt, a),
  );
}

pub Safe-never :
    {A : Type 0} {P : A → Type 0} {F : Fault → Type 0} (m : M A) (x : Fault)
    → Safe F P m
    → ¬ F x
    → (h : History) → AreStreamCalls h
    → m h ≢ fault x
Safe-never {P} {F} m x e n h a eq = let bad : Safely F P (fault x) = rw eq at (e.holds h a) in n bad
