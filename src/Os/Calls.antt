-- ===== src/Os/Calls.antt =====
-- Which calls a run makes: its history goes on from the one it starts with, by calls of one kind.
use sctp_sandbox_c.Base.{
  ℕ, ℤ, Bool, true, false, List, [], ◌∷◌, ◌++◌, Option, none, some, ◌≡◌, refl, if◌then◌else◌,
}
use mathlib.Core.List.{append_assoc}
use sctp_sandbox_c.Errors.{Check}
use sctp_sandbox_c.Os.{
  Env, Call, History, M, Outcome, ok, exited, fault, Fault, pure, fails, exits, ◌>>=◌, and_then,
  invoke, check, run_check, checked,
}

abbrev pub AllCalls : (Call → Type 0) → List Call → Type 0
AllCalls Ok [] = Unit {0}
AllCalls Ok (c ∷ calls) = Ok c × AllCalls Ok calls

pub AllCalls-append :
    (Ok : Call → Type 0) (later h : List Call)
    → AllCalls Ok later
    → AllCalls Ok h
    → AllCalls Ok (later ++ h)
AllCalls-append Ok [] h a b = b
AllCalls-append Ok (c ∷ later) h (p, a) b = (p, AllCalls-append Ok later h a b)

-- The second history is the first and then calls that are all right.
abbrev pub GoesOn : (Call → Type 0) → History → History → Type 0
GoesOn Ok h h' = (later : List Call) × (h' ≡ later ++ h) × AllCalls Ok later

pub GoesOn-refl : (Ok : Call → Type 0) (h : History) → GoesOn Ok h h
GoesOn-refl Ok h = ([], refl, tt)

pub GoesOn-trans :
    (Ok : Call → Type 0) (h h' h'' : History) → GoesOn Ok h h' → GoesOn Ok h' h'' → GoesOn Ok h h''
GoesOn-trans Ok h h' h'' (l, e, a) (l', e', a') =
    (l' ++ l, rw (e', e, append_assoc) refl, AllCalls-append Ok l' l a' a)

abbrev pub Made : (Call → Type 0) → {A : Type 0} → History → Outcome A → Type 0
Made Ok h (ok a h') = GoesOn Ok h h'
Made Ok h (exited status h') = Unit {0}
Made Ok h (fault x) = Unit {0}

-- A run that makes such calls only.
pub record Calls (Ok : Call → Type 0) {A : Type 0} (m : M A) : Type 0 where
  pub holds : (h : History) → Made Ok h (m h)

Made-later :
    (Ok : Call → Type 0) {A : Type 0} (o : Outcome A) (h h' : History)
    → GoesOn Ok h h'
    → Made Ok h' o
    → Made Ok h o
Made-later Ok (ok a h'') h h' g p = GoesOn-trans Ok h h' h'' g p
Made-later Ok (exited status h'') h h' g p = tt
Made-later Ok (fault x) h h' g p = tt

Made-run_check : (Ok : Call → Type 0) (o : Option ℕ) (h : History) → Made Ok h (run_check o h)
unfolding run_check
Made-run_check Ok none h = GoesOn-refl Ok h
Made-run_check Ok (some status) h = tt

Made-and_then :
    (Ok : Call → Type 0) {A B : Type 0} (o : Outcome A) (f : A → M B) (h : History)
    → Made Ok h o
    → ((a : A) → Calls Ok (f a))
    → Made Ok h (and_then o f)
Made-and_then Ok (ok a h') f h g k = Made-later Ok (f a h') h h' g ((k a).holds h')
Made-and_then Ok (exited status h') f h g k = tt
Made-and_then Ok (fault x) f h g k = tt

module _ {Ok : Call → Type 0} where
  pub Calls-pure : {A : Type 0} (a : A) → Calls Ok (pure a)
  Calls-pure a = record { holds = λ h. GoesOn-refl Ok h }

  pub Calls-fails : {A : Type 0} (x : Fault) → Calls Ok (fails {A = A} x)
  Calls-fails x = record { holds = λ h. tt }

  pub Calls-exits : {A : Type 0} (status : ℕ) → Calls Ok (exits {A = A} status)
  Calls-exits status = record { holds = λ h. tt }

  pub Calls-bind :
      {A B : Type 0} (m : M A) (f : A → M B)
      → Calls Ok m
      → ((a : A) → Calls Ok (f a))
      → Calls Ok (m >>= f)
  Calls-bind m f e k = record { holds = λ h. Made-and_then Ok (m h) f h (e.holds h) k }

  pub Calls-if :
      {A : Type 0} (b : Bool) (m n : M A) → Calls Ok m → Calls Ok n → Calls Ok (if b then m else n)
  Calls-if true m n e f = e
  Calls-if false m n e f = f

  module _ (env : Env) where
    pub Calls-invoke : (c : Call) → Ok c → Calls Ok (invoke env c)
    unfolding invoke
    Calls-invoke c p = record { holds = λ h. (c ∷ [], refl, (p, tt)) }

    pub Calls-check : (k : Check) (r : ℤ) (e : ℕ) → Calls Ok (check env k r e)
    unfolding check
    Calls-check k r e = record { holds = λ h. Made-run_check Ok (env.check_exit k r e h) h }

    pub Calls-checked : (k : Check) (c : Call) → Ok c → Calls Ok (checked env k c)
    unfolding checked
    Calls-checked k c p =
        Calls-bind _ _ (Calls-invoke c p)
          λ r. Calls-bind _ _ (Calls-check k r.result r.errno) λ _. Calls-pure r

pub ruleset calls = (
  Calls-bind, Calls-pure, Calls-if, Calls-fails, Calls-exits, Calls-invoke, Calls-check,
  Calls-checked,
)

AllCalls-weaken :
    (Ok Ok' : Call → Type 0) (l : List Call)
    → ((c : Call) → Ok c → Ok' c)
    → AllCalls Ok l
    → AllCalls Ok' l
AllCalls-weaken Ok Ok' [] k a = tt
AllCalls-weaken Ok Ok' (c ∷ l) k (p, a) = (k c p, AllCalls-weaken Ok Ok' l k a)

Made-weaken :
    (Ok Ok' : Call → Type 0) {A : Type 0} (o : Outcome A) (h : History)
    → ((c : Call) → Ok c → Ok' c)
    → Made Ok h o
    → Made Ok' h o
Made-weaken Ok Ok' (ok a h') h k (l, e, a') = (l, e, AllCalls-weaken Ok Ok' l k a')
Made-weaken Ok Ok' (exited status h') h k p = tt
Made-weaken Ok Ok' (fault x) h k p = tt

-- Any calls at all: the run goes on from its history.
abbrev pub AnyCall : Call → Type 0
AnyCall c = Unit {0}

abbrev pub Grows : {A : Type 0} → M A → Type 0
Grows m = Calls AnyCall m

pub Calls-Grows : {Ok : Call → Type 0} {A : Type 0} (m : M A) → Calls Ok m → Grows m
Calls-Grows {Ok} m e = record {
  holds = λ h. Made-weaken Ok AnyCall (m h) h (λ c p. tt) (e.holds h);
}
