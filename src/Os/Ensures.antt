-- ===== src/Os/Ensures.antt =====
-- Partial correctness of a run: whatever it is answered, it reaches no fault but those allowed, and
-- where it returns, the result has the property.
use sctp_sandbox_c.Base.{ℕ, Bool, true, false, [], Option, none, some, ◌≡◌, refl, ℤ}
use sctp_sandbox_c.Base.{if◌then◌else◌}
use sctp_sandbox_c.Errors.{Check}
use sctp_sandbox_c.Os.{
  Env, Call, Reply, History, M, Outcome, ok, exited, fault, Fault, pure, fails, ◌>>=◌, invoke,
  check, run_check, checked,
}

abbrev pub Post : {A : Type 0} → (Fault → Type 0) → (A → Type 0) → Outcome A → Type 0
Post F P (ok a h) = P a
Post F P (exited code h) = Unit
Post F P (fault x) = F x

pub record Ensures {A : Type 0} (F : Fault → Type 0) (P : A → Type 0) (m : M A) : Type 0 where
  pub holds : (h : History) → Post F P (m h)

-- Any result will do.
abbrev pub Any : {A : Type 0} → A → Type 0
Any a = Unit {0}

Post-weaken :
    (F : Fault → Type 0) {A : Type 0} {P Q : A → Type 0} (o : Outcome A)
    → Post F P o
    → ((a : A) → P a → Q a)
    → Post F Q o
Post-weaken F (ok a h) p k = k a p
Post-weaken F (exited code h) p k = tt
Post-weaken F (fault x) p k = p

Post-run_check : (F : Fault → Type 0) (o : Option ℕ) (h : History) → Post F Any (run_check o h)
unfolding run_check
Post-run_check F none h = tt
Post-run_check F (some code) h = tt

-- What is answered is the reply to that call.
abbrev pub RepliesTo : Env → Call → Reply → Type 0
RepliesTo env c r = (h : History) × (r ≡ env.reply c h)

module _ {F : Fault → Type 0} where
  pub Ensures-pure : {A : Type 0} {P : A → Type 0} (a : A) → P a → Ensures F P (pure a)
  Ensures-pure a p = record { holds = λ h. p }

  pub Ensures-fails :
      {A : Type 0} {P : A → Type 0} (x : Fault) → F x → Ensures F P (fails {A = A} x)
  Ensures-fails x p = record { holds = λ h. p }

  Post-and_then :
      {A B : Type 0} {P : A → Type 0} {Q : B → Type 0} (o : Outcome A) (f : A → M B)
      → Post F P o
      → ((a : A) → P a → Ensures F Q (f a))
      → Post F Q (◌>>=◌ (λ (h : History). o) f [])
  Post-and_then (ok a h) f p k = (k a p).holds h
  Post-and_then (exited code h) f p k = tt
  Post-and_then (fault x) f p k = p

  pub Ensures-bind :
      {A B : Type 0} {P : A → Type 0} {Q : B → Type 0} (m : M A) (f : A → M B)
      → Ensures F P m
      → ((a : A) → P a → Ensures F Q (f a))
      → Ensures F Q (m >>= f)
  Ensures-bind m f e k = record { holds = λ h. Post-and_then (m h) f (e.holds h) k }

  pub Ensures-weaken :
      {A : Type 0} {P Q : A → Type 0} (m : M A)
      → Ensures F P m
      → ((a : A) → P a → Q a)
      → Ensures F Q m
  Ensures-weaken m e k = record { holds = λ h. Post-weaken F (m h) (e.holds h) k }

  pub Ensures-if :
      {A : Type 0} {P : A → Type 0} (b : Bool) (m n : M A)
      → (b ≡ true → Ensures F P m)
      → (b ≡ false → Ensures F P n)
      → Ensures F P (if b then m else n)
  Ensures-if true m n p q = p refl
  Ensures-if false m n p q = q refl

  module _ (env : Env) where
    pub Ensures-invoke : (c : Call) → Ensures F Any (invoke env c)
    unfolding invoke
    Ensures-invoke c = record { holds = λ h. tt }

    pub Ensures-check : (k : Check) (r : ℤ) (e : ℕ) → Ensures F Any (check env k r e)
    unfolding check
    Ensures-check k r e = record { holds = λ h. Post-run_check F (env.check_exit k r e h) h }

    pub Ensures-checked : (k : Check) (c : Call) → Ensures F Any (checked env k c)
    unfolding checked
    Ensures-checked k c =
        Ensures-bind _ _ (Ensures-invoke c)
          λ r _. Ensures-bind _ _ (Ensures-check k r.result r.errno) λ _ _. Ensures-pure r tt

    pub checked-RepliesTo : (k : Check) (c : Call) → Ensures F (RepliesTo env c) (checked env k c)
    unfolding checked invoke
    checked-RepliesTo k c =
        Ensures-bind _ _ replied
          λ r p. Ensures-bind _ _ (Ensures-check k r.result r.errno) λ _ _. Ensures-pure r p
      where
        replied : Ensures F (RepliesTo env c) (invoke env c)
        replied = record { holds = λ h. (h, refl) }
