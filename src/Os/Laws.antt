-- ===== src/Os/Laws.antt =====
-- What the program relies on in tools_c: a generated check returns exactly when the result is no
-- failure, and the string tests decide what their names say.
use sctp_sandbox_c.Base.{ℕ, true, false, List, [], ◌∷◌, none, some, ◌≡◌, ◌↔◌, ℤ}
use sctp_sandbox_c.Errors.{Check, failed}
use sctp_sandbox_c.Os.{Env, Call, History, ok, exited, check, checked, M, ◌>>=◌}

pub record IsLawful (env : Env) : Type 0 where
  pub passes :
      (k : Check) (result : ℤ) (errno : ℕ) (h : History)
      → failed k result errno ≡ false
      → env.check_exit k result errno h ≡ none
  pub stops :
      (k : Check) (result : ℤ) (errno : ℕ) (h : History)
      → failed k result errno ≡ true
      → (code : ℕ) × (env.check_exit k result errno h ≡ some code)
  pub equals_iff : (a b : List ℕ) → (env.equals a b ≡ true) ↔ (a ≡ b)
  pub empty_iff : (a : List ℕ) → (env.empty a ≡ true) ↔ (a ≡ [])

module _ (env : Env) (L : IsLawful env) where
  pub check_passes :
      (k : Check) (result : ℤ) (errno : ℕ) (h : History)
      → failed k result errno ≡ false
      → check env k result errno h ≡ ok tt h
  unfolding check
  check_passes k result errno h p = rw (L.passes k result errno h p)

  -- The rest of the run after a check that passes.
  pub check_then :
      {A : Type 0} (k : Check) (result : ℤ) (errno : ℕ) (f : Unit {0} → M A) (h : History)
      → failed k result errno ≡ false
      → (check env k result errno >>= f) h ≡ f tt h
  check_then k result errno f h p = rw (check_passes k result errno h p)

  pub check_stops :
      (k : Check) (result : ℤ) (errno : ℕ) (h : History)
      → failed k result errno ≡ true
      → (code : ℕ) × (check env k result errno h ≡ exited code h)
  unfolding check
  check_stops k result errno h p = let (code, e) = L.stops k result errno h p in (code, rw e)

  pub checked_passes :
      (k : Check) (c : Call) (h : History)
      → failed k (env.reply c h).result (env.reply c h).errno ≡ false
      → checked env k c h ≡ ok (env.reply c h) (c ∷ h)
  unfolding checked
  checked_passes k c h p = rw (check_passes k _ _ _ p)
