-- ===== src/Forked/Traffic.antt =====
-- SocketUnixForked.c: what a child sends, and calls whose checks pass or stop the process.
use sctp_sandbox_c.Base.{ℕ, true, false, List, ◌∷◌, ◌≡◌, refl, ℤ, is_negative}
use sctp_sandbox_c.Errors.{Check, failed}
use sctp_sandbox_c.Os.{Env, Call, History, M, exited, ◌>>=◌, ◌>>◌, pure, invoke, checked}
use sctp_sandbox_c.Os.Laws.{IsLawful, checked_passes, check_stops}
use sctp_sandbox_c.Peers.{Socket}
use sctp_sandbox_c.Forked.{send_on_socket_pair, send_on_pipe, send_socket_unix_forked}
use sctp_sandbox_c.Forked.Setup.{fork_socket}
use sctp_sandbox_c.Forked.Pairs.{IsChild, child_calls, fork_socket-child}

module _ (env : Env) (L : IsLawful env) where
  -- A call whose check passes, and what follows.
  pub passing :
      {A : Type 0} (k : Check) (c : Call) (m : M A) (h : History)
      → failed k (env.reply c h).result (env.reply c h).errno ≡ false
      → (checked env k c >> m) h ≡ m (c ∷ h)
  passing k c m h passes = rw (checked_passes env L k c h passes) refl

  -- A call whose check does not pass.
  stopping :
      {A : Type 0} (k : Check) (c : Call) (m : M A) (h : History)
      → failed k (env.reply c h).result (env.reply c h).errno ≡ true
      → (status : ℕ) × ((checked env k c >> m) h ≡ exited status (c ∷ h))
  unfolding checked invoke
  stopping k c m h fails =
      let (status, e) = check_stops env L k _ _ (c ∷ h) fails in (status, rw e refl)

  -- Where fork answers 0, prctl succeeds and the parent is still there, a message that the child
  -- then sends ends the child: it goes on the socket pair, and then is written to the pipe of which
  -- the child holds the first end, where the socket pair takes the message and that write fails.
  pub fork_socket-child_sends :
      (s : Socket) (socket_pair pipe named_pipe : ℤ × ℤ) (msg : List ℕ) (h : History)
      → IsChild env h
      → ((h' : History) → is_negative (env.reply (Call.send socket_pair.0 msg) h').result ≡ false)
      → ((h' : History) → is_negative (env.reply (Call.write pipe.0 msg) h').result ≡ true)
      → (status : ℕ) × ((fork_socket env s socket_pair pipe named_pipe >>= λ t.
              send_socket_unix_forked env t msg)
            h
          ≡ exited status (
              Call.write pipe.0 msg
              ∷ Call.send socket_pair.0 msg
              ∷ child_calls socket_pair pipe named_pipe h))
  unfolding send_socket_unix_forked send_on_socket_pair send_on_pipe failed
  fork_socket-child_sends s socket_pair pipe named_pipe msg h child takes unwritable =
      let h₁ = child_calls socket_pair pipe named_pipe h in
      let h₂ : History = Call.send socket_pair.0 msg ∷ h₁ in
      let (status, stops) =
        stopping Check.write (Call.write pipe.0 msg) (pure tt) h₂ (rw (unwritable h₂) refl) in
      (
        status,
        rw
            (
              fork_socket-child env L s socket_pair pipe named_pipe h child,
              passing Check.send (Call.send socket_pair.0 msg) (pure tt) h₁ (takes h₁),
              stops,
            )
            refl,
      )
