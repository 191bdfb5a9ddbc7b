-- ===== src/Forked/Pairs.antt =====
-- SocketUnixForked.c: after the fork, parent and child hold opposite ends.
use sctp_sandbox_c.Base.{
  ℕ, suc, true, false, ◌∷◌, ◌≡◌, refl, ◌∙◌, ℤ, pos, is_nonzero, ==ℤ_iff, arith,
}
use sctp_sandbox_c.Errors.{Check, failed}
use sctp_sandbox_c.Os.{Env, Call, History, ok, invoke}
use sctp_sandbox_c.Os.Laws.{IsLawful, check_then, checked_passes}
use sctp_sandbox_c.Peers.{Socket}
use sctp_sandbox_c.Peers.Remove.{closed, close_fd_lem}
use sctp_sandbox_c.Forked.Setup.{
  sigchld, sigterm, fork_parent, check_parent_alive, kill_child_on_parent_death, fork_child,
  fork_socket,
}

-- The parent's socket after the fork, and the child's.
abbrev pub parent_ends : Socket → (socket_pair pipe named_pipe : ℤ × ℤ) → Socket
parent_ends s socket_pair pipe named_pipe = record s {
  fd = socket_pair.1;
  forked = record s.forked { pipe = pipe.1; named_pipe = named_pipe.1 };
}

abbrev pub child_ends : Socket → ℤ → (socket_pair pipe named_pipe : ℤ × ℤ) → Socket
child_ends s parent socket_pair pipe named_pipe = record s {
  fd = socket_pair.0;
  forked = record s.forked {
    parent = parent;
    pipe = pipe.0;
    named_pipe = named_pipe.0;
    mq = s.forked.peer_mq;
    peer_mq = s.forked.mq;
  };
}

-- The calls of a child that becomes one.
abbrev pub child_calls : (socket_pair pipe named_pipe : ℤ × ℤ) → History → History
child_calls socket_pair pipe named_pipe h = closed named_pipe.1 (
    closed pipe.1 (
      closed socket_pair.1 (
        Call.getppid
        ∷ Call.prctl_pdeathsig sigterm
        ∷ Call.sigaction sigterm
        ∷ Call.fork
        ∷ Call.getpid
        ∷ h)))

pid_nonzero : (pid : ℕ) → is_nonzero (pos (suc pid)) ≡ true
pid_nonzero pid = ground arith

module _ (env : Env) where
  -- fork answers 0, prctl succeeds, and the parent is still there.
  pub record IsChild (h : History) : Type 0 where
    pub forked : (env.reply Call.fork (Call.getpid ∷ h)).result ≡ pos 0
    pub passes :
        let r =
          env.reply
            (Call.prctl_pdeathsig sigterm)
            (Call.sigaction sigterm ∷ Call.fork ∷ Call.getpid ∷ h) in
        failed Check.prctl r.result r.errno ≡ false
    pub alive :
        (env.reply Call.getppid (
          Call.prctl_pdeathsig sigterm
          ∷ Call.sigaction sigterm
          ∷ Call.fork
          ∷ Call.getpid
          ∷ h)).result
        ≡ (env.reply Call.getpid h).result

module _ (env : Env) (L : IsLawful env) where
  -- Where fork answers a process, the parent ends up with the second ends of the socket pair and
  -- the pipes and keeps its queues as they are; it has closed the other ends and no more.
  pub fork_socket-parent :
      (s : Socket) (socket_pair pipe named_pipe : ℤ × ℤ) (h : History) (pid : ℕ)
      → (env.reply Call.fork (Call.getpid ∷ h)).result ≡ pos (suc pid)
      → fork_socket env s socket_pair pipe named_pipe h
        ≡ ok (parent_ends s socket_pair pipe named_pipe) (
            closed named_pipe.0 (
              closed pipe.0
                (closed socket_pair.0 (Call.sigaction sigchld ∷ Call.fork ∷ Call.getpid ∷ h))))
  unfolding fork_socket fork_parent invoke failed
  fork_socket-parent s socket_pair pipe named_pipe h pid forked =
      rw (forked, pid_nonzero pid)
        (check_then env L Check.fork (pos (suc pid)) _
            (λ _. fork_parent env s socket_pair pipe named_pipe) _ refl
          ∙ close_fd_lem env socket_pair.0 _ _
          ∙ close_fd_lem env pipe.0 _ _
          ∙ close_fd_lem env named_pipe.0 _ _)

  pub fork_socket-child :
      (s : Socket) (socket_pair pipe named_pipe : ℤ × ℤ) (h : History)
      → IsChild env h
      → fork_socket env s socket_pair pipe named_pipe h
        ≡ ok
            (child_ends s (env.reply Call.getpid h).result socket_pair pipe named_pipe)
            (child_calls socket_pair pipe named_pipe h)
  unfolding fork_socket fork_child kill_child_on_parent_death check_parent_alive invoke
  fork_socket-child s socket_pair pipe named_pipe h child =
      rw
        (
          child.forked,
          checked_passes env L Check.prctl (Call.prctl_pdeathsig sigterm)
              (Call.sigaction sigterm ∷ Call.fork ∷ Call.getpid ∷ h) child.passes,
          child.alive,
          (==ℤ_iff (env.reply Call.getpid h).result (env.reply Call.getpid h).result).1 refl,
        )
        (close_fd_lem env socket_pair.1 _ _
          ∙ close_fd_lem env pipe.1 _ _
          ∙ close_fd_lem env named_pipe.1 _ _)
