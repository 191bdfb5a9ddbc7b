-- ===== src/FdSet.antt =====
-- FDSet.c, FDSet.h: the descriptors that a round of select waits for, and those that it found ready.
pub mod Select
use sctp_sandbox_c.Base.{
  ℕ, zero, suc, ◌+◌, ◌*◌, Bool, ◌&&◌, List, [], ◌∷◌, ◌++◌, ℤ, pos, negsuc, is_nonzero, ltb, leb,
  length, if◌then◌else◌,
}
use sctp_sandbox_c.Errors.{Check}
use sctp_sandbox_c.Os.{Env, Call, Reply, M, Fault, pure, fails, ◌>>=◌, checked}

abbrev pub selected_fds_max_count : ℕ
selected_fds_max_count = 10

-- FD_SETSIZE of the C library.
abbrev pub fd_setsize : ℕ
fd_setsize = 1024

-- `fds` lists the members of the fd_set; `selected_fds` the entries of the array below the count.
pub record FdSet : Type 0 where
  pub fds : List ℕ
  pub fd_max : ℕ
  pub selected_fds : List ℕ

unfoldable pub reset_fd_set : FdSet → FdSet
reset_fd_set f = record f { selected_fds = []; fd_max = 1 }

-- FD_SET of a descriptor outside 0 … FD_SETSIZE - 1 is undefined.
unfoldable pub set_fd : FdSet → ℤ → M FdSet
set_fd f (negsuc n) = fails Fault.fd_range
set_fd f (pos fd) =
    if ltb fd fd_setsize
    then pure (record f { fds = fd ∷ f.fds; fd_max = if leb f.fd_max fd then fd + 1 else f.fd_max })
    else fails Fault.fd_range

unfoldable pub ms_to_timeval : ℕ → ℕ
ms_to_timeval ms = ms * 1000

-- The loop over 0 … fd_max - 1: `left` rounds, at `i`, with the entries stored so far.
unfoldable pub select_loop : (ℕ → Bool) → (left i : ℕ) → List ℕ → List ℕ
select_loop is_set zero i selected = selected
select_loop is_set (suc left) i selected = select_loop is_set left (i + 1) (
    if ltb (length selected) selected_fds_max_count && is_set i
    then selected ++ i ∷ []
    else selected)

module _ (env : Env) where
  unfoldable pub select_impl : FdSet → ℕ → M Reply
  unfolding ms_to_timeval
  select_impl f timeout =
      checked env Check.select (Call.select f.fds f.fd_max (ms_to_timeval timeout))

  unfoldable pub select_fd_set : FdSet → ℕ → M FdSet
  unfolding select_impl select_loop
  select_fd_set f timeout = do
    r ← select_impl f timeout
    pure (record f {
      selected_fds = if is_nonzero r.result then select_loop r.is_set f.fd_max 0 [] else [];
    })
