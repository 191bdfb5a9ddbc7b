-- ===== src/Errors/Classes.antt =====
-- SocketErrorChecks.c: what a result that passes its check can be relied on for.
use sctp_sandbox_c.Base.{ℕ, ◌≡◌, ◌↔◌, ◌⊎◌, false, ℤ, pos, negsuc, arith}
use sctp_sandbox_c.Errors.{Check, failed, eagain, enoent, eintr, einprogress, map_failed}

-- How manual pages describe the results: a descriptor or a size, a status, and the calls for which
-- one errno is no failure.
pub data Kind : Type 0 where
  handle status minus_one one pointer mapping : Kind
  handle_or status_or : ℕ → Kind
  connection : Kind

unfoldable pub kind : Check → Kind
kind Check.accept = Kind.handle
kind Check.fork = Kind.handle
kind Check.getaddrs = Kind.handle
kind Check.mq_open = Kind.handle
kind Check.open_call = Kind.handle
kind Check.peeloff = Kind.handle
kind Check.receive = Kind.handle
kind Check.select = Kind.handle
kind Check.send = Kind.handle
kind Check.shmget = Kind.handle
kind Check.shmopen = Kind.handle
kind Check.socket = Kind.handle
kind Check.write = Kind.handle
kind Check.mq_receive = Kind.handle_or eagain
kind Check.read = Kind.handle_or eagain
kind Check.remove = Kind.status_or enoent
kind Check.semtrywait = Kind.status_or eagain
kind Check.connect = Kind.connection
kind Check.fcntl = Kind.minus_one
kind Check.prctl = Kind.minus_one
kind Check.inetpton = Kind.one
kind Check.inetntop = Kind.pointer
kind Check.semopen = Kind.pointer
kind Check.mmap = Kind.mapping
kind Check.shmat = Kind.mapping
kind _ = Kind.status

abbrev IsHandle : ℤ → Type 0
IsHandle r = (n : ℕ) × (r ≡ pos n)

-- What a result must be, by kind.
abbrev pub Succeeds : Kind → ℤ → ℕ → Type 0
Succeeds Kind.handle r e = IsHandle r
Succeeds (Kind.handle_or errno) r e = IsHandle r ⊎ (e ≡ errno)
Succeeds Kind.status r e = r ≡ pos 0
Succeeds (Kind.status_or errno) r e = (r ≡ pos 0) ⊎ (e ≡ errno)
Succeeds Kind.connection r e = (r ≡ pos 0) ⊎ ((e ≡ einprogress) ⊎ (e ≡ eintr))
Succeeds Kind.minus_one r e = ¬ (r ≡ negsuc 0)
Succeeds Kind.one r e = r ≡ pos 1
Succeeds Kind.pointer r e = ¬ (r ≡ pos 0)
Succeeds Kind.mapping r e = ¬ (r ≡ map_failed)

-- Each check passes exactly the results that the documentation of its kind of call names as a
-- success, with the one or two values of errno that it lets pass.
pub failed-Succeeds : (c : Check) (r : ℤ) (e : ℕ) → (failed c r e ≡ false) ↔ Succeeds (kind c) r e
unfolding failed kind
failed-Succeeds Check.accept r e = ground arith
failed-Succeeds Check.bind r e = ground arith
failed-Succeeds Check.connect r e = ground arith
failed-Succeeds Check.fcntl r e = ground arith
failed-Succeeds Check.fork r e = ground arith
failed-Succeeds Check.getaddrs r e = ground arith
failed-Succeeds Check.getpeername r e = ground arith
failed-Succeeds Check.getsockname r e = ground arith
failed-Succeeds Check.getsockopt r e = ground arith
failed-Succeeds Check.inetpton r e = ground arith
failed-Succeeds Check.listen r e = ground arith
failed-Succeeds Check.mkfifo r e = ground arith
failed-Succeeds Check.mq_close r e = ground arith
failed-Succeeds Check.mq_open r e = ground arith
failed-Succeeds Check.mq_receive r e = ground arith
failed-Succeeds Check.mq_send r e = ground arith
failed-Succeeds Check.mq_unlink r e = ground arith
failed-Succeeds Check.open_call r e = ground arith
failed-Succeeds Check.optinfo r e = ground arith
failed-Succeeds Check.peeloff r e = ground arith
failed-Succeeds Check.pipe r e = ground arith
failed-Succeeds Check.prctl r e = ground arith
failed-Succeeds Check.read r e = ground arith
failed-Succeeds Check.receive r e = ground arith
failed-Succeeds Check.remove r e = ground arith
failed-Succeeds Check.select r e = ground arith
failed-Succeeds Check.semgetvalue r e = ground arith
failed-Succeeds Check.seminit r e = ground arith
failed-Succeeds Check.sempost r e = ground arith
failed-Succeeds Check.semtrywait r e = ground arith
failed-Succeeds Check.send r e = ground arith
failed-Succeeds Check.setsockopt r e = ground arith
failed-Succeeds Check.shmdt r e = ground arith
failed-Succeeds Check.shmget r e = ground arith
failed-Succeeds Check.shmopen r e = ground arith
failed-Succeeds Check.socket r e = ground arith
failed-Succeeds Check.socketpair r e = ground arith
failed-Succeeds Check.truncate r e = ground arith
failed-Succeeds Check.write r e = ground arith
failed-Succeeds Check.wsa_startup r e = ground arith
failed-Succeeds Check.inetntop r e = ground arith
failed-Succeeds Check.mmap r e = ground arith
failed-Succeeds Check.semopen r e = ground arith
failed-Succeeds Check.shmat r e = ground arith
