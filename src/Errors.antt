-- ===== src/Errors.antt =====
-- SocketErrorChecks.c and SocketErrorChecks.h: when a system call's result counts as a failure.
-- A result is an `int`; a pointer is read as its address, so that NULL is 0 and MAP_FAILED is -1.
-- The codes of errno are those of Linux.
pub mod Classes
use sctp_sandbox_c.Base.{
  ℕ, Bool, not, ◌&&◌, ◌||◌, ◌==◌, ℤ, pos, negsuc, ◌==ℤ◌, is_negative, is_nonzero,
}

-- One constructor for each check that the header generates.
pub data Check : Type 0 where
  accept bind connect fcntl fork getaddrs getpeername getsockname getsockopt : Check
  inetpton listen mkfifo mq_close mq_open mq_receive mq_send mq_unlink open_call : Check
  optinfo peeloff pipe prctl read receive remove select semgetvalue : Check
  seminit sempost semtrywait send setsockopt shmdt shmget shmopen socket : Check
  socketpair truncate write wsa_startup inetntop mmap semopen shmat : Check

abbrev pub eintr : ℕ
eintr = 4

abbrev pub enoent : ℕ
enoent = 2

abbrev pub eagain : ℕ
eagain = 11

abbrev pub einprogress : ℕ
einprogress = 115

-- `(void*)-1`
abbrev pub map_failed : ℤ
map_failed = negsuc 0

-- `(sem_t*)0`
abbrev pub sem_failed : ℤ
sem_failed = pos 0

abbrev failed_accept : ℤ → Bool
failed_accept result = is_negative result

abbrev failed_bind : ℤ → Bool
failed_bind result = is_nonzero result

abbrev failed_connect : ℤ → ℕ → Bool
failed_connect result errno = not (result ==ℤ pos 0 || errno == einprogress || errno == eintr)

abbrev failed_fcntl : ℤ → Bool
failed_fcntl result = result ==ℤ negsuc 0

abbrev failed_fork : ℤ → Bool
failed_fork result = is_negative result

abbrev failed_getaddrs : ℤ → Bool
failed_getaddrs result = is_negative result

abbrev failed_getpeername : ℤ → Bool
failed_getpeername result = is_nonzero result

abbrev failed_getsockname : ℤ → Bool
failed_getsockname result = is_nonzero result

abbrev failed_getsockopt : ℤ → Bool
failed_getsockopt result = is_nonzero result

abbrev failed_inetpton : ℤ → Bool
failed_inetpton result = not (result ==ℤ pos 1)

abbrev failed_listen : ℤ → Bool
failed_listen result = is_nonzero result

abbrev failed_mkfifo : ℤ → Bool
failed_mkfifo result = is_nonzero result

abbrev failed_mq_close : ℤ → Bool
failed_mq_close result = is_nonzero result

abbrev failed_mq_open : ℤ → Bool
failed_mq_open result = is_negative result

abbrev failed_mq_receive : ℤ → ℕ → Bool
failed_mq_receive result errno = is_negative result && not (errno == eagain)

abbrev failed_mq_send : ℤ → Bool
failed_mq_send result = is_nonzero result

abbrev failed_mq_unlink : ℤ → Bool
failed_mq_unlink result = is_nonzero result

abbrev failed_open : ℤ → Bool
failed_open result = is_negative result

abbrev failed_optinfo : ℤ → Bool
failed_optinfo result = is_nonzero result

abbrev failed_peeloff : ℤ → Bool
failed_peeloff result = is_negative result

abbrev failed_pipe : ℤ → Bool
failed_pipe result = is_nonzero result

abbrev failed_prctl : ℤ → Bool
failed_prctl result = result ==ℤ negsuc 0

abbrev failed_read : ℤ → ℕ → Bool
failed_read result errno = is_negative result && not (errno == eagain)

abbrev failed_receive : ℤ → Bool
failed_receive result = is_negative result

abbrev failed_remove : ℤ → ℕ → Bool
failed_remove result errno = is_nonzero result && not (errno == enoent)

abbrev failed_select : ℤ → Bool
failed_select result = is_negative result

abbrev failed_semgetvalue : ℤ → Bool
failed_semgetvalue result = is_nonzero result

abbrev failed_seminit : ℤ → Bool
failed_seminit result = is_nonzero result

abbrev failed_sempost : ℤ → Bool
failed_sempost result = is_nonzero result

abbrev failed_semtrywait : ℤ → ℕ → Bool
failed_semtrywait result errno = is_nonzero result && not (errno == eagain)

abbrev failed_send : ℤ → Bool
failed_send result = is_negative result

abbrev failed_setsockopt : ℤ → Bool
failed_setsockopt result = is_nonzero result

abbrev failed_shmdt : ℤ → Bool
failed_shmdt result = is_nonzero result

abbrev failed_shmget : ℤ → Bool
failed_shmget result = is_negative result

abbrev failed_shmopen : ℤ → Bool
failed_shmopen result = is_negative result

abbrev failed_socket : ℤ → Bool
failed_socket result = is_negative result

abbrev failed_socketpair : ℤ → Bool
failed_socketpair result = is_nonzero result

abbrev failed_truncate : ℤ → Bool
failed_truncate result = is_nonzero result

abbrev failed_write : ℤ → Bool
failed_write result = is_negative result

abbrev failed_wsa_startup : ℤ → Bool
failed_wsa_startup result = is_nonzero result

abbrev failed_inetntop : ℤ → Bool
failed_inetntop result = result ==ℤ pos 0

abbrev failed_mmap : ℤ → Bool
failed_mmap result = result ==ℤ map_failed

abbrev failed_semopen : ℤ → Bool
failed_semopen result = result ==ℤ sem_failed

abbrev failed_shmat : ℤ → Bool
failed_shmat result = result ==ℤ map_failed

-- The check that is made.
unfoldable pub failed : Check → ℤ → ℕ → Bool
failed accept r e = failed_accept r
failed bind r e = failed_bind r
failed connect r e = failed_connect r e
failed fcntl r e = failed_fcntl r
failed fork r e = failed_fork r
failed getaddrs r e = failed_getaddrs r
failed getpeername r e = failed_getpeername r
failed getsockname r e = failed_getsockname r
failed getsockopt r e = failed_getsockopt r
failed inetpton r e = failed_inetpton r
failed listen r e = failed_listen r
failed mkfifo r e = failed_mkfifo r
failed mq_close r e = failed_mq_close r
failed mq_open r e = failed_mq_open r
failed mq_receive r e = failed_mq_receive r e
failed mq_send r e = failed_mq_send r
failed mq_unlink r e = failed_mq_unlink r
failed open_call r e = failed_open r
failed optinfo r e = failed_optinfo r
failed peeloff r e = failed_peeloff r
failed pipe r e = failed_pipe r
failed prctl r e = failed_prctl r
failed read r e = failed_read r e
failed receive r e = failed_receive r
failed remove r e = failed_remove r e
failed select r e = failed_select r
failed semgetvalue r e = failed_semgetvalue r
failed seminit r e = failed_seminit r
failed sempost r e = failed_sempost r
failed semtrywait r e = failed_semtrywait r e
failed send r e = failed_send r
failed setsockopt r e = failed_setsockopt r
failed shmdt r e = failed_shmdt r
failed shmget r e = failed_shmget r
failed shmopen r e = failed_shmopen r
failed socket r e = failed_socket r
failed socketpair r e = failed_socketpair r
failed truncate r e = failed_truncate r
failed write r e = failed_write r
failed wsa_startup r e = failed_wsa_startup r
failed inetntop r e = failed_inetntop r
failed mmap r e = failed_mmap r
failed semopen r e = failed_semopen r
failed shmat r e = failed_shmat r
