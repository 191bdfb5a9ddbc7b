-- ===== src/Tests.antt =====
-- A machine that answers every call, and runs of the program on it: each theorem that has hypotheses
-- is applied where they hold.
pub mod Rounds
pub mod Messages
pub mod Parts
pub mod Setups
pub mod Runs
pub mod Lives
pub mod Notifications
pub mod Forks
pub mod Connections
pub mod Paths
use sctp_sandbox_c.Base.{
  ℕ, ◌==ℤ◌, zero, suc, ◌≡◌, ◌≢◌, ◌↔◌, refl, Bool, true, false, ◌&&◌, ◌==◌, List, [], ◌∷◌, Option,
  none, some, ℤ, pos, negsuc, if◌then◌else◌, ==_iff, arith, get_elem?, inl, inr,
}
use sctp_sandbox_c.Errors.{Check, failed}
use sctp_sandbox_c.Protocol.{NetworkProtocol, tcp, udp, sctp, unix, af_inet, af_unspec}
use sctp_sandbox_c.Os.{Env, Call, Reply, History, Sockaddr, Notification, IpSocket, Task}
use sctp_sandbox_c.Os.Laws.{IsLawful}
use sctp_sandbox_c.Bind.Packed.{Translates}
use sctp_sandbox_c.Peers.{Peer, Socket, no_peer, no_forked, quit_msg}
use sctp_sandbox_c.Peers.Table.{IsValid}

unfoldable pub same_text : List ℕ → List ℕ → Bool
same_text [] [] = true
same_text [] (b ∷ bs) = false
same_text (a ∷ aa) [] = false
same_text (a ∷ aa) (b ∷ bs) = a == b && same_text aa bs

same_text_iff : (a b : List ℕ) → (same_text a b ≡ true) ↔ (a ≡ b)
unfolding same_text
same_text_iff [] [] = ground arith
same_text_iff [] (b ∷ bs) = ground arith
same_text_iff (a ∷ aa) [] = ground arith
same_text_iff (a ∷ aa) (b ∷ bs) = ground (arith, same_text_iff aa bs)

unfoldable pub member : ℕ → List ℕ → Bool
member n [] = false
member n (x ∷ xs) = if n == x then true else member n xs

abbrev is_empty : List ℕ → Bool
is_empty [] = true
is_empty (b ∷ bytes) = false

is_empty_iff : (a : List ℕ) → (is_empty a ≡ true) ↔ (a ≡ [])
is_empty_iff [] = ground arith
is_empty_iff (b ∷ bytes) = ground arith

abbrev no_address : Sockaddr
no_address = record { ss_family = af_inet; port = 0; sin_addr = []; sin6_addr = []; sun_path = [] }

-- The answer to most calls.
abbrev pub answer : Reply
answer = record {
  result = pos 0;
  errno = 0;
  bytes = [];
  from = no_address;
  msg_flags = 0;
  notification = Notification.other 0;
  addresses = [];
  is_set = λ n. false;
  task = some 7;
  pair = (pos 3, pos 4);
  numbers = [];
  due = [];
  time = (0, 0);
}

abbrev pub replies : Call → Reply
replies (Call.select fds nfds timeout) = record answer {
  result = pos 1;
  is_set = λ n. member n fds;
}
replies (Call.recv fd size) = record answer { result = pos 2; bytes = b'h' ∷ b'i' ∷ [] }
replies (Call.accept fd) = record answer { result = pos 9 }
replies (Call.socket family type protocol) = record answer { result = pos 5 }
replies Call.getpid = record answer { result = pos 20 }
replies Call.getppid = record answer { result = pos 20 }
replies c = answer

-- The process ends with status 1 on a failure.
abbrev exit_on : Bool → Option ℕ
exit_on true = some 1
exit_on false = none

abbrev pub loopback : List ℕ
loopback = b':' ∷ b':' ∷ b'1' ∷ []

abbrev pub machine : Env
machine = record {
  reply = λ c h. replies c;
  check_exit = λ k result errno h. exit_on (failed k result errno);
  check_fgets = λ result h. exit_on (result ==ℤ pos 0);
  equals = same_text;
  empty = is_empty;
  extent = λ text. 4096;
  pton = λ family text. (pos 1, text);
  ntop = λ family ip. some ip;
  is_zero = λ t. t.0 == 0;
  compare_time = λ a b. pos 0;
}

pub machine-IsLawful : IsLawful machine
machine-IsLawful = record {
  passes = λ k result errno h e. rw e;
  stops = λ k result errno h e. (1, rw e);
  equals_iff = same_text_iff;
  empty_iff = is_empty_iff;
}

-- The machine with other answers and another clock.
abbrev pub answering : (Call → History → Reply) → (ℕ × ℕ → ℕ × ℕ → ℤ) → Env
answering answers compare_time = record machine { reply = answers; compare_time = compare_time }

pub answering-IsLawful :
    (answers : Call → History → Reply) (compare_time : ℕ × ℕ → ℕ × ℕ → ℤ)
    → IsLawful (answering answers compare_time)
answering-IsLawful answers compare_time = record {
  passes = machine-IsLawful.passes;
  stops = machine-IsLawful.stops;
  equals_iff = machine-IsLawful.equals_iff;
  empty_iff = machine-IsLawful.empty_iff;
}

-- A machine whose messages fill the whole buffer that is offered.
abbrev filling : Call → Reply
filling (Call.recv fd size) = record answer { result = pos size }
filling c = replies c

abbrev pub flood : Env
flood = record machine { reply = λ c h. filling c }

abbrev pub remote : IpSocket
remote = record { addr = loopback; port = 2000; family = af_inet }

abbrev pub other_remote : IpSocket
other_remote = record { addr = loopback; port = 2001; family = af_inet }

-- A peer with a descriptor, an association and two timers.
abbrev pub peer : Peer
peer = record no_peer {
  assoc_id = 4;
  fd = pos 8;
  remote = remote;
  should_reestablish = true;
  ping_task = some 1;
  comm_lost_task = some 2;
}

abbrev pub no_peers : List Peer
no_peers =
    no_peer ∷ no_peer ∷ no_peer ∷ no_peer ∷ no_peer ∷ no_peer ∷ no_peer ∷ no_peer ∷ no_peer ∷ []

-- One peer in the first of the ten entries.
abbrev pub joined : NetworkProtocol → Socket
joined p = record {
  fd = pos 5;
  family = af_inet;
  protocol = p;
  local = record remote { port = 0 };
  msg_buffer = b'h' ∷ b'i' ∷ 0 ∷ [];
  peers = peer ∷ no_peers;
  peer_count = 1;
  fd_set = record { fds = []; fd_max = 0; selected_fds = [] };
  forked = no_forked;
}

-- No entry is free.
abbrev pub full : NetworkProtocol → Socket
full p = record (joined p) { peer_count = 10 }

pub joined-IsValid : (p : NetworkProtocol) → IsValid (joined p)
joined-IsValid p = record { table = refl; count = omega arith }

-- A host whose address is its own text.
abbrev pub host : IpSocket
host = record { addr = 127 ∷ 0 ∷ 0 ∷ 1 ∷ []; port = 3905; family = af_inet }

abbrev pub host_translated :
    (answers : Call → History → Reply) (compare_time : ℕ × ℕ → ℕ × ℕ → ℤ)
    (L : IsLawful (answering answers compare_time))
    → Translates (answering answers compare_time) L host
host_translated answers compare_time L = record {
  ip = host.addr;
  size = refl;
  family = omega arith;
  port = omega arith;
  stores = refl;
  text = refl;
}
