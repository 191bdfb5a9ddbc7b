-- ===== src/Tests/Runs.antt =====
-- Runs of several steps on the machine of Tests: a UDP socket and its events, threads in `chat`, the
-- input, a packed array of addresses, and the start of the program.
use sctp_sandbox_c.Base.{
  ℕ, ◌≡◌, refl, true, false, Bool, List, [], ◌∷◌, ◌++◌, none, some, map, pos, arith,
}
use sctp_sandbox_c.Protocol.{is_udp, udp, af_inet, af_inet6}
use sctp_sandbox_c.Os.{Env, Call, Reply, IpSocket, ok, ◌>>=◌}
use sctp_sandbox_c.Peers.{Socket, no_peer, quit_msg, first_byte}
use sctp_sandbox_c.Peers.Matching.{matching}
use sctp_sandbox_c.Dispatch.Directory.{
  Directory, Event, datagram, connection, loss, serve_each, react_each,
}
use sctp_sandbox_c.Dispatch.Directory.Represents.{Represents}
use sctp_sandbox_c.Dispatch.Directory.Simulates.{Simulates, AreUsable}
use sctp_sandbox_c.Dispatch.Directory.Refinement.{react_each-Simulates}
use sctp_sandbox_c.Chat.Mutex.{Threads, at, Moves, Run, outside, entered, locked}
use sctp_sandbox_c.Chat.Atomic.{IsGuarded, Served, as_mailbox, Run-Served}
use sctp_sandbox_c.Chat.FirstCalls.{quiet-IsGuarded, two_inside-Run}
use sctp_sandbox_c.IpSocket.{ip_sockets_to_sockaddrs}
use sctp_sandbox_c.Bind.{log_each}
use sctp_sandbox_c.Bind.Packed.{Translates, AllTranslate, log_each-ip_sockets_to_sockaddrs}
use sctp_sandbox_c.Io.{cut_line, io_task}
use sctp_sandbox_c.Io.Posts.{posted_each, io_task-posts}
use sctp_sandbox_c.Arguments.{NetworkConfiguration, atoi, is_int}
use sctp_sandbox_c.Arguments.Addresses.{flat, socket_of, IsAddress}
use sctp_sandbox_c.IpSocket.{listed}
use sctp_sandbox_c.Main.{io, network, sigsegv, main_program}
use sctp_sandbox_c.Forked.Setup.{sigterm}
use sctp_sandbox_c.Main.Startup.{only_params, main_program-started}
use sctp_sandbox_c.Tests.{
  machine, machine-IsLawful, same_text, answer, remote, other_remote, joined, no_peers,
}

-- A socket that has met nobody, and its directory.
abbrev fresh : Socket
fresh = record (joined udp) { peers = no_peer ∷ no_peers; peer_count = 0 }

abbrev nobody : Directory
nobody = record { entries = λ q. 0; taken = 0 }

fresh-Represents : Represents machine fresh nobody
unfolding is_udp matching
fresh-Represents = record {
  valid = record { table = refl; count = omega arith };
  datagrams = refl;
  taken = refl;
  entries = λ q h. refl;
}

abbrev hi : Reply
hi = record answer { result = pos 2; bytes = b'h' ∷ b'i' ∷ [] }

abbrev quit : Reply
quit = record answer { result = pos 1; bytes = quit_msg }

-- A peer is connected, two write, one quits, and one is lost.
abbrev events : List Event
events =
    connection remote
    ∷ datagram hi remote
    ∷ datagram hi other_remote
    ∷ datagram quit remote
    ∷ loss other_remote
    ∷ []

events-AreUsable : AreUsable machine events
events-AreUsable = (
  omega arith,
  (
    (refl, omega arith, (omega arith, (omega arith, tt)), omega arith, refl),
    (
      (refl, omega arith, (omega arith, (omega arith, tt)), omega arith, refl),
      ((refl, omega arith, (omega arith, tt), omega arith, refl), (omega arith, tt)),
    ),
  ),
)

react_each-Simulates_example :
    Simulates machine (react_each machine fresh events []) (serve_each machine nobody events)
react_each-Simulates_example =
    react_each-Simulates machine machine-IsLawful (λ fd msg a h. refl) events fresh nobody []
      fresh-Represents events-AreUsable

-- Nobody is in `chat`; the mutex is made, or not.
abbrev quiet : Bool → Threads
quiet made = record { chat_msg = []; chat_mtx_init = made; held = false; phase = λ i. outside [] }

abbrev called : Threads
called = record (quiet true) { phase = at (quiet true).phase 3 (entered (some quit_msg)) }

called-Run : Run (quiet true) called
called-Run = Run.next 3 Run.here (Moves.calls (some quit_msg) [] refl refl)

Run-Served_example : IsGuarded called × Served (as_mailbox (quiet true)) (as_mailbox called)
Run-Served_example = Run-Served (quiet-IsGuarded (quiet true) refl (λ i. ([], refl))) called-Run

two_inside-Run_example :
    (t : Threads) × Run (quiet false) t × (t.phase 1 ≡ locked none) × (t.phase 2 ≡ locked none)
two_inside-Run_example =
    two_inside-Run (quiet false) 1 2 none none (omega arith) [] [] refl refl refl

abbrev given : Call → Reply
given (Call.fgets size) = record answer { result = pos 1; bytes = b'q' ∷ b'\n' ∷ [] }
given c = answer

-- Its input says quit.
abbrev typing : Env
typing = record machine { reply = λ c h. given c }

io_task-posts_example :
    io_task typing 3 [] [] ≡ ok (some quit_msg) (posted_each ((b'q' ∷ b'\n' ∷ []) ∷ []) [])
unfolding cut_line same_text
io_task-posts_example =
    io_task-posts typing [] (b'q' ∷ b'\n' ∷ []) [] 3 [] refl (refl, refl, tt) tt refl refl
      (omega arith)

abbrev v4 : IpSocket
v4 = record { addr = 127 ∷ 0 ∷ 0 ∷ 1 ∷ []; port = 80; family = af_inet }

abbrev v6 : IpSocket
v6 = record {
  addr = 0 ∷ 0 ∷ 0 ∷ 0 ∷ 0 ∷ 0 ∷ 0 ∷ 0 ∷ 0 ∷ 0 ∷ 0 ∷ 0 ∷ 0 ∷ 0 ∷ 0 ∷ 1 ∷ [];
  port = 36412;
  family = af_inet6;
}

v4-Translates : Translates machine machine-IsLawful v4
v4-Translates = record {
  ip = v4.addr;
  size = refl;
  family = omega arith;
  port = omega arith;
  stores = refl;
  text = refl;
}

v6-Translates : Translates machine machine-IsLawful v6
v6-Translates = record {
  ip = v6.addr;
  size = refl;
  family = omega arith;
  port = omega arith;
  stores = refl;
  text = refl;
}

mixed-AllTranslate : AllTranslate machine machine-IsLawful (v4 ∷ v6 ∷ v4 ∷ [])
mixed-AllTranslate = (v4-Translates, (v6-Translates, (v4-Translates, tt)))

log_each-ip_sockets_to_sockaddrs_example :
    (ip_sockets_to_sockaddrs machine (v4 ∷ v6 ∷ v4 ∷ []) >>= λ saddrs. log_each machine 3 saddrs) []
    ≡ ok (v4 ∷ v6 ∷ v4 ∷ []) []
log_each-ip_sockets_to_sockaddrs_example =
    log_each-ip_sockets_to_sockaddrs machine machine-IsLawful (v4 ∷ v6 ∷ v4 ∷ []) []
      mixed-AllTranslate

abbrev one : List ℕ × List ℕ
one = (b':' ∷ b':' ∷ b'1' ∷ [], b'8' ∷ b'0' ∷ [])

one-IsAddress : IsAddress machine one
unfolding first_byte atoi is_int
one-IsAddress = record { plain = refl; short = refl; readable = refl; number = refl }

main_program-started_example :
    (c : NetworkConfiguration) × (main_program machine
        ((b's' ∷ []) ∷ (flat (one ∷ []) ++ (b'-' ∷ b'r' ∷ []) ∷ flat (one ∷ [])))
        []
      ≡ ok
          (io ∷ network (only_params c) ∷ [])
          (Call.sigaction sigsegv ∷ Call.sigaction sigterm ∷ []))
    × (listed c.locals ≡ map (socket_of machine) (one ∷ []))
    × (listed c.remotes ≡ map (socket_of machine) (one ∷ []))
unfolding first_byte
main_program-started_example =
    main_program-started machine machine-IsLawful (b's' ∷ []) one [] (one ∷ []) []
      (one-IsAddress, tt) (one-IsAddress, tt) (omega arith) (omega arith)
