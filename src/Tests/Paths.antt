-- ===== src/Tests/Paths.antt =====
-- A Unix socket that has met nobody, on the machine of Tests: it connects, two write, and one quits.
use sctp_sandbox_c.Base.{ℕ, refl, List, [], ◌∷◌, pos, arith}
use sctp_sandbox_c.Protocol.{unix, is_udp}
use sctp_sandbox_c.Os.{Reply}
use sctp_sandbox_c.Peers.{Socket, no_peer, quit_msg}
use sctp_sandbox_c.Peers.Matching.{matching}
use sctp_sandbox_c.UnixSocket.Paths.{Paths, Event, message, connection, serve_each, react_each}
use sctp_sandbox_c.UnixSocket.Paths.Represents.{Represents}
use sctp_sandbox_c.UnixSocket.Paths.Refinement.{Simulates, AreUsable, run_paths-Simulates}
use sctp_sandbox_c.Tests.{machine, machine-IsLawful, answer, joined, no_peers}

abbrev from_path : Reply → List ℕ → Reply
from_path r path = record r { from = record (r.from) { sun_path = path } }

abbrev hello : Reply
hello = record answer { result = pos 2; bytes = b'h' ∷ b'i' ∷ [] }

abbrev quits : Reply
quits = record answer { result = pos 1; bytes = quit_msg }

abbrev mme : List ℕ
mme = b'm' ∷ b'm' ∷ b'e' ∷ []

abbrev enb : List ℕ
enb = b'e' ∷ b'n' ∷ b'b' ∷ []

abbrev unmet : Socket
unmet = record (joined unix) { peers = no_peer ∷ no_peers; peer_count = 0 }

abbrev no_paths : Paths
no_paths = record { entries = λ path. 0; taken = 0 }

unmet-Represents : Represents machine unmet [] no_paths
unfolding is_udp matching
unmet-Represents = record {
  valid = record { table = refl; count = omega arith };
  connected = refl;
  taken = refl;
  entries = λ path l. refl;
}

abbrev messages : List Event
messages =
    connection mme
    ∷ message (from_path hello mme)
    ∷ message (from_path hello enb)
    ∷ message (from_path quits mme)
    ∷ []

messages-AreUsable : AreUsable messages
messages-AreUsable = (
  (omega arith, omega arith),
  (
    (refl, omega arith, (omega arith, (omega arith, tt)), (omega arith, omega arith)),
    (
      (refl, omega arith, (omega arith, (omega arith, tt)), (omega arith, omega arith)),
      ((refl, omega arith, (omega arith, tt), (omega arith, omega arith)), tt),
    ),
  ),
)

run_paths-Simulates_example :
    Simulates machine (react_each machine unmet messages []) (serve_each machine no_paths messages)
run_paths-Simulates_example =
    run_paths-Simulates machine machine-IsLawful messages unmet no_paths [] unmet-Represents
      messages-AreUsable
