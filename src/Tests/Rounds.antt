-- ===== src/Tests/Rounds.antt =====
-- Rounds and lives of sockets on the machine of Tests, for the theorems on Socket.c and NetworkTask.c.
use sctp_sandbox_c.Base.{ℕ, ◌≡◌, true, List, [], ◌∷◌, pos, arith}
use sctp_sandbox_c.Protocol.{tcp}
use sctp_sandbox_c.Os.Ensures.{Ensures}
use sctp_sandbox_c.Dispatch.Stream.{SelectNarrows, Within}
use sctp_sandbox_c.Network.{NetworkTaskParams}
use sctp_sandbox_c.Tests.{machine, member, remote}

member-Within : (n : ℕ) (xs : List ℕ) → member n xs ≡ true → Within n xs
unfolding member
member-Within n [] e = absurd (ground arith)
member-Within n (x ∷ xs) e = ground (arith, member-Within n xs)

pub machine-SelectNarrows : SelectNarrows machine
machine-SelectNarrows fds nfds timeout n h e = member-Within n fds e

abbrev pub params : NetworkTaskParams
params = record {
  config = record {
    locals = record { sockets = remote ∷ []; count = 1 };
    remotes = record { sockets = remote ∷ []; count = 1 };
    protocol = tcp;
    path_mtu = pos 0;
    max_seg = pos 0;
    big_msg_size = 0;
  };
  name = [];
  delay = (0, 0);
  lifetime = (3, 0);
}
