-- ===== src/Tests/Forks.antt =====
-- A parent and a child on the machine of Tests, which answers fork as the child sees it.
use sctp_sandbox_c.Base.{◌==ℤ◌, if◌then◌else◌, ◌≡◌, refl, List, [], ◌∷◌, pos, negsuc, ℕ}
use sctp_sandbox_c.Protocol.{unix_forked}
use sctp_sandbox_c.Errors.{failed}
use sctp_sandbox_c.Os.{Env, Call, Reply, exited, ◌>>=◌}
use sctp_sandbox_c.Os.Laws.{IsLawful}
use sctp_sandbox_c.Forked.{send_socket_unix_forked}
use sctp_sandbox_c.Peers.{Socket}
use sctp_sandbox_c.Forked.Setup.{fork_socket}
use sctp_sandbox_c.Forked.Pairs.{parent_ends, child_calls, IsChild}
use sctp_sandbox_c.Forked.Traffic.{fork_socket-child_sends}
use sctp_sandbox_c.Tests.{machine, answering, answering-IsLawful, replies, answer, joined}

machine-IsChild : IsChild machine []
unfolding failed
machine-IsChild = record { forked = refl; passes = refl; alive = refl }

abbrev hi : List ℕ
hi = b'h' ∷ b'i' ∷ []

-- A machine on which 5 is the end of a pipe that is read from.
abbrev refused : Call → Reply
refused (Call.write fd msg) = record answer { result = if fd ==ℤ pos 5 then negsuc 0 else pos 2 }
refused c = replies c

abbrev read_only : Env
read_only = answering (λ c h. refused c) (λ a b. pos 0)

read_only-IsLawful : IsLawful read_only
read_only-IsLawful = answering-IsLawful _ _

read_only-IsChild : IsChild read_only []
unfolding failed
read_only-IsChild = record { forked = refl; passes = refl; alive = refl }

fork_socket-child_sends_example :
    (status : ℕ) × ((fork_socket read_only
            (joined unix_forked)
            (pos 3, pos 4)
            (pos 5, pos 6)
            (pos 7, pos 8)
          >>= λ t. send_socket_unix_forked read_only t hi)
        []
      ≡ exited status (
          Call.write (pos 5) hi
          ∷ Call.send (pos 3) hi
          ∷ child_calls (pos 3, pos 4) (pos 5, pos 6) (pos 7, pos 8) []))
fork_socket-child_sends_example =
    fork_socket-child_sends read_only read_only-IsLawful (joined unix_forked) (pos 3, pos 4)
      (pos 5, pos 6) (pos 7, pos 8) hi [] read_only-IsChild (λ h. refl) λ h. refl

-- A machine that shuffles five indexes.
abbrev shuffled : Call → Reply
shuffled (Call.shuffled_indexes n) = record answer { numbers = 3 ∷ 1 ∷ 4 ∷ 0 ∷ 2 ∷ [] }
shuffled c = replies c

abbrev shuffling : Env
shuffling = answering (λ c h. shuffled c) (λ a b. pos 0)

-- The parent's socket after the fork.
abbrev parent : Socket
parent = parent_ends (joined unix_forked) (pos 3, pos 4) (pos 5, pos 6) (pos 7, pos 8)
