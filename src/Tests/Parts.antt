-- ===== src/Tests/Parts.antt =====
-- The parts that sockets are made of, at concrete inputs.
use sctp_sandbox_c.Base.{
  List, ℕ, ◌≡◌, ◌↔◌, ◌⊎◌, refl, Bool, false, [], ◌∷◌, ◌++◌, pos, negsuc, arith, take, ◌==◌, ◌||◌,
}
use sctp_sandbox_c.Errors.{Check, failed, eintr, einprogress}
use sctp_sandbox_c.Errors.Classes.{kind, failed-Succeeds}
use sctp_sandbox_c.Os.{ok, ◌>>=◌}
use sctp_sandbox_c.IpSocket.{ip_socket_to_sockaddr_storage, sockaddr_storage_to_ip_socket}
use sctp_sandbox_c.IpSocket.RoundTrip.{sockaddr_storage_to_ip_socket_lem}
use sctp_sandbox_c.FdSet.{FdSet, set_fd, select_loop, selected_fds_max_count}
use sctp_sandbox_c.FdSet.Select.{ready, Below, select_loop-take, set_fd-Below}
use sctp_sandbox_c.Peers.{Peer, find_peer, terminate_message, c_string}
use sctp_sandbox_c.Peers.Find.{Finds, find_peer-Finds}
use sctp_sandbox_c.Peers.Message.{terminate_message-c_string}
use sctp_sandbox_c.Protocol.{tcp}
use sctp_sandbox_c.Tests.{machine, machine-IsLawful, answer, remote, loopback, joined}

abbrev assoc_is : ℕ → Peer → Bool
assoc_is n p = p.assoc_id == n

find_peer-Finds_example :
    Finds (assoc_is 4) 1 (joined tcp).peers (find_peer (assoc_is 4) 1 (joined tcp).peers)
find_peer-Finds_example = find_peer-Finds (assoc_is 4) 1 (joined tcp).peers

abbrev odd : ℕ → Bool
odd n = n == 1 || n == 3

select_loop-take_example :
    select_loop odd 4 0 [] ≡ take selected_fds_max_count ([] ++ ready odd 4 0)
select_loop-take_example = select_loop-take odd 4 0 [] (omega arith)

abbrev one_fd : FdSet
one_fd = record { fds = 3 ∷ []; fd_max = 4; selected_fds = [] }

abbrev two_fds : FdSet
two_fds = record { fds = 6 ∷ 3 ∷ []; fd_max = 7; selected_fds = [] }

one_fd-set : set_fd one_fd (pos 6) [] ≡ ok two_fds []
unfolding set_fd
one_fd-set = refl

set_fd-Below_example :
    Below 7 (6 ∷ 3 ∷ []) × ((n : ℕ) × (pos 6 ≡ pos n) × (6 ∷ 3 ∷ [] ≡ n ∷ 3 ∷ []))
set_fd-Below_example = set_fd-Below one_fd two_fds (pos 6) [] [] (omega arith, tt) one_fd-set

sockaddr_storage_to_ip_socket_lem_example :
    (ip_socket_to_sockaddr_storage machine remote >>= sockaddr_storage_to_ip_socket machine) []
    ≡ ok remote []
sockaddr_storage_to_ip_socket_lem_example =
    sockaddr_storage_to_ip_socket_lem machine machine-IsLawful remote loopback [] (omega arith) refl
      refl

terminate_message-c_string_example :
    (buffer : List ℕ) × (terminate_message
        (joined tcp)
        (record answer { result = pos 1; bytes = b'x' ∷ [] })
        []
      ≡ ok (record (joined tcp) { msg_buffer = buffer }) [])
    × (c_string buffer ≡ b'x' ∷ [])
terminate_message-c_string_example =
    terminate_message-c_string (joined tcp) (record answer { result = pos 1; bytes = b'x' ∷ [] }) []
      refl (omega arith) (omega arith, tt)

failed-Succeeds_example :
    (failed Check.connect (negsuc 0) eintr ≡ false)
    ↔ ((negsuc 0 ≡ pos 0) ⊎ ((eintr ≡ einprogress) ⊎ (eintr ≡ eintr)))
unfolding kind
failed-Succeeds_example = failed-Succeeds Check.connect (negsuc 0) eintr
