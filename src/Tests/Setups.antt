-- ===== src/Tests/Setups.antt =====
-- Arguments, Unix datagrams and clean-ups on the machines of Tests.
use sctp_sandbox_c.Base.{
  ℕ, ◌≤◌, ◌<◌, ◌≡◌, ◌↔◌, refl, true, false, List, [], ◌∷◌, ◌++◌, none, pos, inl, arith,
}
use sctp_sandbox_c.Protocol.{is_udp, tcp, unix}
use sctp_sandbox_c.Os.{Fault, fault, ok, Call}
use sctp_sandbox_c.Os.Ensures.{Ensures}
use sctp_sandbox_c.Peers.{first_byte, c_string, quit_msg, path_max_length, peers_max_count}
use sctp_sandbox_c.UnixSocket.{handle_comm_up_unix, find_peer_by_path, delivered_unix}
use sctp_sandbox_c.UnixSocket.Laws.{handle_comm_up_unix-overflow, delivered_unix-null}
use sctp_sandbox_c.Dispatch.{clean_up_socket}
use sctp_sandbox_c.Dispatch.CleanUp.{taken_down, clean_up_socket-closed}
use sctp_sandbox_c.Arguments.{atoi, is_int, create_network_configuration}
use sctp_sandbox_c.Arguments.Addresses.{
  IsAddress, AreAddresses, flat, create_network_configuration-overflow,
}
use sctp_sandbox_c.Tests.{machine, joined, joined-IsValid, same_text}

abbrev path : List ℕ
path = b'a' ∷ b'b' ∷ []

abbrev long_path : List ℕ
long_path = b'a' ∷ b'b' ∷ b'c' ∷ b'd' ∷ b'e' ∷ b'f' ∷ b'g' ∷ b'h' ∷ b'i' ∷ b'j' ∷ []

unix_is_stream : is_udp unix ≡ false
unfolding is_udp
unix_is_stream = refl

handle_comm_up_unix-overflow_example :
    (handle_comm_up_unix (joined unix) long_path [] ≡ fault Fault.path_overflow)
    ↔ ((1 < peers_max_count) × (path_max_length ≤ 10))
handle_comm_up_unix-overflow_example =
    handle_comm_up_unix-overflow (joined unix) long_path [] (joined-IsValid unix)

delivered_unix-null_example :
    (delivered_unix machine (joined unix) path [] ≡ fault Fault.null_peer) ↔ (
      (same_text (c_string (joined unix).msg_buffer) quit_msg ≡ true)
      × (find_peer_by_path machine (joined unix) path ≡ none))
delivered_unix-null_example = delivered_unix-null machine (joined unix) path [] unix_is_stream

clean_up_socket-closed_example :
    clean_up_socket machine (joined tcp) []
    ≡ ok tt (taken_down (Call.close (pos 5) ∷ Call.close (pos 8) ∷ []))
clean_up_socket-closed_example = clean_up_socket-closed machine (joined tcp) [] (inl refl) refl

abbrev name : List ℕ
name = b's' ∷ []

abbrev one : List (List ℕ × List ℕ)
one = (b':' ∷ b':' ∷ b'1' ∷ [], b'8' ∷ b'0' ∷ []) ∷ []

abbrev five : List (List ℕ × List ℕ)
five =
    (b':' ∷ [], b'1' ∷ [])
    ∷ (b':' ∷ [], b'2' ∷ [])
    ∷ (b':' ∷ [], b'3' ∷ [])
    ∷ (b':' ∷ [], b'4' ∷ [])
    ∷ (b':' ∷ [], b'5' ∷ [])
    ∷ []

-- An address whose text is a colon, with a port of one digit.
colon-IsAddress :
    (digit : ℕ) → is_int (atoi (digit ∷ [])) ≡ true → IsAddress machine (b':' ∷ [], digit ∷ [])
unfolding first_byte
colon-IsAddress digit fits = record { plain = refl; short = refl; readable = refl; number = fits }

five-AreAddresses : AreAddresses machine five
unfolding atoi is_int
five-AreAddresses = (
  colon-IsAddress b'1' refl,
  (
    colon-IsAddress b'2' refl,
    (colon-IsAddress b'3' refl, (colon-IsAddress b'4' refl, (colon-IsAddress b'5' refl, tt))),
  ),
)

create_network_configuration-overflow_example :
    create_network_configuration machine (name ∷ (flat five ++ [])) [] ≡ fault Fault.socket_overflow
create_network_configuration-overflow_example =
    create_network_configuration-overflow machine name five [] [] five-AreAddresses (omega arith)
