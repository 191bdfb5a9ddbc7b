-- ===== src/Protocol.antt =====
-- NetworkProtocol.c and NetworkProtocol.h: the protocols and what `socket` is given for them.
-- SocketIO.c: the names of families and path states. The constants are those of Linux.
use Prim.Native.String.{String}
use sctp_sandbox_c.Base.{ℕ, Bool, true, false, ◌==◌, if◌then◌else◌}

pub data NetworkProtocol : Type 0 where
  sctp tcp udp udp_lite dccp unix unix_forked : NetworkProtocol

unfoldable pub is_udp : NetworkProtocol → Bool
is_udp udp = true
is_udp udp_lite = true
is_udp _ = false

unfoldable pub is_unix : NetworkProtocol → Bool
is_unix unix = true
is_unix unix_forked = true
is_unix _ = false

abbrev pub sock_stream : ℕ
sock_stream = 1

abbrev pub sock_dgram : ℕ
sock_dgram = 2

abbrev pub sock_seqpacket : ℕ
sock_seqpacket = 5

abbrev pub sock_dccp : ℕ
sock_dccp = 6

abbrev pub ipproto_udplite : ℕ
ipproto_udplite = 136

unfoldable pub type_from_network_protocol : NetworkProtocol → ℕ
type_from_network_protocol tcp = sock_stream
type_from_network_protocol udp = sock_dgram
type_from_network_protocol udp_lite = sock_dgram
type_from_network_protocol unix = sock_dgram
type_from_network_protocol unix_forked = sock_dgram
type_from_network_protocol dccp = sock_dccp
type_from_network_protocol sctp = sock_seqpacket

unfoldable pub protocol_from_network_protocol : NetworkProtocol → ℕ
protocol_from_network_protocol udp_lite = ipproto_udplite
protocol_from_network_protocol _ = 0

abbrev pub af_unspec : ℕ
af_unspec = 0

abbrev pub af_unix : ℕ
af_unix = 1

abbrev pub af_inet : ℕ
af_inet = 2

abbrev pub af_inet6 : ℕ
af_inet6 = 10

unfoldable pub family_to_string : ℕ → String
family_to_string family =
    if family == af_inet
    then "AF_INET"
    else if family == af_inet6
    then "AF_INET6"
    else if family == af_unix
    then "AF_UNIX"
    else if family == af_unspec
    then "AF_UNSPEC"
    else "UNKNOWN"

-- `enum sctp_spinfo_state`; `other` is any other number.
pub data PathState : Type 0 where
  inactive pf active unconfirmed unknown : PathState
  other : ℕ → PathState

unfoldable pub status_to_string : PathState → String
status_to_string inactive = "SCTP_INACTIVE"
status_to_string pf = "SCTP_PF"
status_to_string active = "SCTP_ACTIVE"
status_to_string unconfirmed = "SCTP_UNCONFIRMED"
status_to_string unknown = "SCTP_UNKNOWN"
status_to_string (other n) = "UNKNOWN"
