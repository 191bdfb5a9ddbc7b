-- ===== src/Arguments/Bounds.antt =====
-- NetworkConfiguration.c: the arrays of four addresses, and the two buffers that arguments overflow.
use sctp_sandbox_c.Base.{◌≤◌, ◌≡◌, refl, length, arith}
use sctp_sandbox_c.Os.{IpSocket, Fault}
use sctp_sandbox_c.Os.Ensures.{Ensures}
use sctp_sandbox_c.IpSocket.{IpSockets}
use sctp_sandbox_c.Arguments.{NetworkConfiguration, max_ip_socket_count, no_sockets}

-- The undefined behaviour that arguments can lead to: the name of a protocol that overflows its
-- buffer, a fifth address, an address whose memory ends before the bytes that are copied, one whose
-- copy has no end, and a number that an int does not hold.
pub data Overflows : Fault → Type 0 where
  protocols : Overflows Fault.protocol_overflow
  sockets : Overflows Fault.socket_overflow
  overread : Overflows Fault.text_overread
  endless : Overflows Fault.unterminated
  numbers : Overflows Fault.int_overflow

pub record Fits (s : IpSockets) : Type 0 where
  pub array : length s.sockets ≡ max_ip_socket_count
  pub count : s.count ≤ max_ip_socket_count

-- Both arrays of a configuration.
pub record BothFit (c : NetworkConfiguration) : Type 0 where
  pub locals : Fits c.locals
  pub remotes : Fits c.remotes

pub no_sockets-Fits : Fits no_sockets
no_sockets-Fits = record { array = refl; count = omega arith }
