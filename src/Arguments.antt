-- ===== src/Arguments.antt =====
-- NetworkConfiguration.c, NetworkConfiguration.h: the arguments of the program. Texts are C strings
-- without their final 0; argv is the list of all of them, the program's name first.
pub mod Bounds
pub mod Addresses
use sctp_sandbox_c.Base.{
  ℕ, zero, suc, ◌+◌, ◌-◌, ◌*◌, ◌%◌, ◌^◌, Bool, true, false, ◌&&◌, ◌||◌, ◌==◌, ltb, leb, List, [],
  ◌∷◌, map, length, set, replicate, ℤ, pos, negsuc, if◌then◌else◌,
}
use sctp_sandbox_c.Protocol.{NetworkProtocol, sctp, tcp, udp, udp_lite, dccp, unix, unix_forked}
use sctp_sandbox_c.Os.{Env, IpSocket, M, Fault, pure, fails, ◌>>=◌}
use sctp_sandbox_c.IpSocket.{IpSockets, no_ip_socket, create_ip_socket}
use sctp_sandbox_c.Peers.{first_byte}

abbrev pub max_ip_socket_count : ℕ
max_ip_socket_count = 4

abbrev pub protocol_buffer_size : ℕ
protocol_buffer_size = 20

pub record NetworkConfiguration : Type 0 where
  pub locals : IpSockets
  pub remotes : IpSockets
  pub protocol : NetworkProtocol
  pub path_mtu : ℤ
  pub max_seg : ℤ
  pub big_msg_size : ℕ

abbrev pub no_sockets : IpSockets
no_sockets = record { sockets = replicate max_ip_socket_count no_ip_socket; count = 0 }

-- The zeroed struct.
abbrev pub no_configuration : NetworkConfiguration
no_configuration = record {
  locals = no_sockets;
  remotes = no_sockets;
  protocol = sctp;
  path_mtu = pos 0;
  max_seg = pos 0;
  big_msg_size = 0;
}

-- `tolower` of the C locale.
abbrev to_lower : ℕ → ℕ
to_lower c = if leb b'A' c && leb c b'Z' then c + 32 else c

unfoldable pub string_to_lower : List ℕ → List ℕ
string_to_lower str = map to_lower str

abbrev is_digit : ℕ → Bool
is_digit c = leb b'0' c && leb c b'9'

-- The value of the digits that the text starts with, after those before them.
unfoldable pub digits : ℕ → List ℕ → ℕ
digits n [] = n
digits n (c ∷ str) = let more = digits (n * 10 + (c - b'0')) str in if is_digit c then more else n

abbrev pub negative : ℕ → ℤ
negative zero = pos 0
negative (suc n) = negsuc n

unfoldable pub signed : List ℕ → ℤ
unfolding digits
signed [] = pos 0
signed (c ∷ str) =
    if c == b'-'
    then negative (digits 0 str)
    else if c == b'+'
    then pos (digits 0 str)
    else pos (digits 0 (c ∷ str))

abbrev is_space : ℕ → Bool
is_space c = c == b' ' || (leb 9 c && leb c 13)

-- The number that `atoi` reads. Its conversion to an int is checked below.
unfoldable pub atoi : List ℕ → ℤ
unfolding signed
atoi [] = pos 0
atoi (c ∷ str) = let more = atoi str in if is_space c then more else signed (c ∷ str)

-- An int as an unsigned short.
unfoldable pub to_port : ℤ → ℕ
to_port (pos n) = n % 65536
to_port (negsuc n) = 65535 - n % 65536

-- An int as a `Size` of 64 bits.
unfoldable pub to_size : ℤ → ℕ
to_size (pos n) = n
to_size (negsuc n) = 2 ^ 64 - 1 - n

-- The values of an int of 32 bits.
unfoldable pub is_int : ℤ → Bool
is_int (pos n) = ltb n (2 ^ 31)
is_int (negsuc n) = ltb n (2 ^ 31)

-- What `atoi` returns: the behaviour is undefined where an int cannot hold the number.
unfoldable pub read_number : List ℕ → M ℤ
unfolding atoi is_int
read_number str = if is_int (atoi str) then pure (atoi str) else fails Fault.int_overflow

-- The next entry of the array that is being filled; behind its last entry is no room.
unfoldable pub fill_current : IpSockets → IpSocket → M IpSockets
fill_current s x =
    if ltb s.count max_ip_socket_count
    then pure (record { sockets = set s.sockets s.count x; count = s.count + 1 })
    else fails Fault.socket_overflow

module _ (env : Env) where
  unfoldable pub protocol_named : List ℕ → NetworkProtocol
  protocol_named str =
      if env.equals str (b't' ∷ b'c' ∷ b'p' ∷ [])
      then tcp
      else if env.equals str (b'u' ∷ b'd' ∷ b'p' ∷ [])
      then udp
      else if env.equals str (b'u' ∷ b'd' ∷ b'p' ∷ b'_' ∷ b'l' ∷ b'i' ∷ b't' ∷ b'e' ∷ [])
      then udp_lite
      else if env.equals str (b'd' ∷ b'c' ∷ b'c' ∷ b'p' ∷ [])
      then dccp
      else if env.equals str (b'u' ∷ b'n' ∷ b'i' ∷ b'x' ∷ [])
      then unix
      else if env.equals str (b'f' ∷ b'o' ∷ b'r' ∷ b'k' ∷ [])
      then unix_forked
      else sctp

  -- The copy into the buffer has one byte more than the text.
  unfoldable pub get_protocol : List ℕ → M NetworkProtocol
  unfolding protocol_named string_to_lower
  get_protocol str =
      if ltb (length str) protocol_buffer_size
      then pure (protocol_named (string_to_lower str))
      else fails Fault.protocol_overflow

  -- An option that takes the argument behind it, or another one; true for the latter.
  unfoldable pub read_option :
      NetworkConfiguration → (arg next : List ℕ) → M (NetworkConfiguration × Bool)
  unfolding get_protocol read_number to_size
  read_option ret arg next =
      if env.equals arg (b'-' ∷ b'p' ∷ [])
      then (get_protocol next >>= λ p. pure (record ret { protocol = p }, false))
      else if env.equals arg (b'-' ∷ b'm' ∷ b't' ∷ b'u' ∷ [])
      then (read_number next >>= λ n. pure (record ret { path_mtu = n }, false))
      else if env.equals arg (b'-' ∷ b's' ∷ b'e' ∷ b'g' ∷ [])
      then (read_number next >>= λ n. pure (record ret { max_seg = n }, false))
      else if env.equals arg (b'-' ∷ b'm' ∷ b's' ∷ b'g' ∷ [])
      then (read_number next >>= λ n. pure (record ret { big_msg_size = to_size n }, false))
      else pure (ret, true)

  -- `createIPSocket(arg, atoi(arg_next))`
  unfoldable pub new_socket : (arg next : List ℕ) → M IpSocket
  unfolding create_ip_socket read_number to_port
  new_socket arg next = read_number next >>= λ n. create_ip_socket env arg (to_port n)

  -- `filling_remotes` says where `filling` and `counter` point.
  unfoldable pub read_address :
      (filling_remotes : Bool) → NetworkConfiguration → (arg next : List ℕ) → M NetworkConfiguration
  unfolding fill_current new_socket
  read_address true ret arg next = new_socket arg next >>= λ x.
      fill_current ret.remotes x >>= λ s. pure (record ret { remotes = s })
  read_address false ret arg next = new_socket arg next >>= λ x.
      fill_current ret.locals x >>= λ s. pure (record ret { locals = s })

  -- The loop, from the current argument on: it ends at the last one.
  unfoldable pub read_arguments :
      (filling_remotes : Bool) → NetworkConfiguration → List (List ℕ) → M NetworkConfiguration
  unfolding read_option read_address
  read_arguments r ret [] = pure ret
  read_arguments r ret (arg ∷ []) = pure ret
  read_arguments r ret (arg ∷ next ∷ rest) =
      let skip_two = λ (c : NetworkConfiguration). read_arguments r c rest in
      let skip_one = λ (c : NetworkConfiguration).
        read_arguments (r || env.equals arg (b'-' ∷ b'r' ∷ [])) c (next ∷ rest) in
      if first_byte arg == b'-'
      then (read_option ret arg next >>= λ o. if o.1 then skip_one o.0 else skip_two o.0)
      else (read_address r ret arg next >>= skip_two)

  unfoldable pub create_network_configuration : List (List ℕ) → M NetworkConfiguration
  unfolding read_arguments
  create_network_configuration [] = pure no_configuration
  create_network_configuration (name ∷ args) = read_arguments false no_configuration args
