-- ===== src/IpSocket.antt =====
-- IPSocket.c, IPSocket.h: addresses as text with a port, and their translation to and from the
-- kernel's. A struct of the kernel is a record; an array of them that is handed over is its bytes.
pub mod RoundTrip
use sctp_sandbox_c.Base.{
  ℕ, zero, suc, ◌+◌, ◌*◌, ◌/◌, ◌%◌, Bool, not, List, [], ◌∷◌, Option, none, some, ℤ, pos, ◌==◌,
  ◌==ℤ◌, take, drop, replicate, length, ltb, ◌++◌, if◌then◌else◌,
}
use sctp_sandbox_c.Errors.{Check, failed}
use sctp_sandbox_c.Protocol.{af_inet, af_inet6, af_unix}
use sctp_sandbox_c.Os.{
  Env, IpSocket, Sockaddr, M, Fault, pure, fails, ◌>>=◌, ◌>>◌, check, History, Outcome,
}

-- `IPSockets`: the array and the count of entries in use.
pub record IpSockets : Type 0 where
  pub sockets : List IpSocket
  pub count : ℕ

-- The entries that a loop up to `count` visits.
abbrev pub listed : IpSockets → List IpSocket
listed s = take s.count s.sockets

-- A zeroed IPSocket.
abbrev pub no_ip_socket : IpSocket
no_ip_socket = record { addr = []; port = 0; family = 0 }

abbrev head_or : List IpSocket → IpSocket
head_or [] = no_ip_socket
head_or (s ∷ r) = s

-- `sockets[0]`
abbrev pub first_socket : IpSockets → IpSocket
first_socket s = head_or s.sockets

-- The bytes of an `IP`.
abbrev pub ip_addr_size : ℕ
ip_addr_size = 46

-- Host and network order of a 16-bit number differ, as on x86.
unfoldable pub htons : ℕ → ℕ
htons p = p % 256 * 256 + p / 256 % 256

abbrev pub ntohs : ℕ → ℕ
ntohs = htons

unfoldable pub is_ipv6 : IpSocket → Bool
is_ipv6 s = s.family == af_inet6

unfoldable pub sizeof_sockaddr : IpSocket → ℕ
unfolding is_ipv6
sizeof_sockaddr s = if is_ipv6 s then 28 else 16

-- The two bytes of a short as x86 stores it, and the short that they are.
abbrev pub le16 : ℕ → List ℕ
le16 n = n % 256 ∷ n / 256 % 256 ∷ []

abbrev pub read_le16 : List ℕ → ℕ
read_le16 (a ∷ b ∷ bytes) = a + b * 256
read_le16 bytes = 0

-- sockaddr_in6: family, port, flowinfo, address, scope; sockaddr_in: family, port, address, zeros.
unfoldable pub sockaddr_bytes : Sockaddr → List ℕ
sockaddr_bytes a =
    le16 a.ss_family
    ++ (le16 a.port
        ++ (if a.ss_family == af_inet6
            then replicate 4 0 ++ (a.sin6_addr ++ replicate 4 0)
            else a.sin_addr ++ replicate 8 0))

-- The bytes read as a sockaddr of either kind.
unfoldable pub read_sockaddr : List ℕ → Sockaddr
read_sockaddr bytes = record {
  ss_family = read_le16 bytes;
  port = read_le16 (drop 2 bytes);
  sin_addr = take 4 (drop 4 bytes);
  sin6_addr = take 16 (drop 8 bytes);
  sun_path = [];
}

module _ (env : Env) where
  unfoldable pub is_family : List ℕ → ℕ → Bool
  is_family addr family = not (failed Check.inetpton (env.pton family addr).0 0)

  unfoldable pub detect_family : List ℕ → ℕ
  unfolding is_family
  detect_family addr =
      if is_family addr af_inet
      then af_inet
      else if is_family addr af_inet6
      then af_inet6
      else af_unix

  -- 46 bytes are copied from the start of a text, where `extent` bytes can be read. The copy of a
  -- text of 46 bytes or more has no end, so that its first use runs on behind it.
  unfoldable pub create_ip_socket : List ℕ → ℕ → M IpSocket
  unfolding detect_family
  create_ip_socket addr port =
      if ltb (env.extent addr) ip_addr_size
      then fails Fault.text_overread
      else if ltb (length addr) ip_addr_size
      then pure (record { addr = addr; port = port; family = detect_family addr })
      else fails Fault.unterminated

  -- A NULL result of inet_ntop leaves the text unset.
  unfoldable pub ntop_text : Option (List ℕ) → M (List ℕ)
  ntop_text none = do check env Check.inetntop (pos 0) 0; fails Fault.uninitialised
  ntop_text (some text) = do check env Check.inetntop (pos 1) 0; pure text

  unfoldable pub sockaddr_storage_to_ip_socket : Sockaddr → M IpSocket
  unfolding ntop_text is_ipv6
  sockaddr_storage_to_ip_socket a = do
    let ret : IpSocket = record { addr = []; port = ntohs a.port; family = a.ss_family }
    let sin_addr = if is_ipv6 ret then a.sin6_addr else a.sin_addr
    addr ← ntop_text (env.ntop a.ss_family sin_addr)
    pure (record ret { addr = addr })

  -- What inet_pton stored: nothing is, unless it returns 1.
  abbrev pton_stored : ℤ × List ℕ → List ℕ
  pton_stored r = if r.0 ==ℤ pos 1 then r.1 else []

  unfoldable pub ip_socket_to_sockaddr_storage : IpSocket → M Sockaddr
  unfolding is_ipv6
  ip_socket_to_sockaddr_storage s = do
    let r = env.pton s.family s.addr
    check env Check.inetpton r.0 0
    pure (record {
      ss_family = s.family;
      port = htons s.port;
      sin_addr = if is_ipv6 s then [] else pton_stored r;
      sin6_addr = if is_ipv6 s then pton_stored r else [];
      sun_path = [];
    })

  -- The packed array: of each sockaddr as many bytes as its kind has.
  unfoldable pub ip_sockets_to_sockaddrs : List IpSocket → M (List ℕ)
  unfolding sizeof_sockaddr
  ip_sockets_to_sockaddrs [] = pure []
  ip_sockets_to_sockaddrs (s ∷ rest) =
      let more = ip_sockets_to_sockaddrs rest in
      do
        a ← ip_socket_to_sockaddr_storage s
        others ← more
        pure (take (sizeof_sockaddr s) (sockaddr_bytes a) ++ others)
