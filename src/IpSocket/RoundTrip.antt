-- ===== src/IpSocket/RoundTrip.antt =====
-- IPSocket.c: there and back again.
use sctp_sandbox_c.Base.{ℕ, ◌<◌, ◌≡◌, refl, List, some, pos, arith}
use sctp_sandbox_c.Errors.{Check, failed}
use sctp_sandbox_c.Os.{Env, IpSocket, ok, ◌>>=◌, History}
use sctp_sandbox_c.Os.Laws.{IsLawful, check_passes}
use sctp_sandbox_c.IpSocket.{htons, sockaddr_storage_to_ip_socket, ip_socket_to_sockaddr_storage}

-- The change of byte order is its own inverse on numbers of 16 bits.
pub htons-htons : (p : ℕ) → p < 65536 → htons (htons p) ≡ p
unfolding htons
htons-htons p h = omega arith

module _ (env : Env) (L : IsLawful env) where
  -- An address with a port below 65536, whose text inet_pton takes and inet_ntop gives back, is the
  -- same after its translation to a sockaddr and back.
  pub sockaddr_storage_to_ip_socket_lem :
      (s : IpSocket) (ip : List ℕ) (h : History)
      → s.port < 65536
      → env.pton s.family s.addr ≡ (pos 1, ip)
      → env.ntop s.family ip ≡ some s.addr
      → (ip_socket_to_sockaddr_storage env s >>= sockaddr_storage_to_ip_socket env) h ≡ ok s h
  unfolding ip_socket_to_sockaddr_storage sockaddr_storage_to_ip_socket failed
  sockaddr_storage_to_ip_socket_lem s ip h range stored text = ground (
    arith,
    check_passes env L Check.inetpton (pos 1) 0 h refl,
    check_passes env L Check.inetntop (pos 1) 0 h refl,
    htons-htons s.port,
  )
