-- ===== src/Bind/Packed.antt =====
-- IPSocket.c, SctpGetAddrs.c: packed arrays of sockaddrs, IPv4 and IPv6 mixed, and the loop over them.
use sctp_sandbox_c.Base.{
  ℕ, zero, suc, ◌<◌, ◌≡◌, refl, ap, List, [], ◌∷◌, ◌++◌, some, pos, ◌==◌, length, length-append,
  take, drop, replicate, Bool-cases, inl, inr, arith, if◌then◌else◌,
}
use mathlib.Core.List.{append_assoc}
use sctp_sandbox_c.Errors.{Check, failed}
use sctp_sandbox_c.Protocol.{af_inet6}
use sctp_sandbox_c.Os.{Env, IpSocket, Sockaddr, History, ok, ◌>>=◌}
use sctp_sandbox_c.Os.Laws.{IsLawful, check_passes}
use sctp_sandbox_c.IpSocket.{
  htons, is_ipv6, sizeof_sockaddr, le16, read_le16, sockaddr_bytes, read_sockaddr,
  sockaddr_storage_to_ip_socket, ip_socket_to_sockaddr_storage, ip_sockets_to_sockaddrs,
}
use sctp_sandbox_c.IpSocket.RoundTrip.{htons-htons}
use sctp_sandbox_c.Bind.{log_each}

take-length_append {ℓ} :
    {A : Type ℓ} (n : ℕ) (xs ys : List A) → length xs ≡ n → take n (xs ++ ys) ≡ xs
take-length_append zero [] ys e = refl
take-length_append zero (x ∷ xs) ys e = absurd (omega (arith, e))
take-length_append (suc n) [] ys e = absurd (omega (arith, e))
take-length_append (suc n) (x ∷ xs) ys e =
    ap (◌∷◌ x) (take-length_append n xs ys (omega (arith, e)))

drop-length_append {ℓ} :
    {A : Type ℓ} (n : ℕ) (xs ys : List A) → length xs ≡ n → drop n (xs ++ ys) ≡ ys
drop-length_append zero [] ys e = refl
drop-length_append zero (x ∷ xs) ys e = absurd (omega (arith, e))
drop-length_append (suc n) [] ys e = absurd (omega (arith, e))
drop-length_append (suc n) (x ∷ xs) ys e = drop-length_append n xs ys (omega (arith, e))

take-all {ℓ} : {A : Type ℓ} (n : ℕ) (xs : List A) → length xs ≡ n → take n xs ≡ xs
take-all zero [] e = refl
take-all zero (x ∷ xs) e = absurd (omega (arith, e))
take-all (suc n) [] e = refl
take-all (suc n) (x ∷ xs) e = ap (◌∷◌ x) (take-all n xs (omega (arith, e)))

read_le16-le16 : (n : ℕ) (rest : List ℕ) → n < 65536 → read_le16 (le16 n ++ rest) ≡ n
read_le16-le16 n rest h = omega arith

-- What is stored for an address with these bytes.
abbrev pub stored : IpSocket → List ℕ → Sockaddr
stored s ip = record {
  ss_family = s.family;
  port = htons s.port;
  sin_addr = if s.family == af_inet6 then [] else ip;
  sin6_addr = if s.family == af_inet6 then ip else [];
  sun_path = [];
}

-- The number of bytes of an address.
abbrev pub sizeof_addr : IpSocket → ℕ
sizeof_addr s = if s.family == af_inet6 then 16 else 4

sockaddr_bytes-length :
    (s : IpSocket) (ip : List ℕ)
    → length ip ≡ sizeof_addr s
    → length (sockaddr_bytes (stored s ip)) ≡ sizeof_sockaddr s
unfolding sockaddr_bytes sizeof_sockaddr is_ipv6
sockaddr_bytes-length s ip e = elim (Bool-cases (s.family == af_inet6)) [
  | inl six ↦ rw six (omega (arith, length-append {0} ip (replicate 4 0), rw six at e))
  | inr four ↦ rw four (omega (arith, length-append {0} ip (replicate 8 0), rw four at e))
]

-- The address of the kind that the family says.
abbrev addr_of : IpSocket → Sockaddr → List ℕ
addr_of s a = if s.family == af_inet6 then a.sin6_addr else a.sin_addr

-- What is read of packed bytes, whatever lies behind them.
module _ (s : IpSocket) (ip rest : List ℕ) (size : length ip ≡ sizeof_addr s) where
  read_family :
      s.family < 65536 → (read_sockaddr (sockaddr_bytes (stored s ip) ++ rest)).ss_family ≡ s.family
  unfolding read_sockaddr sockaddr_bytes
  read_family small = omega arith

  htons-lt : htons s.port < 65536
  unfolding htons
  htons-lt = omega arith

  read_port : (read_sockaddr (sockaddr_bytes (stored s ip) ++ rest)).port ≡ htons s.port
  unfolding read_sockaddr sockaddr_bytes
  read_port = omega (arith, htons-lt)

  read_addr : addr_of s (read_sockaddr (sockaddr_bytes (stored s ip) ++ rest)) ≡ ip
  unfolding read_sockaddr sockaddr_bytes
  read_addr = elim (Bool-cases (s.family == af_inet6)) [
    | inl six ↦
        rw (six, append_assoc) (take-length_append 16 ip (replicate 4 0 ++ rest) (rw six at size))
    | inr four ↦
        rw (four, append_assoc) (take-length_append 4 ip (replicate 8 0 ++ rest) (rw four at size))
  ]

module _ (env : Env) (L : IsLawful env) where
  -- The bytes that inet_pton stores for an address, and the text that inet_ntop gives back.
  pub record Translates (s : IpSocket) : Type 0 where
    pub ip : List ℕ
    pub size : length ip ≡ sizeof_addr s
    pub family : s.family < 65536
    pub port : s.port < 65536
    pub stores : env.pton s.family s.addr ≡ (pos 1, ip)
    pub text : env.ntop s.family ip ≡ some s.addr

  to_sockaddr :
      (s : IpSocket) (h : History) (t : Translates s)
      → ip_socket_to_sockaddr_storage env s h ≡ ok (stored s t.ip) h
  unfolding ip_socket_to_sockaddr_storage is_ipv6 failed
  to_sockaddr s h t = ground (arith, check_passes env L Check.inetpton (pos 1) 0 h refl, t.stores)

  from_sockaddr :
      (s : IpSocket) (a : Sockaddr) (h : History) (t : Translates s)
      → a.ss_family ≡ s.family
      → a.port ≡ htons s.port
      → addr_of s a ≡ t.ip
      → sockaddr_storage_to_ip_socket env a h ≡ ok s h
  unfolding sockaddr_storage_to_ip_socket is_ipv6 failed
  from_sockaddr s a h t family port addr = ground (
    arith,
    check_passes env L Check.inetntop (pos 1) 0 h refl,
    htons-htons s.port,
    t.text,
    t.port,
  )

  pub sender_lem :
      (s : IpSocket) (h : History) (t : Translates s)
      → sockaddr_storage_to_ip_socket env (stored s t.ip) h ≡ ok s h
  sender_lem s h t = from_sockaddr s (stored s t.ip) h t refl refl (ground arith)

  abbrev pub AllTranslate : List IpSocket → Type 0
  AllTranslate [] = Unit {0}
  AllTranslate (s ∷ sockets) = Translates s × AllTranslate sockets

  unfoldable pub packed : (sockets : List IpSocket) → AllTranslate sockets → List ℕ
  packed [] ts = []
  packed (s ∷ sockets) (t, ts) = sockaddr_bytes (stored s t.ip) ++ packed sockets ts

  ip_sockets_to_sockaddrs_lem :
      (sockets : List IpSocket) (h : History) (ts : AllTranslate sockets)
      → ip_sockets_to_sockaddrs env sockets h ≡ ok (packed sockets ts) h
  unfolding ip_sockets_to_sockaddrs packed
  ip_sockets_to_sockaddrs_lem [] h ts = refl
  ip_sockets_to_sockaddrs_lem (s ∷ sockets) h (t, ts) =
      rw
        (
          to_sockaddr s h t,
          ip_sockets_to_sockaddrs_lem sockets h ts,
          take-all (sizeof_sockaddr s) (sockaddr_bytes (stored s t.ip))
              (sockaddr_bytes-length s t.ip t.size),
        )
        refl

  pub log_each-packed :
      (sockets : List IpSocket) (h : History) (ts : AllTranslate sockets)
      → log_each env (length sockets) (packed sockets ts) h ≡ ok sockets h
  unfolding log_each packed
  log_each-packed [] h ts = refl
  log_each-packed (s ∷ sockets) h (t, ts) =
      let rest = packed sockets ts in
      rw
        (
          from_sockaddr s (read_sockaddr (sockaddr_bytes (stored s t.ip) ++ rest)) h t
              (read_family s t.ip rest t.size t.family) (read_port s t.ip rest t.size)
              (read_addr s t.ip rest t.size),
          drop-length_append (sizeof_sockaddr s) (sockaddr_bytes (stored s t.ip)) rest
              (sockaddr_bytes-length s t.ip t.size),
          log_each-packed sockets h ts,
        )
        refl

  -- A packed array of addresses, IPv4 and IPv6 mixed, is read back by the loop that logs addresses
  -- as the same addresses in order, where inet_pton stores of each the bytes of its family,
  -- inet_ntop gives its text back, and its port and family fit 16 bits.
  pub log_each-ip_sockets_to_sockaddrs :
      (sockets : List IpSocket) (h : History)
      → AllTranslate sockets
      → (ip_sockets_to_sockaddrs env sockets >>= λ saddrs. log_each env (length sockets) saddrs) h
        ≡ ok sockets h
  log_each-ip_sockets_to_sockaddrs sockets h ts =
      rw (ip_sockets_to_sockaddrs_lem sockets h ts) (log_each-packed sockets h ts)
