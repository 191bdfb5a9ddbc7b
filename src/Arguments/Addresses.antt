-- ===== src/Arguments/Addresses.antt =====
-- NetworkConfiguration.c: the addresses of a command line become the locals and the remotes.
use sctp_sandbox_c.Base.{
  ℕ, zero, suc, ◌+◌, ◌≤◌, ◌<◌, ◌≡◌, ◌≢◌, refl, ◌∙◌, ap, true, false, ◌==◌, ltb, List, [], ◌∷◌, ◌++◌,
  map, length, length-set, set, take, Bool-cases, inl, inr, arith,
}
use mathlib.Core.List.{append-nil, append_assoc}
use sctp_sandbox_c.Os.{fault, Fault, Env, IpSocket, History, ok}
use sctp_sandbox_c.Os.Laws.{IsLawful}
use sctp_sandbox_c.IpSocket.{IpSockets, listed, ip_addr_size, detect_family, create_ip_socket}
use sctp_sandbox_c.Peers.{first_byte}
use sctp_sandbox_c.Arguments.{
  NetworkConfiguration, max_ip_socket_count, no_sockets, no_configuration, atoi, to_port, is_int,
  read_number, new_socket, fill_current, read_option, read_address, read_arguments,
  create_network_configuration,
}
use sctp_sandbox_c.Arguments.Bounds.{Fits, no_sockets-Fits}

length-map {ℓ κ} :
    {A : Type ℓ} {B : Type κ} (f : A → B) (xs : List A) → length (map f xs) ≡ length xs
length-map f [] = refl
length-map f (x ∷ xs) = ap suc (length-map f xs)

abbrev second : List ℕ → ℕ
second [] = 0
second (a ∷ []) = 0
second (a ∷ b ∷ r) = b

-- The array after an address is written behind those in use.
abbrev entered : IpSockets → IpSocket → IpSockets
entered s x = record { sockets = set s.sockets s.count x; count = s.count + 1 }

abbrev entered_all : IpSockets → List IpSocket → IpSockets
entered_all s [] = s
entered_all s (x ∷ xs) = entered_all (entered s x) xs

take-set_next :
    (xs : List IpSocket) (n : ℕ) (x : IpSocket)
    → n < length xs
    → take (suc n) (set xs n x) ≡ take n xs ++ x ∷ []
take-set_next [] n x h = absurd (omega arith)
take-set_next (y ∷ xs) zero x h = refl
take-set_next (y ∷ xs) (suc n) x h = ap (◌∷◌ y) (take-set_next xs n x (omega arith))

entered-Fits :
    (s : IpSockets) (x : IpSocket) → Fits s → s.count < max_ip_socket_count → Fits (entered s x)
entered-Fits s x f h = record {
  array = length-set s.sockets s.count x ∙ f.array;
  count = omega arith;
}

listed-entered_all :
    (s : IpSockets) (xs : List IpSocket)
    → Fits s
    → s.count + length xs ≤ max_ip_socket_count
    → listed (entered_all s xs) ≡ listed s ++ xs
listed-entered_all s [] f h = rw append-nil refl
listed-entered_all s (x ∷ xs) f h =
    listed-entered_all (entered s x) xs (entered-Fits s x f (omega arith)) (omega arith)
    ∙ rw (next, take-set_next s.sockets s.count x (omega (arith, f.array)), append_assoc) refl
  where
    next : s.count + 1 ≡ suc s.count
    next = omega arith

-- Arguments: an address and its port, one behind the other.
abbrev pub flat : List (List ℕ × List ℕ) → List (List ℕ)
flat [] = []
flat (x ∷ xs) = x.0 ∷ x.1 ∷ flat xs

module _ (env : Env) where
  -- An address that does not start like an option, is shorter than the 46 bytes that are copied from
  -- memory that can be read so far, with a port that an int holds.
  pub record IsAddress (x : List ℕ × List ℕ) : Type 0 where
    pub plain : (first_byte x.0 == b'-') ≡ false
    pub short : ltb (length x.0) ip_addr_size ≡ true
    pub readable : ltb (env.extent x.0) ip_addr_size ≡ false
    pub number : is_int (atoi x.1) ≡ true

  abbrev pub AreAddresses : List (List ℕ × List ℕ) → Type 0
  AreAddresses [] = Unit {0}
  AreAddresses (x ∷ xs) = IsAddress x × AreAddresses xs

  abbrev pub socket_of : List ℕ × List ℕ → IpSocket
  socket_of x = record { addr = x.0; port = to_port (atoi x.1); family = detect_family env x.0 }

  new_socket_lem :
      (x : List ℕ × List ℕ) (h : History)
      → IsAddress x
      → new_socket env x.0 x.1 h ≡ ok (socket_of x) h
  unfolding new_socket read_number create_ip_socket
  new_socket_lem x h a = rw (a.number, a.readable, a.short) refl

  read_locals :
      (xs : List (List ℕ × List ℕ)) (c : NetworkConfiguration) (rest : List (List ℕ)) (h : History)
      → AreAddresses xs
      → c.locals.count + length xs ≤ max_ip_socket_count
      → read_arguments env false c (flat xs ++ rest) h
        ≡ read_arguments env false
            (record c { locals = entered_all c.locals (map socket_of xs) })
            rest
            h
  unfolding read_arguments read_address fill_current
  read_locals [] c rest h a room = refl
  read_locals (x ∷ xs) c rest h (a, others) room =
      let d : NetworkConfiguration = record c { locals = entered c.locals (socket_of x) } in
      rw (a.plain, new_socket_lem x h a, ltb) (ground (arith, read_locals xs d rest h others))

  read_remotes :
      (xs : List (List ℕ × List ℕ)) (c : NetworkConfiguration) (h : History)
      → AreAddresses xs
      → c.remotes.count + length xs ≤ max_ip_socket_count
      → read_arguments env true c (flat xs) h
        ≡ ok (record c { remotes = entered_all c.remotes (map socket_of xs) }) h
  unfolding read_arguments read_address fill_current
  read_remotes [] c h a room = refl
  read_remotes (x ∷ xs) c h (a, others) room =
      let d : NetworkConfiguration = record c { remotes = entered c.remotes (socket_of x) } in
      rw (a.plain, new_socket_lem x h a, ltb) (ground (arith, read_remotes xs d h others))

  read_locals-overflow :
      (xs : List (List ℕ × List ℕ)) (c : NetworkConfiguration) (rest : List (List ℕ)) (h : History)
      → AreAddresses xs
      → c.locals.count ≤ max_ip_socket_count
      → max_ip_socket_count < c.locals.count + length xs
      → read_arguments env false c (flat xs ++ rest) h ≡ fault Fault.socket_overflow
  unfolding read_arguments read_address fill_current
  read_locals-overflow [] c rest h a fits over = absurd (omega arith)
  read_locals-overflow (x ∷ xs) c rest h (a, others) fits over =
      let d : NetworkConfiguration = record c { locals = entered c.locals (socket_of x) } in
      elim (Bool-cases (ltb c.locals.count max_ip_socket_count)) [
        | inl room ↦
            rw (a.plain, new_socket_lem x h a, ltb)
              (ground (arith, read_locals-overflow xs d rest h others))
        | inr full ↦ rw (a.plain, new_socket_lem x h a, full) refl
      ]

  -- Arguments that start with more than four addresses with their ports make the program write
  -- behind the array of four, whatever follows them, where no address starts like an option, each
  -- is shorter than 46 bytes in memory of which 46 bytes can be read, and an int holds each port.
  pub create_network_configuration-overflow :
      (name : List ℕ) (locals : List (List ℕ × List ℕ)) (rest : List (List ℕ)) (h : History)
      → AreAddresses locals
      → max_ip_socket_count < length locals
      → create_network_configuration env (name ∷ (flat locals ++ rest)) h
        ≡ fault Fault.socket_overflow
  unfolding create_network_configuration
  create_network_configuration-overflow name locals rest h a over =
      read_locals-overflow locals no_configuration rest h a (omega arith) (omega arith)

  module _ (L : IsLawful env) where
    differs : (a b : List ℕ) → a ≢ b → env.equals a b ≡ false
    differs a b n = elim (Bool-cases (env.equals a b)) [
      | inl e ↦ absurd (n ((L.equals_iff a b).0 e))
      | inr e ↦ e
    ]

    read_option-remotes :
        (c : NetworkConfiguration) (next : List ℕ) (h : History)
        → read_option env c (b'-' ∷ b'r' ∷ []) next h ≡ ok (c, true) h
    unfolding read_option
    read_option-remotes c next h =
        rw
          (
            differs (b'-' ∷ b'r' ∷ []) (b'-' ∷ b'p' ∷ []) (λ e. let d = ap second e in omega arith),
            differs (b'-' ∷ b'r' ∷ []) (b'-' ∷ b'm' ∷ b't' ∷ b'u' ∷ [])
                (λ e. let d = ap second e in omega arith),
            differs (b'-' ∷ b'r' ∷ []) (b'-' ∷ b's' ∷ b'e' ∷ b'g' ∷ [])
                (λ e. let d = ap second e in omega arith),
            differs (b'-' ∷ b'r' ∷ []) (b'-' ∷ b'm' ∷ b's' ∷ b'g' ∷ [])
                (λ e. let d = ap second e in omega arith),
          )
          refl

    switch :
        (c : NetworkConfiguration) (next : List ℕ) (rest : List (List ℕ)) (h : History)
        → read_arguments env false c ((b'-' ∷ b'r' ∷ []) ∷ next ∷ rest) h
          ≡ read_arguments env true c (next ∷ rest) h
    unfolding read_arguments first_byte
    switch c next rest h =
        rw
          (
            read_option-remotes c next h,
            (L.equals_iff (b'-' ∷ b'r' ∷ []) (b'-' ∷ b'r' ∷ [])).1 refl,
          )
          refl

    read_remotes_of :
        (xs : List (List ℕ × List ℕ)) (c : NetworkConfiguration) (h : History)
        → AreAddresses xs
        → c.remotes.count + length xs ≤ max_ip_socket_count
        → read_arguments env false c ((b'-' ∷ b'r' ∷ []) ∷ flat xs) h
          ≡ ok (record c { remotes = entered_all c.remotes (map socket_of xs) }) h
    unfolding read_arguments
    read_remotes_of [] c h a room = refl
    read_remotes_of (x ∷ xs) c h a room =
        switch c x.0 (x.1 ∷ flat xs) h ∙ read_remotes (x ∷ xs) c h a room

    -- Arguments that give up to four local addresses with their ports, then -r, then up to four
    -- remote ones, none starting like an option, are read into a configuration that lists these
    -- locals and these remotes, in order.
    pub create_network_configuration_lem :
        (name : List ℕ) (locals remotes : List (List ℕ × List ℕ)) (h : History)
        → AreAddresses locals
        → AreAddresses remotes
        → length locals ≤ max_ip_socket_count
        → length remotes ≤ max_ip_socket_count
        → (c : NetworkConfiguration) × (create_network_configuration env
              (name ∷ (flat locals ++ (b'-' ∷ b'r' ∷ []) ∷ flat remotes))
              h
            ≡ ok c h)
          × (listed c.locals ≡ map socket_of locals)
          × (listed c.remotes ≡ map socket_of remotes)
    unfolding create_network_configuration
    create_network_configuration_lem name locals remotes h al ar fl fr =
        let c : NetworkConfiguration = record no_configuration {
          locals = entered_all no_sockets (map socket_of locals);
        } in
        (
          record c { remotes = entered_all no_sockets (map socket_of remotes) },
          read_locals locals no_configuration ((b'-' ∷ b'r' ∷ []) ∷ flat remotes) h al (omega arith)
              ∙ read_remotes_of remotes c h ar (omega arith),
          listed-entered_all no_sockets (map socket_of locals) no_sockets-Fits
              (rw (length-map socket_of locals) (omega arith)),
          listed-entered_all no_sockets (map socket_of remotes) no_sockets-Fits
              (rw (length-map socket_of remotes) (omega arith)),
        )
