-- ===== src/Tcp/Connections/Arrivals.antt =====
-- SocketTcp.c: what the answers of the calls on a ready descriptor tell of a connection, and what a
-- message leaves in the buffer.
use sctp_sandbox_c.Base.{
  ℕ, suc, ◌+◌, ◌<◌, ◌≡◌, ◌⊎◌, refl, true, false, List, [], ◌∷◌, ◌++◌, take, drop, ℤ, pos, ◌==◌,
  ◌==ℤ◌, zero, inl, inr, arith, if◌then◌else◌, is_negative, is_nonzero,
}
use sctp_sandbox_c.Errors.{failed}
use sctp_sandbox_c.Os.{Env, Call, History, pure, ◌>>◌, Reply, IpSocket}
use sctp_sandbox_c.Os.Laws.{IsLawful}
use sctp_sandbox_c.Bind.{log_paddrs_tcp}
use sctp_sandbox_c.Bind.Packed.{Translates, stored}
use sctp_sandbox_c.Peers.{Socket, msg_buffer_size, first_byte}
use sctp_sandbox_c.Peers.Message.{terminate_message-fits}
use sctp_sandbox_c.Tcp.{handle_graceful_shutdown_tcp, received_tcp}
use sctp_sandbox_c.Tcp.Connections.{Event, accepted, data_on, ended}

pub first_byte-taken :
    (n : ℕ) (bytes rest : List ℕ) → first_byte (take (suc n) bytes ++ 0 ∷ rest) ≡ first_byte bytes
unfolding first_byte
first_byte-taken n [] rest = refl
first_byte-taken n (b ∷ bytes) rest = refl

-- The text that a message leaves is empty.
pub first_byte-zero :
    (n : ℕ) (bytes rest : List ℕ)
    → (n ≡ 0) ⊎ (first_byte bytes ≡ 0)
    → (first_byte (take n bytes ++ 0 ∷ rest) == 0) ≡ true
unfolding first_byte
first_byte-zero zero bytes rest quiet = refl
first_byte-zero (suc n) bytes rest (inl none_there) = absurd (omega arith)
first_byte-zero (suc n) bytes rest (inr blank) = rw (first_byte-taken n bytes rest, blank) refl

-- The socket once a message is in its buffer.
abbrev pub buffered : Socket → Reply → ℕ → Socket
buffered s r n = record s { msg_buffer = take n r.bytes ++ 0 ∷ drop (n + 1) s.msg_buffer }

module _ (env : Env) (L : IsLawful env) where
  pub received_tcp-text :
      (s : Socket) (fd : ℤ) (r : Reply) (n : ℕ) (h : History)
      → r.result ≡ pos n
      → n < msg_buffer_size
      → received_tcp env s fd r h
        ≡ (if first_byte (buffered s r n).msg_buffer == 0
              then handle_graceful_shutdown_tcp env (buffered s r n) fd
              else (log_paddrs_tcp env fd >> pure (buffered s r n)))
            h
  unfolding received_tcp failed
  received_tcp-text s fd r n h size short =
      let passes : is_negative r.result ≡ false = rw size refl in
      rw (passes, terminate_message-fits s r n h size short) refl

  -- The sender of an answer is an address that inet_pton and inet_ntop translate.
  abbrev pub IsFrom : IpSocket → Reply → Type 0
  IsFrom remote r = (t : Translates env L remote) × (r.from ≡ stored remote t.ip)

  -- What the answers of the calls on a descriptor make of an event: accept gives a descriptor; recv
  -- gives some bytes, and getpeername their sender; recv gives nothing, or an empty text; recv fails.
  abbrev pub Arrives : (listener : ℤ) → History → Event → Type 0
  Arrives listener h (accepted fd remote) =
      ((env.reply (Call.accept listener) h).result ≡ fd)
      × (is_negative fd ≡ false)
      × (is_nonzero fd ≡ true)
      × IsFrom remote (env.reply (Call.accept listener) h)
  Arrives listener h (data_on fd) =
      ((fd ==ℤ listener) ≡ false)
      × ((n : ℕ) × ((env.reply (Call.recv fd msg_buffer_size) h).result ≡ pos (suc n))
          × (suc n < msg_buffer_size))
      × ((first_byte (env.reply (Call.recv fd msg_buffer_size) h).bytes == 0) ≡ false)
      × ((env.reply (Call.getpeername fd) (Call.recv fd msg_buffer_size ∷ h)).result ≡ pos 0)
      × ((remote : IpSocket) × IsFrom remote
            (env.reply (Call.getpeername fd) (Call.recv fd msg_buffer_size ∷ h)))
  Arrives listener h (ended fd) =
      ((fd ==ℤ listener) ≡ false)
      × (is_nonzero fd ≡ true)
      × ((n : ℕ) × ((env.reply (Call.recv fd msg_buffer_size) h).result ≡ pos n)
          × (n < msg_buffer_size)
          × ((n ≡ 0) ⊎ (first_byte (env.reply (Call.recv fd msg_buffer_size) h).bytes ≡ 0)))
  Arrives listener h (Event.failed fd) =
      ((fd ==ℤ listener) ≡ false)
      × (is_nonzero fd ≡ true)
      × (is_negative (env.reply (Call.recv fd msg_buffer_size) h).result ≡ true)
