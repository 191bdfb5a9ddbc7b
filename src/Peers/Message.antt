-- ===== src/Peers/Message.antt =====
-- Socket.c and the protocols' receive handlers: the text that a received message leaves in the
-- buffer, and where its terminator is written.
use sctp_sandbox_c.Base.{
  ℕ, ◌+◌, ◌<◌, ◌≤◌, ◌≡◌, ◌↔◌, refl, ap, List, [], ◌∷◌, ◌++◌, ℤ, pos, negsuc, take, drop, length,
  ltb, arith, ◌⊎◌, inl, inr, Bool-cases,
}
use sctp_sandbox_c.Os.{Reply, ok, fault, Fault, History}
use sctp_sandbox_c.Peers.{Socket, msg_buffer_size, terminate_message, c_string}

-- No byte is zero.
abbrev pub IsText : List ℕ → Type 0
IsText [] = Unit {0}
IsText (b ∷ bytes) = (0 < b) × IsText bytes

take-length {ℓ} : {A : Type ℓ} (xs : List A) → take (length xs) xs ≡ xs
take-length [] = refl
take-length (x ∷ xs) = ap (◌∷◌ x) (take-length xs)

pub c_string-append : (bytes rest : List ℕ) → IsText bytes → c_string (bytes ++ 0 ∷ rest) ≡ bytes
unfolding c_string
c_string-append [] rest t = refl
c_string-append (b ∷ bytes) rest (p, t) = ground (arith, c_string-append bytes rest t)

pub terminate_message-fits :
    (s : Socket) (r : Reply) (n : ℕ) (h : History)
    → r.result ≡ pos n
    → n < msg_buffer_size
    → terminate_message s r h
      ≡ ok (record s { msg_buffer = take n r.bytes ++ 0 ∷ drop (n + 1) s.msg_buffer }) h
unfolding terminate_message
terminate_message-fits s r n h full short = ground arith

-- A received message of nonzero bytes that is shorter than the buffer is read back whole as a C
-- string, whatever an earlier message left behind it, and nothing else of the socket changes.
pub terminate_message-c_string :
    (s : Socket) (r : Reply) (h : History)
    → r.result ≡ pos (length r.bytes)
    → length r.bytes < msg_buffer_size
    → IsText r.bytes
    → (buffer : List ℕ) × (terminate_message s r h ≡ ok (record s { msg_buffer = buffer }) h)
      × (c_string buffer ≡ r.bytes)
terminate_message-c_string s r h full short text = (
  take (length r.bytes) r.bytes ++ 0 ∷ drop (length r.bytes + 1) s.msg_buffer,
  terminate_message-fits s r (length r.bytes) h full short,
  rw (take-length r.bytes) (c_string-append r.bytes _ text),
)

-- The terminator of a received message falls outside the buffer exactly if the result is negative
-- or is at least the size of the buffer.
pub terminate_message-fault :
    (s : Socket) (r : Reply) (h : History)
    → (terminate_message s r h ≡ fault Fault.msg_buffer_index)
      ↔ (((n : ℕ) × (r.result ≡ negsuc n)) ⊎ ((n : ℕ) × (r.result ≡ pos n) × (msg_buffer_size ≤ n)))
unfolding terminate_message
terminate_message-fault s r h = by_result r.result refl
  where
    by_result :
        (z : ℤ)
        → r.result ≡ z
        → (terminate_message s r h ≡ fault Fault.msg_buffer_index) ↔ (
            ((n : ℕ) × (r.result ≡ negsuc n))
            ⊎ ((n : ℕ) × (r.result ≡ pos n) × (msg_buffer_size ≤ n)))
    by_result (negsuc n) e = (λ _. inl (n, e), λ _. rw (e, terminate_message))
    by_result (pos n) e = elim (Bool-cases (ltb n msg_buffer_size)) [
      | inl fits ↦ (λ bad. absurd (ground arith), λ which. absurd (ground arith))
      | inr full ↦ (λ _. inr (n, e, ground arith), λ _. ground arith)
    ]
