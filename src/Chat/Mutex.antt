-- ===== src/Chat/Mutex.antt =====
-- Chat.c: threads inside `chat`, a step at a time. Each thread has an `old_chat_msg` of its own; the
-- message, the mutex and the flag that says it was made are shared. The flag is read and written with
-- no lock, and making the mutex leaves it unlocked, whoever holds it.
use sctp_sandbox_c.Base.{ℕ, Bool, true, false, List, Option, ◌==◌, ◌≡◌, if◌then◌else◌}
use sctp_sandbox_c.Chat.{exchange_chat_messages}

-- Where a thread stands: outside, with the message it was given last; or in a call with its argument.
pub data Phase : Type 0 where
  outside : (old_chat_msg : List ℕ) → Phase
  entered making flagging ready locked : (new_chat_msg : Option (List ℕ)) → Phase
  copied : (new_chat_msg : Option (List ℕ)) (old_chat_msg : List ℕ) → Phase
  exchanged : (old_chat_msg : List ℕ) → Phase

pub record Threads : Type 0 where
  pub chat_msg : List ℕ
  pub chat_mtx_init : Bool
  pub held : Bool
  pub phase : ℕ → Phase

-- One thread moves on.
abbrev pub at : (ℕ → Phase) → ℕ → Phase → ℕ → Phase
at f i p j = if j == i then p else f j

-- A step of thread `i`.
pub data Moves (i : ℕ) (s t : Threads) : Type 0 where
  calls :
      (new : Option (List ℕ)) (old : List ℕ)
      → s.phase i ≡ outside old
      → t ≡ record s { phase = at s.phase i (entered new) }
      → Moves i s t
  finds_mutex :
      (new : Option (List ℕ))
      → s.phase i ≡ entered new
      → s.chat_mtx_init ≡ true
      → t ≡ record s { phase = at s.phase i (ready new) }
      → Moves i s t
  finds_none :
      (new : Option (List ℕ))
      → s.phase i ≡ entered new
      → s.chat_mtx_init ≡ false
      → t ≡ record s { phase = at s.phase i (making new) }
      → Moves i s t
  makes :
      (new : Option (List ℕ))
      → s.phase i ≡ making new
      → t ≡ record s { held = false; phase = at s.phase i (flagging new) }
      → Moves i s t
  flags :
      (new : Option (List ℕ))
      → s.phase i ≡ flagging new
      → t ≡ record s { chat_mtx_init = true; phase = at s.phase i (ready new) }
      → Moves i s t
  locks :
      (new : Option (List ℕ))
      → s.phase i ≡ ready new
      → s.held ≡ false
      → t ≡ record s { held = true; phase = at s.phase i (locked new) }
      → Moves i s t
  copies :
      (new : Option (List ℕ))
      → s.phase i ≡ locked new
      → t ≡ record s { phase = at s.phase i (copied new s.chat_msg) }
      → Moves i s t
  exchanges :
      (new : Option (List ℕ)) (old : List ℕ)
      → s.phase i ≡ copied new old
      → t ≡ record s {
        chat_msg = (exchange_chat_messages s.chat_msg new).1;
        phase = at s.phase i (exchanged old);
      }
      → Moves i s t
  unlocks :
      (old : List ℕ)
      → s.phase i ≡ exchanged old
      → t ≡ record s { held = false; phase = at s.phase i (outside old) }
      → Moves i s t

-- Any threads, in any order.
pub data Run (s : Threads) : Threads → Type 0 where
  here : Run s s
  next : {t u : Threads} (i : ℕ) → Run s t → Moves i t u → Run s u

-- Between lock and unlock.
abbrev pub is_inside : Phase → Bool
is_inside (locked new) = true
is_inside (copied new old) = true
is_inside (exchanged old) = true
is_inside _ = false
