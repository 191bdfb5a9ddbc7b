-- ===== src/Chat.antt =====
-- Chat.c: the mailbox of one message that the tasks share. The exchange is a function here; Mutex has
-- the steps of the threads that call `chat`.
pub mod Mutex
pub mod Atomic
pub mod FirstCalls
use sctp_sandbox_c.Base.{ℕ, suc, List, [], Option, none, some}

-- `exchangeChatMessages`: the message that was there, and the one that is there next.
unfoldable pub exchange_chat_messages : List ℕ → Option (List ℕ) → List ℕ × List ℕ
exchange_chat_messages chat_msg (some new_chat_msg) = (chat_msg, new_chat_msg)
exchange_chat_messages chat_msg none = (chat_msg, [])
