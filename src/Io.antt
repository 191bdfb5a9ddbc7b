-- ===== src/Io.antt =====
-- IoTask.c: the task that posts the lines of the input to the other tasks, until one says quit.
pub mod Posts
use sctp_sandbox_c.Base.{ℕ, zero, suc, List, [], ◌∷◌, Option, none, some, ◌==◌, ◌||◌, if◌then◌else◌}
use sctp_sandbox_c.Os.{Env, Call, M, pure, run_check, ◌>>=◌, ◌>>◌, invoke}
use sctp_sandbox_c.Peers.{quit_msg}
use sctp_sandbox_c.Network.{start_task}

abbrev pub chat_buffer_size : ℕ
chat_buffer_size = 4096

-- The text up to the end of the line, as strcspn finds it.
unfoldable pub cut_line : List ℕ → List ℕ
cut_line [] = []
cut_line (b ∷ bytes) =
    let rest = cut_line bytes in if b == b'\r' || b == b'\n' then [] else b ∷ rest

module _ (env : Env) where
  -- The line is what fgets stored.
  unfoldable pub read_line : M (List ℕ)
  unfolding cut_line
  read_line = do
    r ← invoke env (Call.fgets chat_buffer_size)
    λ h. run_check (env.check_fgets r.result h) h
    pure (cut_line r.bytes)

  unfoldable pub chat_from_stdin : M (List ℕ)
  unfolding read_line
  chat_from_stdin = do msg ← read_line; invoke env (Call.chat (some msg)); pure msg

  -- At most `fuel` tests of the loop; `none` is a task that still runs then. The first test reads
  -- whatever is in the buffer.
  unfoldable pub io_loop : (fuel : ℕ) → (msg : List ℕ) → M (Option (List ℕ))
  unfolding chat_from_stdin
  io_loop zero msg = pure none
  io_loop (suc fuel) msg =
      let more = λ (line : List ℕ). io_loop fuel line in
      if env.equals msg quit_msg then pure (some msg) else (chat_from_stdin >>= more)

  unfoldable pub io_task : (fuel : ℕ) → (msg : List ℕ) → M (Option (List ℕ))
  unfolding io_loop
  io_task fuel msg = start_task env (0, 0) >> io_loop fuel msg
