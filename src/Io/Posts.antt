-- ===== src/Io/Posts.antt =====
-- IoTask.c: which lines are posted, and when the task ends.
use sctp_sandbox_c.Base.{
  ℕ, zero, suc, ◌+◌, ◌≤◌, ◌<◌, ◌≡◌, refl, true, false, List, [], ◌∷◌, ◌++◌, none, some, length,
  arith,
}
use sctp_sandbox_c.Os.{Env, Call, History, ok, invoke, run_check}
use sctp_sandbox_c.Peers.{quit_msg}
use sctp_sandbox_c.Network.{start_task}
use sctp_sandbox_c.Io.{chat_buffer_size, cut_line, read_line, chat_from_stdin, io_loop, io_task}

-- A line that fits the buffer with its end is posted as one that fits.
pub length-cut_line : (bytes : List ℕ) → length (cut_line bytes) ≤ length bytes
unfolding cut_line
length-cut_line [] = omega arith
length-cut_line (b ∷ bytes) = ground (arith, length-cut_line bytes)

-- The calls that a line makes, and those of some lines.
abbrev pub posted : List ℕ → History → History
posted line h = Call.chat (some (cut_line line)) ∷ Call.fgets chat_buffer_size ∷ h

abbrev pub posted_each : List (List ℕ) → History → History
posted_each [] h = h
posted_each (line ∷ lines) h = posted_each lines (posted line h)

module _ (env : Env) where
  -- fgets gives these lines, one after the other, and its check passes.
  abbrev pub Reads : History → List (List ℕ) → Type 0
  Reads h [] = Unit {0}
  Reads h (line ∷ lines) =
      ((env.reply (Call.fgets chat_buffer_size) h).bytes ≡ line)
      × (env.check_fgets (env.reply (Call.fgets chat_buffer_size) h).result
            (Call.fgets chat_buffer_size ∷ h)
          ≡ none)
      × Reads (posted line h) lines

  -- No line says quit.
  abbrev pub NoneQuits : List (List ℕ) → Type 0
  NoneQuits [] = Unit {0}
  NoneQuits (line ∷ lines) = (env.equals (cut_line line) quit_msg ≡ false) × NoneQuits lines

  chat_from_stdin_lem :
      (line : List ℕ) (lines : List (List ℕ)) (h : History)
      → Reads h (line ∷ lines)
      → chat_from_stdin env h ≡ ok (cut_line line) (posted line h)
  unfolding chat_from_stdin read_line invoke run_check
  chat_from_stdin_lem line lines h (bytes, passes, others) = rw (passes, bytes) refl

  io_loop-posts :
      (lines : List (List ℕ)) (last msg : List ℕ) (fuel : ℕ) (h : History)
      → Reads h (lines ++ last ∷ [])
      → NoneQuits lines
      → env.equals (cut_line last) quit_msg ≡ true
      → env.equals msg quit_msg ≡ false
      → length lines + 1 < fuel
      → io_loop env fuel msg h ≡ ok (some (cut_line last)) (posted_each (lines ++ last ∷ []) h)
  unfolding io_loop
  io_loop-posts lines last msg zero h r n q m enough = absurd (omega arith)
  io_loop-posts lines last msg (suc zero) h r n q m enough = absurd (omega arith)
  io_loop-posts [] last msg (suc (suc fuel)) h r n q m enough =
      rw (m, chat_from_stdin_lem last [] h r, q) refl
  io_loop-posts (line ∷ lines) last msg (suc (suc fuel)) h r n q m enough =
      rw (m, chat_from_stdin_lem line (lines ++ last ∷ []) h r)
        (io_loop-posts lines last (cut_line line) (suc fuel) (posted line h) r.2 n.1 q n.0
          (omega arith))

  -- Where fgets gives some lines of which just the last says quit once it is cut at its end, and
  -- the buffer does not say so at the start, the input task posts each of these lines once, cut at
  -- its end and in order, and returns; as many turns of the loop as there are lines, and one test,
  -- are enough.
  pub io_task-posts :
      (lines : List (List ℕ)) (last msg : List ℕ) (fuel : ℕ) (h : History)
      → env.is_zero (0, 0) ≡ true
      → Reads h (lines ++ last ∷ [])
      → NoneQuits lines
      → env.equals (cut_line last) quit_msg ≡ true
      → env.equals msg quit_msg ≡ false
      → length lines + 1 < fuel
      → io_task env fuel msg h ≡ ok (some (cut_line last)) (posted_each (lines ++ last ∷ []) h)
  unfolding io_task start_task
  io_task-posts lines last msg fuel h zero_delay r n q m enough =
      rw zero_delay (io_loop-posts lines last msg fuel h r n q m enough)
