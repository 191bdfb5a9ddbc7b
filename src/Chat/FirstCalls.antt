-- ===== src/Chat/FirstCalls.antt =====
-- Chat.c: the first calls of `chat`, before the mutex is made.
use sctp_sandbox_c.Base.{ℕ, true, false, List, Option, ◌≡◌, ◌≢◌, refl, arith}
use sctp_sandbox_c.Chat.Mutex.{
  Phase, Threads, at, Moves, Run, here, next, outside, entered, making, flagging, ready, locked,
}
use sctp_sandbox_c.Chat.Atomic.{IsGuarded}

-- With the mutex made and free, and no call under way, the calls to come are guarded.
pub quiet-IsGuarded :
    (s : Threads)
    → s.chat_mtx_init ≡ true
    → ((i : ℕ) → (old : List ℕ) × (s.phase i ≡ outside old))
    → IsGuarded s
quiet-IsGuarded s made quiet = record {
  made = made;
  keeps = λ j k n o. ground (arith, (quiet j).1, (quiet k).1);
}

-- One thread moves, and nothing else changes.
abbrev moved : Threads → ℕ → Phase → Threads
moved s i p = record s { phase = at s.phase i p }

module _ (s : Threads) (i j : ℕ) (new new' : Option (List ℕ)) where
  -- Both have found no mutex.
  abbrev found : Threads
  found =
      moved (moved (moved (moved s i (entered new)) j (entered new')) i (making new)) j
        (making new')

  -- The first has made it, and holds it.
  abbrev one_inside : Threads
  one_inside = record (moved (moved (moved found i (flagging new)) i (ready new)) i (locked new)) {
    chat_mtx_init = true;
    held = true;
  }

  -- The second has made it again, and holds it too.
  abbrev two_inside : Threads
  two_inside = moved (moved (moved one_inside j (flagging new')) j (ready new')) j (locked new')

  module _ (differ : i ≢ j) (old old' : List ℕ) (p : s.phase i ≡ outside old)
      (q : s.phase j ≡ outside old') (unmade : s.chat_mtx_init ≡ false) where
    to_found : Run s found
    to_found =
        next j
          (next i
            (next j (next i here (Moves.calls new old p refl))
              (Moves.calls new' old' (ground arith) refl))
            (Moves.finds_none new (ground arith) unmade refl))
          (Moves.finds_none new' (ground arith) unmade refl)

    to_one : Run s one_inside
    to_one =
        next i
          (next i (next i to_found (Moves.makes new (ground arith) refl))
            (Moves.flags new (ground arith) refl))
          (Moves.locks new (ground arith) refl refl)

    to_two : Run s two_inside
    to_two =
        next j
          (next j (next j to_one (Moves.makes new' (ground arith) refl))
            (Moves.flags new' (ground arith) refl))
          (Moves.locks new' (ground arith) refl refl)

    -- Where the mutex is not made yet, any two threads outside chat can come to hold it both at
    -- once.
    pub two_inside-Run :
        (t : Threads) × Run s t × (t.phase i ≡ locked new) × (t.phase j ≡ locked new')
    two_inside-Run = (two_inside, to_two, ground arith, ground arith)
