-- ===== src/Chat/Atomic.antt =====
-- Chat.c: the calls of `chat` once the mutex is made, seen from outside: a mailbox, and callers that
-- wait or have their answer.
use sctp_sandbox_c.Base.{
  ℕ, Bool, true, false, List, [], Option, none, some, ◌==◌, ◌≡◌, refl, ap, ◌⊎◌, inl, inr, arith,
  if◌then◌else◌,
}
use mathlib.Core.Path.{fun_ext, subst}
use sctp_sandbox_c.Chat.{exchange_chat_messages}
use sctp_sandbox_c.Chat.Mutex.{
  Phase, Threads, at, Moves, Run, is_inside, outside, entered, making, flagging, ready, locked,
  copied, exchanged,
}

-- A caller of the mailbox: it waits with its argument, or has its answer.
pub data Caller : Type 0 where
  waits : (new_chat_msg : Option (List ℕ)) → Caller
  has : (old_chat_msg : List ℕ) → Caller

pub record Mailbox : Type 0 where
  pub message : List ℕ
  pub caller : ℕ → Caller

abbrev pub put_at : (ℕ → Caller) → ℕ → Caller → ℕ → Caller
put_at f i c j = if j == i then c else f j

-- What a caller leaves in the mailbox.
abbrev pub content : Option (List ℕ) → List ℕ
content none = []
content (some new) = new

-- A step of caller `i`: it asks, or is answered with the message, and leaves its own.
pub data Serves (i : ℕ) (a b : Mailbox) : Type 0 where
  asks :
      (new : Option (List ℕ)) (old : List ℕ)
      → a.caller i ≡ has old
      → b ≡ record a { caller = put_at a.caller i (waits new) }
      → Serves i a b
  answers :
      (new : Option (List ℕ))
      → a.caller i ≡ waits new
      → b ≡ record { message = content new; caller = put_at a.caller i (has a.message) }
      → Serves i a b

pub data Served (a : Mailbox) : Mailbox → Type 0 where
  here : Served a a
  next : {b c : Mailbox} (i : ℕ) → Served a b → Serves i b c → Served a c

abbrev pub as_caller : Phase → Caller
as_caller (outside old) = has old
as_caller (exchanged old) = has old
as_caller (entered new) = waits new
as_caller (making new) = waits new
as_caller (flagging new) = waits new
as_caller (ready new) = waits new
as_caller (locked new) = waits new
as_caller (copied new old) = waits new

abbrev pub as_callers : (ℕ → Phase) → ℕ → Caller
as_callers f j = as_caller (f j)

-- The mailbox that the threads implement.
abbrev pub as_mailbox : Threads → Mailbox
as_mailbox s = record { message = s.chat_msg; caller = as_callers s.phase }

-- A thread that makes the mutex.
abbrev is_making : Phase → Bool
is_making (making new) = true
is_making (flagging new) = true
is_making _ = false

-- No thread makes the mutex; one that is inside holds it, and is there alone; what one has copied is
-- still the message.
abbrev Keeps : Threads → (j k : ℕ) (new : Option (List ℕ)) (old : List ℕ) → Type 0
Keeps s j k new old =
    (is_making (s.phase j) ≡ false)
    × (is_inside (s.phase j) ≡ true → s.held ≡ true)
    × (is_inside (s.phase j) ≡ true → is_inside (s.phase k) ≡ true → j ≡ k)
    × (s.phase j ≡ copied new old → old ≡ s.chat_msg)

-- The mutex is made, and does its work.
pub record IsGuarded (s : Threads) : Type 0 where
  pub made : s.chat_mtx_init ≡ true
  pub keeps : (j k : ℕ) (new : Option (List ℕ)) (old : List ℕ) → Keeps s j k new old

module _ {s : Threads} (i : ℕ) (g : IsGuarded s) where
  -- What every step is judged by, at the thread that moves and at two others.
  Keeps-at :
      (j k : ℕ) (new : Option (List ℕ)) (old : List ℕ)
      → Keeps s i i new old
        × Keeps s j k new old
        × Keeps s k j new old
        × Keeps s i j new old
        × Keeps s i k new old
  Keeps-at j k new old = (
    g.keeps i i new old,
    g.keeps j k new old,
    g.keeps k j new old,
    g.keeps i j new old,
    g.keeps i k new old,
  )

  Moves-IsGuarded : {t : Threads} → Moves i s t → IsGuarded t
  Moves-IsGuarded (Moves.finds_none new p f e) = absurd (ground (arith, g.made))
  Moves-IsGuarded (Moves.makes new p e) = absurd (ground (arith, g.keeps i i new []))
  Moves-IsGuarded (Moves.flags new p e) = absurd (ground (arith, g.keeps i i new []))
  Moves-IsGuarded (Moves.calls new old p e) = record {
    made = ground (arith, g.made);
    keeps = λ j k n o. ground (arith, Keeps-at j k n o);
  }
  Moves-IsGuarded (Moves.finds_mutex new p f e) = record {
    made = ground (arith, g.made);
    keeps = λ j k n o. ground (arith, Keeps-at j k n o);
  }
  Moves-IsGuarded (Moves.locks new p f e) = record {
    made = ground (arith, g.made);
    keeps = λ j k n o. ground (arith, Keeps-at j k n o);
  }
  Moves-IsGuarded (Moves.copies new p e) = record {
    made = ground (arith, g.made);
    keeps = λ j k n o. ground (arith, Keeps-at j k n o);
  }
  Moves-IsGuarded (Moves.exchanges new old p e) = record {
    made = ground (arith, g.made);
    keeps = λ j k n o. ground (arith, Keeps-at j k n o);
  }
  Moves-IsGuarded (Moves.unlocks old p e) = record {
    made = ground (arith, g.made);
    keeps = λ j k n o. ground (arith, Keeps-at j k n o);
  }

exchange-content :
    (m : List ℕ) (new : Option (List ℕ)) → (exchange_chat_messages m new).1 ≡ content new
unfolding exchange_chat_messages
exchange-content m none = refl
exchange-content m (some new) = refl

-- A thread whose view as a caller does not change.
still :
    (f : ℕ → Phase) (i : ℕ) (p : Phase)
    → as_caller p ≡ as_caller (f i)
    → as_callers f ≡ as_callers (at f i p)
still f i p e = fun_ext λ j. ground arith

changed :
    (f : ℕ → Phase) (i : ℕ) (p : Phase)
    → as_callers (at f i p) ≡ put_at (as_callers f) i (as_caller p)
changed f i p = fun_ext λ j. ground arith

seen :
    (s : Threads) (i : ℕ) (p : Phase)
    → as_caller p ≡ as_caller (s.phase i)
    → as_mailbox s ≡ record { message = s.chat_msg; caller = as_callers (at s.phase i p) }
seen s i p e =
    ap (λ (c : ℕ → Caller). record { message = s.chat_msg; caller = c }) (still s.phase i p e)

module _ {s t : Threads} (i : ℕ) (g : IsGuarded s) where
  -- A step of a thread is a step of its caller, or none that can be seen.
  Moves-Serves :
      Moves i s t → (as_mailbox s ≡ as_mailbox t) ⊎ Serves i (as_mailbox s) (as_mailbox t)
  Moves-Serves (Moves.finds_none new p f e) = absurd (ground (arith, g.made))
  Moves-Serves (Moves.makes new p e) = absurd (ground (arith, g.keeps i i new []))
  Moves-Serves (Moves.flags new p e) = absurd (ground (arith, g.keeps i i new []))
  Moves-Serves (Moves.calls new old p e) =
      inr (asks new old (rw p) (rw (e, changed s.phase i (entered new)) refl))
  Moves-Serves (Moves.exchanges new old p e) = inr (
      answers new (rw p) (
        rw
          (
            e,
            changed s.phase i (exchanged old),
            exchange-content s.chat_msg new,
            (g.keeps i i new old).3 p,
          )
          refl))
  Moves-Serves (Moves.finds_mutex new p f e) = inl (rw e (seen s i (ready new) (rw p)))
  Moves-Serves (Moves.locks new p f e) = inl (rw e (seen s i (locked new) (rw p)))
  Moves-Serves (Moves.copies new p e) = inl (rw e (seen s i (copied new s.chat_msg) (rw p)))
  Moves-Serves (Moves.unlocks old p e) = inl (rw e (seen s i (outside old) (rw p)))

-- From a state in which the mutex is made and does its work, every interleaving of the steps of any
-- threads in chat is a run of a mailbox whose callers ask and are answered, each by one exchange of
-- the message; and the mutex still does its work.
pub Run-Served :
    {s t : Threads} → IsGuarded s → Run s t → IsGuarded t × Served (as_mailbox s) (as_mailbox t)
Run-Served g Run.here = (g, here)
Run-Served {s} g (Run.next i r m) =
    let (g', served) = Run-Served g r in
    (
      Moves-IsGuarded i g' m,
      elim (Moves-Serves i g' m) [
        | inl same ↦ subst (λ a. Served (as_mailbox s) a) same served
        | inr step ↦ next i served step
      ],
    )
