-- ===== src/Network/Polls.antt =====
-- NetworkTask.c: the readings of the mailbox that a run makes, and what they and the clock answer.
use sctp_sandbox_c.Base.{
  ℕ, suc, ◌+◌, ◌/◌, ◌≤◌, ◌≡◌, ◌⊎◌, refl, false, List, [], ◌∷◌, ◌++◌, Option, none, some, ap, arith,
  pos, leb_ℤ,
}
use mathlib.Core.List.{append_assoc}
use sctp_sandbox_c.Os.{Env, Call, History}
use sctp_sandbox_c.Peers.{quit_msg}

-- How often the mailbox was read.
abbrev is_poll : Call → ℕ
is_poll (Call.chat none) = 1
is_poll c = 0

abbrev pub polls : History → ℕ
polls [] = 0
polls (c ∷ h) = is_poll c + polls h

-- The second history is the first and then calls, among them at least so many readings of the mailbox.
abbrev pub After : History → ℕ → History → Type 0
After h n h' = (later : List Call) × (h' ≡ later ++ h) × (n ≤ polls later)

pub polls-append : (a b : List Call) → polls (a ++ b) ≡ polls a + polls b
polls-append [] b = omega arith
polls-append (c ∷ a) b = rw (polls-append a b) (omega arith)

pub After-refl : (h : History) → After h 0 h
After-refl h = ([], refl, omega arith)

pub After-trans :
    (h h' h'' : History) (m n : ℕ) → After h m h' → After h' n h'' → After h (m + n) h''
After-trans h h' h'' m n (l, e, a) (l', e', b) =
    (l' ++ l, rw (e', e, append_assoc) refl, rw (polls-append l' l) (omega arith))

pub After-poll : (h h' : History) (n : ℕ) → After h n h' → After h (suc n) (Call.chat none ∷ h')
After-poll h h' n (l, e, a) = (Call.chat none ∷ l, ap (Call.chat none ∷◌) e, omega arith)

pub After-call : (c : Call) (h h' : History) (n : ℕ) → After h n h' → After h n (c ∷ h')
After-call c h h' n (l, e, a) = (c ∷ l, ap (c ∷◌) e, omega arith)

pub After-weaken : (h h' : History) (m n : ℕ) → m ≤ n → After h n h' → After h m h'
After-weaken h h' m n less (l, e, a) = (l, e, omega arith)

pub After-polls : (h h' : History) (n : ℕ) → After h n h' → n + polls h ≤ polls h'
After-polls h h' n (l, e, a) = rw (e, polls-append l h) (omega arith)

-- From the n-th reading of the mailbox after `h` on, quit is in it.
abbrev pub QuitsBy : Env → ℕ → History → Type 0
QuitsBy env n h = (h' : History) → After h n h' → (env.reply (Call.chat none) h').bytes ≡ quit_msg

-- The clock cannot be read, or is past the deadline.
abbrev pub IsPast : Env → ℕ × ℕ → History → Type 0
IsPast env deadline h =
    (¬ ((env.reply Call.gettimeofday h).result ≡ pos 0))
    ⊎ (leb_ℤ (env.compare_time (env.reply Call.gettimeofday h).time deadline) (pos 0) ≡ false)

-- From the n-th reading of the mailbox after `h` on, the deadline is past.
abbrev pub ExpiresBy : Env → ℕ → Option (ℕ × ℕ) → History → Type 0
ExpiresBy env n none h = ⊥
ExpiresBy env n (some deadline) h = (h' : History) → After h n h' → IsPast env deadline h'

-- The deadline of a task that reads the clock when `h` is past.
abbrev pub dies_at : Env → ℕ × ℕ → History → ℕ × ℕ
dies_at env lifetime h =
    let r = env.reply Call.gettimeofday h in (r.time.0 + lifetime.0, r.time.1 + lifetime.1 / 1000)

-- A task with a lifetime finds its deadline past, at most n readings of the mailbox after it set it.
abbrev pub OutlivedBy : Env → ℕ → ℕ × ℕ → History → Type 0
OutlivedBy env n lifetime h =
    (env.is_zero lifetime ≡ false)
    × ((h' : History)
        → After h 0 h'
        → ExpiresBy env n (some (dies_at env lifetime h')) (Call.gettimeofday ∷ h'))
