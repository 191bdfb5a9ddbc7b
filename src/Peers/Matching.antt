-- ===== src/Peers/Matching.antt =====
-- How many entries below the count pass a test, and how that number changes with an entry.
use sctp_sandbox_c.Base.{
  ℕ, zero, suc, ◌+◌, ◌<◌, ◌≡◌, refl, Bool, true, false, List, [], ◌∷◌, none, some, get_elem?, set,
  length, arith, ◌⊎◌, inl, inr, Option,
}
use sctp_sandbox_c.Peers.{Peer, Socket, find_peer}
use sctp_sandbox_c.Peers.Find.{Finds, find_peer-Finds}

abbrev pub one_if : Bool → ℕ
one_if true = 1
one_if false = 0

unfoldable pub matching : (Peer → Bool) → (count : ℕ) → List Peer → ℕ
matching test zero peers = 0
matching test (suc count) [] = 0
matching test (suc count) (p ∷ peers) = one_if (test p) + matching test count peers

-- Another entry in place of one below the count.
pub matching-set :
    (test : Peer → Bool) (count : ℕ) (peers : List Peer) (i : ℕ) (p q : Peer)
    → i < count
    → get_elem? peers i ≡ some p
    → matching test count (set peers i q) + one_if (test p)
      ≡ matching test count peers + one_if (test q)
unfolding matching
matching-set test zero peers i p q h e = absurd (omega arith)
matching-set test (suc count) [] i p q h e = absurd (ground arith)
matching-set test (suc count) (x ∷ peers) zero p q h e = ground arith
matching-set test (suc count) (x ∷ peers) (suc i) p q h e =
    omega (arith, matching-set test count peers i p q (omega arith) e)

-- The entry behind the last comes to be counted.
pub matching-add :
    (test : Peer → Bool) (count : ℕ) (peers : List Peer) (q : Peer)
    → count < length peers
    → matching test (suc count) (set peers count q) ≡ matching test count peers + one_if (test q)
unfolding matching
matching-add test zero [] q h = absurd (omega arith)
matching-add test zero (x ∷ peers) q h = omega arith
matching-add test (suc count) [] q h = absurd (omega arith)
matching-add test (suc count) (x ∷ peers) q h =
    omega (arith, matching-add test count peers q (omega arith))

-- A search finds nothing exactly where nothing matches.
pub matching-none :
    (test : Peer → Bool) (count : ℕ) (peers : List Peer)
    → find_peer test count peers ≡ none
    → matching test count peers ≡ 0
unfolding matching find_peer
matching-none test zero peers e = refl
matching-none test (suc count) [] e = refl
matching-none test (suc count) (p ∷ peers) e = ground (arith, matching-none test count peers)

pub matching_pos :
    (test : Peer → Bool) (count : ℕ) (peers : List Peer) (i : ℕ) (p : Peer)
    → i < count
    → get_elem? peers i ≡ some p
    → test p ≡ true
    → 0 < matching test count peers
unfolding matching
matching_pos test zero peers i p h e t = absurd (omega arith)
matching_pos test (suc count) [] i p h e t = absurd (ground arith)
matching_pos test (suc count) (x ∷ peers) zero p h e t = ground arith
matching_pos test (suc count) (x ∷ peers) (suc i) p h e t =
    omega (arith, matching_pos test count peers i p (omega arith) e t)

-- The entry that a search finds.
abbrev pub HasEntry : (Peer → Bool) → Socket → Type 0
HasEntry test s =
    (i : ℕ) × (p : Peer) × (find_peer test s.peer_count s.peers ≡ some i)
    × (i < s.peer_count)
    × (get_elem? s.peers i ≡ some p)
    × (test p ≡ true)
    × (0 < matching test s.peer_count s.peers)

abbrev pub HasNone : (Peer → Bool) → Socket → Type 0
HasNone test s =
    (find_peer test s.peer_count s.peers ≡ none) × (matching test s.peer_count s.peers ≡ 0)

-- Nothing matches and the search finds nothing, or something matches and the search finds it.
pub by_entry : (test : Peer → Bool) (s : Socket) → HasNone test s ⊎ HasEntry test s
by_entry test s = from_search _ (find_peer-Finds test s.peer_count s.peers) refl
  where
    from_search :
        (o : Option ℕ)
        → Finds test s.peer_count s.peers o
        → find_peer test s.peer_count s.peers ≡ o
        → HasNone test s ⊎ HasEntry test s
    from_search none f e = inl (e, matching-none test s.peer_count s.peers e)
    from_search (some i) (below, (p, there, own), first) e =
        inr (i, p, e, below, there, own, matching_pos test s.peer_count s.peers i p below there own)
