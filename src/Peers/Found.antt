-- ===== src/Peers/Found.antt =====
-- The entry that a search of the table gives, and how it changes with an entry.
use sctp_sandbox_c.Base.{
  ℕ, zero, suc, ◌<◌, ◌≡◌, refl, Bool, true, false, List, [], ◌∷◌, Option, none, some, get_elem?,
  set, length, Option-cases, arith, if◌then◌else◌,
}
use sctp_sandbox_c.Peers.{Peer, find_peer}
use sctp_sandbox_c.Peers.Matching.{matching}

-- The first entry below the count that passes.
unfoldable pub found : (Peer → Bool) → (count : ℕ) → List Peer → Option Peer
found test zero peers = none
found test (suc count) [] = none
found test (suc count) (p ∷ peers) =
    let rest = found test count peers in if test p then some p else rest

pub found-find :
    (test : Peer → Bool) (count : ℕ) (peers : List Peer) (i : ℕ) (p : Peer)
    → find_peer test count peers ≡ some i
    → get_elem? peers i ≡ some p
    → found test count peers ≡ some p
unfolding found find_peer
found-find test zero peers i p e g = absurd (ground arith)
found-find test (suc count) [] i p e g = absurd (ground arith)
found-find test (suc count) (x ∷ peers) zero p e g =
    ground (arith, Option-cases (find_peer test count peers))
found-find test (suc count) (x ∷ peers) (suc i) p e g =
    ground (arith, Option-cases (find_peer test count peers), found-find test count peers i p)

-- Nothing is found where nothing matches.
pub found-none :
    (test : Peer → Bool) (count : ℕ) (peers : List Peer)
    → matching test count peers ≡ 0
    → found test count peers ≡ none
unfolding found matching
found-none test zero peers e = refl
found-none test (suc count) [] e = refl
found-none test (suc count) (p ∷ peers) e = ground (arith, found-none test count peers)

-- Nothing matches where nothing is found.
pub none-matching :
    (test : Peer → Bool) (count : ℕ) (peers : List Peer)
    → found test count peers ≡ none
    → matching test count peers ≡ 0
unfolding found matching
none-matching test zero peers e = refl
none-matching test (suc count) [] e = refl
none-matching test (suc count) (p ∷ peers) e = ground (arith, none-matching test count peers)

-- Another entry in place of one, where neither passes.
pub found-set :
    (test : Peer → Bool) (count : ℕ) (peers : List Peer) (i : ℕ) (p q : Peer)
    → get_elem? peers i ≡ some p
    → test p ≡ false
    → test q ≡ false
    → found test count (set peers i q) ≡ found test count peers
unfolding found
found-set test zero peers i p q e a b = refl
found-set test (suc count) [] i p q e a b = refl
found-set test (suc count) (x ∷ peers) zero p q e a b = ground arith
found-set test (suc count) (x ∷ peers) (suc i) p q e a b =
    ground (arith, found-set test count peers i p q e a b)

-- The entry behind the last comes to be searched.
pub found-add :
    (test : Peer → Bool) (count : ℕ) (peers : List Peer) (q : Peer)
    → count < length peers
    → found test (suc count) (set peers count q)
      ≡ elim (found test count peers) [ none ↦ if test q then some q else none | some p ↦ some p ]
unfolding found
found-add test zero [] q h = absurd (omega arith)
found-add test zero (x ∷ peers) q h = refl
found-add test (suc count) [] q h = absurd (omega arith)
found-add test (suc count) (x ∷ peers) q h =
    ground (arith, found-add test count peers q (omega arith))

module _ (test : Peer → Bool) (count : ℕ) (peers : List Peer) (q : Peer)
    (room : count < length peers) where
  pub found-add_other :
      test q ≡ false → found test (suc count) (set peers count q) ≡ found test count peers
  found-add_other other =
      ground (arith, found-add test count peers q room, Option-cases (found test count peers))

  pub found-add_first :
      test q ≡ true
      → found test count peers ≡ none
      → found test (suc count) (set peers count q) ≡ some q
  found-add_first own nothing = ground (arith, found-add test count peers q room)
