-- ===== src/Peers/Find.antt =====
-- The searches findPeerByFd, findPeerByAssocId, findPeerByRemote and findPeerByPath give the first
-- entry below the count that passes their test.
use sctp_sandbox_c.Base.{
  ℕ, zero, suc, ◌<◌, ◌≡◌, refl, Bool, true, false, List, [], ◌∷◌, Option, none, some, get_elem?,
  length_of_get_elem?, Bool-cases, inl, inr, arith,
}
use sctp_sandbox_c.Peers.{Peer, Socket, find_peer}
use sctp_sandbox_c.Peers.Table.{InTable}

-- The first entry below the count that passes, or that there is none.
abbrev pub Finds : (Peer → Bool) → ℕ → List Peer → Option ℕ → Type 0
Finds test count peers none =
    (j : ℕ) (q : Peer) → j < count → get_elem? peers j ≡ some q → test q ≡ false
Finds test count peers (some i) =
    (i < count)
    × ((p : Peer) × (get_elem? peers i ≡ some p) × (test p ≡ true))
    × ((j : ℕ) (q : Peer) → j < i → get_elem? peers j ≡ some q → test q ≡ false)

Finds-here :
    (test : Peer → Bool) (count : ℕ) (p : Peer) (peers : List Peer)
    → test p ≡ true
    → Finds test (suc count) (p ∷ peers) (some 0)
Finds-here test count p peers e = (omega arith, (p, refl, e), λ j q h _. absurd (omega arith))

Finds-none :
    (test : Peer → Bool) (count : ℕ) (p : Peer) (peers : List Peer)
    → test p ≡ false
    → Finds test count peers none
    → Finds test (suc count) (p ∷ peers) none
Finds-none test count p peers e f zero q h g = ground arith
Finds-none test count p peers e f (suc j) q h g = f j q (omega arith) g

Finds-later :
    (test : Peer → Bool) (count : ℕ) (p : Peer) (peers : List Peer) (i : ℕ)
    → test p ≡ false
    → Finds test count peers (some i)
    → Finds test (suc count) (p ∷ peers) (some (suc i))
Finds-later test count p peers i e f = (omega arith, f.1, earlier)
  where
    earlier : (j : ℕ) (q : Peer) → j < suc i → get_elem? (p ∷ peers) j ≡ some q → test q ≡ false
    earlier zero q h g = ground arith
    earlier (suc j) q h g = f.2 j q (omega arith) g

step_find :
    (test : Peer → Bool) (count : ℕ) (p : Peer) (peers : List Peer) (o : Option ℕ)
    → test p ≡ false
    → Finds test count peers o
    → Finds test (suc count) (p ∷ peers) (elim o [ none ↦ none | some i ↦ some (suc i) ])
step_find test count p peers none e f = Finds-none test count p peers e f
step_find test count p peers (some i) e f = Finds-later test count p peers i e f

-- A search of the table gives the first entry below the count that passes its test, and none
-- exactly where no entry below the count passes.
pub find_peer-Finds :
    (test : Peer → Bool) (count : ℕ) (peers : List Peer)
    → Finds test count peers (find_peer test count peers)
unfolding find_peer
find_peer-Finds test zero peers = λ j q h _. absurd (omega arith)
find_peer-Finds test (suc count) [] = λ j q h g. cc
find_peer-Finds test (suc count) (p ∷ peers) = elim (Bool-cases (test p)) [
  | inl e ↦ rw e (Finds-here test count p peers e)
  | inr e ↦ rw e (step_find test count p peers _ e (find_peer-Finds test count peers))
]

Finds-InTable :
    (s : Socket) (test : Peer → Bool) (o : Option ℕ)
    → Finds test s.peer_count s.peers o
    → InTable s o
Finds-InTable s test none f = tt
Finds-InTable s test (some i) f = length_of_get_elem? s.peers i f.1.0 f.1.1

-- What is found lies in the array.
pub find_peer-InTable :
    (s : Socket) (test : Peer → Bool) → InTable s (find_peer test s.peer_count s.peers)
find_peer-InTable s test = Finds-InTable s test _ (find_peer-Finds test s.peer_count s.peers)
