-- ===== src/FdSet/Select.antt =====
-- FDSet.c: the loop over the descriptors finds the first ten that are ready, in order; the bound of
-- the loop lies above every descriptor that was set.
use sctp_sandbox_c.Base.{
  ℕ, zero, suc, ◌+◌, ◌≤◌, ◌<◌, ◌≡◌, refl, sym, Bool, true, List, [], ◌∷◌, ◌++◌, ℤ, pos, negsuc,
  length, length-append, take, ltb, Bool-cases, inl, inr, arith, if◌then◌else◌,
}
use mathlib.Core.List.{append-nil, append_assoc}
use sctp_sandbox_c.Os.{ok, History}
use sctp_sandbox_c.FdSet.{FdSet, set_fd, select_loop, selected_fds_max_count}

-- The ready ones among i, …, i + n - 1.
unfoldable pub ready : (ℕ → Bool) → ℕ → ℕ → List ℕ
ready is_set zero i = []
ready is_set (suc n) i = let rest = ready is_set n (i + 1) in if is_set i then i ∷ rest else rest

take-append {ℓ} :
    {A : Type ℓ} (n : ℕ) (xs ys : List A) → n ≤ length xs → take n (xs ++ ys) ≡ take n xs
take-append zero xs ys h = refl
take-append (suc n) [] ys h = absurd (omega arith)
take-append (suc n) (x ∷ xs) ys h = rw (take-append n xs ys (omega arith))

take-all {ℓ} : {A : Type ℓ} (n : ℕ) (xs : List A) → length xs ≤ n → take n xs ≡ xs
take-all zero [] h = refl
take-all zero (x ∷ xs) h = absurd (omega arith)
take-all (suc n) [] h = refl
take-all (suc n) (x ∷ xs) h = rw (take-all n xs (omega arith))

-- With no more than ten descriptors stored at its start, the loop over the descriptors ends with
-- the first ten of those stored and those of its range that are ready, in order.
pub select_loop-take :
    (is_set : ℕ → Bool) (n i : ℕ) (found : List ℕ)
    → length found ≤ selected_fds_max_count
    → select_loop is_set n i found ≡ take selected_fds_max_count (found ++ ready is_set n i)
unfolding select_loop ready
select_loop-take is_set zero i found h =
    sym (rw append-nil (take-all selected_fds_max_count found h))
select_loop-take is_set (suc n) i found h = elim (Bool-cases (is_set i)) [
  | inr not_set ↦ ground (arith, select_loop-take is_set n (i + 1) found h)
  | inl is ↦ elim (Bool-cases (ltb (length found) selected_fds_max_count)) [
    | inl room ↦ ground (
      arith,
      select_loop-take is_set n (i + 1) (found ++ i ∷ []),
      length-append found (i ∷ []),
      append_assoc found (i ∷ []) (ready is_set n (i + 1)),
    )
    | inr full ↦ ground (
      arith,
      select_loop-take is_set n (i + 1) found h,
      take-append selected_fds_max_count found (ready is_set n (i + 1)),
      take-append selected_fds_max_count found (i ∷ ready is_set n (i + 1)),
    )
  ]
]

-- Entries rise from `lo` on.
abbrev pub Ascends : ℕ → List ℕ → Type 0
Ascends lo [] = Unit {0}
Ascends lo (x ∷ xs) = (lo ≤ x) × Ascends (x + 1) xs

-- Every entry is ready, and lies below `hi`.
abbrev pub AllReady : (ℕ → Bool) → ℕ → List ℕ → Type 0
AllReady is_set hi [] = Unit {0}
AllReady is_set hi (x ∷ xs) = (is_set x ≡ true) × (x < hi) × AllReady is_set hi xs

Ascends-mono : (lo hi : ℕ) (xs : List ℕ) → lo ≤ hi → Ascends hi xs → Ascends lo xs
Ascends-mono lo hi [] h a = tt
Ascends-mono lo hi (x ∷ xs) h a = (omega arith, a.1)

ready-Ascends : (is_set : ℕ → Bool) (n i : ℕ) → Ascends i (ready is_set n i)
unfolding ready
ready-Ascends is_set zero i = tt
ready-Ascends is_set (suc n) i =
    ground (arith, ready-Ascends is_set n (i + 1), Ascends-mono i (i + 1) (ready is_set n (i + 1)))

ready-AllReady :
    (is_set : ℕ → Bool) (n i hi : ℕ) → i + n ≤ hi → AllReady is_set hi (ready is_set n i)
unfolding ready
ready-AllReady is_set zero i hi h = tt
ready-AllReady is_set (suc n) i hi h = ground (arith, ready-AllReady is_set n (i + 1) hi)

take-Ascends : (n lo : ℕ) (xs : List ℕ) → Ascends lo xs → Ascends lo (take n xs)
take-Ascends zero lo xs a = tt
take-Ascends (suc n) lo [] a = tt
take-Ascends (suc n) lo (x ∷ xs) a = (a.0, take-Ascends n (x + 1) xs a.1)

take-AllReady :
    (is_set : ℕ → Bool) (n hi : ℕ) (xs : List ℕ)
    → AllReady is_set hi xs
    → AllReady is_set hi (take n xs)
take-AllReady is_set zero hi xs a = tt
take-AllReady is_set (suc n) hi [] a = tt
take-AllReady is_set (suc n) hi (x ∷ xs) a = (a.0, a.1, take-AllReady is_set n hi xs a.2)

-- The loop from 0 over a bound stores rising descriptors, so none twice, all of them ready and
-- below the bound.
pub select_loop-Ascends :
    (is_set : ℕ → Bool) (n : ℕ)
    → Ascends 0 (select_loop is_set n 0 []) × AllReady is_set n (select_loop is_set n 0 [])
select_loop-Ascends is_set n = rw (select_loop-take is_set n 0 [] (omega arith)) (
  take-Ascends selected_fds_max_count 0 _ (ready-Ascends is_set n 0),
  take-AllReady is_set selected_fds_max_count n _ (ready-AllReady is_set n 0 n (omega arith)),
)

-- Every descriptor in the set lies below `fd_max`.
abbrev pub Below : ℕ → List ℕ → Type 0
Below n [] = Unit {0}
Below n (fd ∷ fds) = (fd < n) × Below n fds

Below-mono : (m n : ℕ) (fds : List ℕ) → m ≤ n → Below m fds → Below n fds
Below-mono m n [] h b = tt
Below-mono m n (fd ∷ fds) h b = (omega arith, Below-mono m n fds h b.1)

-- Where setting a descriptor returns, the bound of the loop lies above every descriptor of the set,
-- if it did so before, and the set has just that one descriptor more.
pub set_fd-Below :
    (f g : FdSet) (fd : ℤ) (h h' : History)
    → Below f.fd_max f.fds
    → set_fd f fd h ≡ ok g h'
    → Below g.fd_max g.fds × ((n : ℕ) × (fd ≡ pos n) × (g.fds ≡ n ∷ f.fds))
unfolding set_fd
set_fd-Below f g (negsuc n) h h' b e = cc
set_fd-Below f g (pos fd) h h' b e =
    let wider = Below-mono f.fd_max (fd + 1) f.fds in
    (ground (arith, wider), (fd, refl, ground arith))
