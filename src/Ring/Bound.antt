-- ===== src/Ring/Bound.antt =====
-- Distinct addresses of a pool are at most as many as its blocks.
use low_latency_trading_syst.Prelude.{
  ℕ, zero, suc, ◌≤◌, ◌≡◌, false, ◌==◌, List, [], ◌∷◌, arith, All, length, Bool-cases, inl, inr,
}
use low_latency_trading_syst.Ring.Chain.{has, Distinct, erase, erase-Distinct}

abbrev pub Within : ℕ → ℕ → Type 0
Within n x = (1 ≤ x) × (x ≤ n)

length-erase-le : (a : ℕ) (xs : List ℕ) → length xs ≤ suc (length (erase a xs))
length-erase-le a [] = omega arith
length-erase-le a (x ∷ xs) = ground (arith, length-erase-le a xs)

below : (n : ℕ) (xs : List ℕ) → has (suc n) xs ≡ false → All (Within (suc n)) xs → All (Within n) xs
below n [] h w = tt
below n (x ∷ xs) h w = (ground arith, below n xs (ground arith) w.1)

erase-below :
    (n : ℕ) (xs : List ℕ)
    → Distinct xs
    → All (Within (suc n)) xs
    → All (Within n) (erase (suc n) xs)
erase-below n [] d w = tt
erase-below n (x ∷ xs) d w = elim (Bool-cases (suc n == x)) [
  | inl e ↦ rw e (below n xs (ground arith) w.1)
  | inr e ↦ rw e (ground arith, erase-below n xs d.1 w.1)
]

pub length-le-bound : (n : ℕ) (xs : List ℕ) → Distinct xs → All (Within n) xs → length xs ≤ n
length-le-bound zero [] d w = omega arith
length-le-bound zero (x ∷ xs) d w = absurd (omega (arith, w.0.0, w.0.1))
length-le-bound (suc n) xs d w = omega (
  arith,
  length-erase-le (suc n) xs,
  length-le-bound n (erase (suc n) xs) (erase-Distinct (suc n) xs d) (erase-below n xs d w),
)
