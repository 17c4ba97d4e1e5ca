-- ===== src/Ring/Change.antt =====
-- What an insertion into a ring and a removal from it make of the ring.
use low_latency_trading_syst.Prelude.{
  ℕ, ◌≡◌, ◌≢◌, refl, true, false, ◌==◌, if◌then◌else◌, List, [], ◌∷◌, ◌++◌, arith, inl, inr,
  Bool-cases, subst,
}
use low_latency_trading_syst.Ring.Chain.{
  has, Distinct, erase, has-append, Chain, IsRing, Chain-frame, has-last, has-next, has-prev,
  rotate, IsRing-ne, Chain-split, Chain-join, erase-snoc, Distinct-apart, Distinct-append_left,
  Distinct-append_right, snoc-Distinct,
}

-- Node `n` now stands between `u` and `v`.
pub record Inserted (nx pv nx' pv' : ℕ → ℕ) (u n v : ℕ) : Type 0 where
  pub next_u : nx' u ≡ n
  pub next_n : nx' n ≡ v
  pub prev_v : pv' v ≡ n
  pub prev_n : pv' n ≡ u
  pub next_same : (p : ℕ) → p ≢ u → p ≢ n → nx' p ≡ nx p
  pub prev_same : (p : ℕ) → p ≢ v → p ≢ n → pv' p ≡ pv p

-- Node `o`, which stood between `u` and `w`, is bridged.
pub record Bridged (nx pv nx' pv' : ℕ → ℕ) (u o w : ℕ) : Type 0 where
  pub next_u : nx' u ≡ w
  pub prev_w : pv' w ≡ u
  pub next_same : (p : ℕ) → p ≢ u → p ≢ o → nx' p ≡ nx p
  pub prev_same : (p : ℕ) → p ≢ w → p ≢ o → pv' p ≡ pv p

module _ {nx pv nx' pv' : ℕ → ℕ} where
  pub Chain-insert :
      (a : ℕ) (ys : List ℕ) (u n v : ℕ)
      → Inserted nx pv nx' pv' u n v
      → u ≡ pv v
      → Chain nx pv a ys v
      → Distinct (a ∷ ys)
      → has v ys ≡ false
      → has n (v ∷ a ∷ ys) ≡ false
      → Chain nx' pv' a (ys ++ n ∷ []) v
  Chain-insert a [] u n v i e c d h k = ground (arith, i)
  Chain-insert a (y ∷ ys) u n v i e c d h k = (
    ground (arith, i.next_same a, has-last nx pv y ys v c.2),
    ground (arith, i.prev_same y),
    Chain-insert y ys u n v i e c.2 d.1 (ground arith) (ground arith),
  )

  bridge-head :
      (a x : ℕ) (xs : List ℕ) (b : ℕ)
      → Bridged nx pv nx' pv' (pv x) x (nx x)
      → Chain nx pv a (x ∷ xs) b
      → Distinct (a ∷ x ∷ xs)
      → has b (x ∷ xs) ≡ false
      → Chain nx' pv' a xs b
  bridge-head a x [] b r c d k = ground (arith, r)
  bridge-head a x (z ∷ zs) b r c d k = (
    ground (arith, r),
    ground (arith, r),
    Chain-frame nx pv nx' pv' z zs b (λ p h. ground (arith, r.next_same p))
        (λ p h. ground (arith, r.prev_same p)) c.2.2,
  )

  pub Chain-bridge :
      (a : ℕ) (xs : List ℕ) (b o : ℕ)
      → Bridged nx pv nx' pv' (pv o) o (nx o)
      → Chain nx pv a xs b
      → has o xs ≡ true
      → Distinct (a ∷ xs)
      → has b xs ≡ false
      → Chain nx' pv' a (erase o xs) b
  Chain-bridge a [] b o r c h d k = cc
  Chain-bridge a (x ∷ xs) b o r c h d k = elim (Bool-cases (o == x)) [
    | inl e ↦
        let same : o ≡ x = ground arith in
        rw e
          (bridge-head a x xs b (subst (λ q. Bridged nx pv nx' pv' (pv q) q (nx q)) same r) c d k)
    | inr e ↦ rw e (
      ground (arith, r.next_same a, has-prev nx pv x xs b o c.2),
      ground (arith, r.prev_same x, has-next nx pv x xs b o c.2),
      Chain-bridge x xs b o r c.2 (ground arith) d.1 (ground arith),
    )
  ]

  -- A node that is added between the last and the first comes last.
  pub IsRing-snoc :
      (x : ℕ) (xs : List ℕ) (n : ℕ)
      → Inserted nx pv nx' pv' (pv x) n x
      → IsRing nx pv (x ∷ xs)
      → Distinct (x ∷ xs)
      → has n (x ∷ xs) ≡ false
      → IsRing nx' pv' (x ∷ xs ++ n ∷ [])
  IsRing-snoc x xs n i c d h = Chain-insert x xs (pv x) n x i refl c d d.0 (ground arith)

  -- A node that is added before an inner node comes there.
  pub IsRing-insert :
      (x : ℕ) (ys : List ℕ) (n v : ℕ) (zs : List ℕ)
      → Inserted nx pv nx' pv' (pv v) n v
      → IsRing nx pv (x ∷ ys ++ v ∷ zs)
      → Distinct (x ∷ ys ++ v ∷ zs)
      → has n (x ∷ ys ++ v ∷ zs) ≡ false
      → IsRing nx' pv' (x ∷ (ys ++ n ∷ []) ++ v ∷ zs)
  IsRing-insert x ys n v zs i c d h =
      let parts = Chain-split nx pv x ys v zs x c in
      let apart = Distinct-apart (x ∷ ys) (v ∷ zs) d in
      let right = Distinct-append_right (x ∷ ys) (v ∷ zs) d in
      let left = Distinct-append_left (x ∷ ys) (v ∷ zs) d in
      let fresh = has-append n (x ∷ ys) (v ∷ zs) in
      let first =
        Chain-insert x ys (pv v) n v i refl parts.0 left (ground (arith, apart v))
          (ground (arith, fresh)) in
      let second =
        Chain-frame nx pv nx' pv' v zs x
          (λ p m. ground (arith, i.next_same p, fresh, apart (pv v), has-last nx pv x ys v parts.0))
          (λ p m. ground (arith, i.prev_same p, fresh, apart x, right)) parts.1 in
      Chain-join nx' pv' x (ys ++ n ∷ []) v zs x first second

  -- A ring of several nodes without one of them.
  pub IsRing-erase :
      (x y : ℕ) (xs : List ℕ) (o : ℕ)
      → Bridged nx pv nx' pv' (pv o) o (nx o)
      → IsRing nx pv (x ∷ y ∷ xs)
      → has o (x ∷ y ∷ xs) ≡ true
      → Distinct (x ∷ y ∷ xs)
      → IsRing nx' pv' (erase o (x ∷ y ∷ xs))
  IsRing-erase x y xs o r c h d = elim (Bool-cases (o == x)) [
    | inl e ↦
        let same : o ≡ x = ground arith in
        rw e (
          subst (λ l. Chain nx' pv' y l y) (erase-snoc x xs (ground arith))
            (Chain-bridge y (xs ++ x ∷ []) y x
              (subst (λ q. Bridged nx pv nx' pv' (pv q) q (nx q)) same r) (rotate nx pv x y xs c)
              (ground (arith, has-append x xs (x ∷ []))) (snoc-Distinct x (y ∷ xs) d.1 d.0)
              (ground (arith, has-append y xs (x ∷ [])))))
    | inr e ↦ rw e (Chain-bridge x (y ∷ xs) x o r c (ground arith) d d.0)
  ]

-- The first node of a list, or null.
abbrev pub head_or_null : List ℕ → ℕ
head_or_null [] = 0
head_or_null (x ∷ xs) = x

module _ (nx pv nx' pv' : ℕ → ℕ) (o : ℕ) where
  -- A ring of any size without one of its nodes.
  pub IsRing-erase_any :
      (xs : List ℕ)
      → (pv o ≢ o → nx o ≢ o → Bridged nx pv nx' pv' (pv o) o (nx o))
      → IsRing nx pv xs
      → has o xs ≡ true
      → Distinct xs
      → IsRing nx' pv' (erase o xs)
  IsRing-erase_any [] r c h d = cc
  IsRing-erase_any (x ∷ []) r c h d = let same : (o == x) ≡ true = ground arith in rw same tt
  IsRing-erase_any (x ∷ y ∷ xs) r c h d =
      let ne = IsRing-ne nx pv x y xs o c h d in IsRing-erase x y xs o (r ne.0 ne.1) c h d

  -- Its first node afterwards, by whether `o` stood alone and whether it was the first.
  pub head-erase :
      (xs : List ℕ) (t : ℕ)
      → (nx o ≡ o → t ≡ 0)
      → (nx o ≢ o → t ≡ (if o == head_or_null xs then nx o else head_or_null xs))
      → IsRing nx pv xs
      → has o xs ≡ true
      → Distinct xs
      → t ≡ head_or_null (erase o xs)
  head-erase [] t f g c h d = cc
  head-erase (x ∷ []) t f g c h d = ground (arith, f)
  head-erase (x ∷ y ∷ xs) t f g c h d = ground (arith, g (IsRing-ne nx pv x y xs o c h d).1)
