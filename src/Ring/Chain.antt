-- ===== src/Ring/Chain.antt =====
-- Segments and rings of doubly linked nodes, and lists of distinct addresses.
use low_latency_trading_syst.Prelude.{
  ℕ, ◌≡◌, ◌≢◌, refl, Bool, true, false, ◌||◌, ◌==◌, if◌then◌else◌, List, [], ◌∷◌, ◌++◌, arith, All,
  ◌⊎◌, inl, inr, Bool-cases,
}

abbrev pub has : ℕ → List ℕ → Bool
has a [] = false
has a (x ∷ xs) = (a == x) || has a xs

abbrev pub Distinct : List ℕ → Type 0
Distinct [] = Unit
Distinct (x ∷ xs) = (has x xs ≡ false) × Distinct xs

-- The list without the first occurrence of an address.
abbrev pub erase : ℕ → List ℕ → List ℕ
erase a [] = []
erase a (x ∷ xs) = if a == x then xs else x ∷ erase a xs

pub has-append : (a : ℕ) (xs ys : List ℕ) → has a (xs ++ ys) ≡ (has a xs || has a ys)
has-append a [] ys = refl
has-append a (x ∷ xs) ys = ground (arith, has-append a xs ys)

pub has-erase : (a o : ℕ) (xs : List ℕ) → has a xs ≡ false → has a (erase o xs) ≡ false
has-erase a o [] h = refl
has-erase a o (x ∷ xs) h = ground (arith, has-erase a o xs)

pub has-erase_ne : (a o : ℕ) (xs : List ℕ) → a ≢ o → has a (erase o xs) ≡ has a xs
has-erase_ne a o [] h = refl
has-erase_ne a o (x ∷ xs) h = ground (arith, has-erase_ne a o xs)

pub erase-Distinct : (o : ℕ) (xs : List ℕ) → Distinct xs → Distinct (erase o xs)
erase-Distinct o [] d = tt
erase-Distinct o (x ∷ xs) d = ground (arith, erase-Distinct o xs d.1, has-erase x o xs)

pub not-has-erase : (o : ℕ) (xs : List ℕ) → Distinct xs → has o (erase o xs) ≡ false
not-has-erase o [] d = refl
not-has-erase o (x ∷ xs) d = ground (arith, not-has-erase o xs d.1)

pub snoc-Distinct : (n : ℕ) (xs : List ℕ) → Distinct xs → has n xs ≡ false → Distinct (xs ++ n ∷ [])
snoc-Distinct n [] d h = (refl, tt)
snoc-Distinct n (x ∷ xs) d h = ground (arith, snoc-Distinct n xs d.1, has-append x xs (n ∷ []))

pub erase-snoc : (x : ℕ) (xs : List ℕ) → has x xs ≡ false → erase x (xs ++ x ∷ []) ≡ xs
erase-snoc x [] h = ground arith
erase-snoc x (y ∷ xs) h = ground (arith, erase-snoc x xs)

pub Distinct-append_left : (xs ys : List ℕ) → Distinct (xs ++ ys) → Distinct xs
Distinct-append_left [] ys d = tt
Distinct-append_left (x ∷ xs) ys d =
    ground (arith, has-append x xs ys, Distinct-append_left xs ys d.1)

pub Distinct-append_right : (xs ys : List ℕ) → Distinct (xs ++ ys) → Distinct ys
Distinct-append_right [] ys d = d
Distinct-append_right (x ∷ xs) ys d = Distinct-append_right xs ys d.1

pub Distinct-apart :
    (xs ys : List ℕ) → Distinct (xs ++ ys) → (p : ℕ) → has p xs ≡ true → has p ys ≡ false
Distinct-apart [] ys d p h = cc
Distinct-apart (x ∷ xs) ys d p h = ground (arith, has-append x xs ys, Distinct-apart xs ys d.1 p)

pub All-erase {ℓ} : (P : ℕ → Type ℓ) (o : ℕ) (xs : List ℕ) → All P xs → All P (erase o xs)
All-erase P o [] h = tt
All-erase P o (x ∷ xs) h = elim (Bool-cases (o == x)) [
  | inl e ↦ rw e h.1
  | inr e ↦ rw e (h.0, All-erase P o xs h.1)
]

pub All-has {ℓ} : (P : ℕ → Type ℓ) (a : ℕ) (xs : List ℕ) → All P xs → has a xs ≡ true → P a
All-has P a [] h k = cc
All-has P a (x ∷ xs) h k = elim (Bool-cases (a == x)) [
  | inl e ↦ let same : a ≡ x = ground arith in rw same h.0
  | inr e ↦ All-has P a xs h.1 (ground arith)
]

module _ (nx pv : ℕ → ℕ) where
  -- From `a` the pointers lead through `xs` to `b`, and back.
  abbrev pub Chain : ℕ → List ℕ → ℕ → Type 0
  Chain a [] b = (nx a ≡ b) × (pv b ≡ a)
  Chain a (x ∷ xs) b = (nx a ≡ x) × (pv x ≡ a) × Chain x xs b

  -- The nodes of a list form a ring in that order.
  abbrev pub IsRing : List ℕ → Type 0
  IsRing [] = Unit
  IsRing (x ∷ xs) = Chain x xs x

  pub Chain-join :
      (a : ℕ) (ys : List ℕ) (o : ℕ) (zs : List ℕ) (b : ℕ)
      → Chain a ys o
      → Chain o zs b
      → Chain a (ys ++ o ∷ zs) b
  Chain-join a [] o zs b c d = (c.0, c.1, d)
  Chain-join a (y ∷ ys) o zs b c d = (c.0, c.1, Chain-join y ys o zs b c.2 d)

  pub Chain-split :
      (a : ℕ) (ys : List ℕ) (o : ℕ) (zs : List ℕ) (b : ℕ)
      → Chain a (ys ++ o ∷ zs) b
      → Chain a ys o × Chain o zs b
  Chain-split a [] o zs b c = ((c.0, c.1), c.2)
  Chain-split a (y ∷ ys) o zs b c =
      let parts = Chain-split y ys o zs b c.2 in ((c.0, c.1, parts.0), parts.1)

  -- A ring may be read from its second node.
  pub rotate : (x y : ℕ) (ys : List ℕ) → IsRing (x ∷ y ∷ ys) → IsRing (y ∷ ys ++ x ∷ [])
  rotate x y ys c = Chain-join y ys x [] y c.2 (c.0, c.1)

  -- And from its last.
  pub rotate_back : (x : ℕ) (xs : List ℕ) (n : ℕ) → IsRing (x ∷ xs ++ n ∷ []) → IsRing (n ∷ x ∷ xs)
  rotate_back x xs n c = let parts = Chain-split x xs n [] x c in (parts.1.0, parts.1.1, parts.0)

  -- The node before the end is on the segment.
  pub has-last : (a : ℕ) (xs : List ℕ) (b : ℕ) → Chain a xs b → has (pv b) (a ∷ xs) ≡ true
  has-last a [] b c = ground arith
  has-last a (x ∷ xs) b c = ground (arith, has-last x xs b c.2)

  -- The node after `o` is on the segment, or is its end; the one before it is on the segment.
  pub has-next :
      (a : ℕ) (xs : List ℕ) (b o : ℕ)
      → Chain a xs b
      → has o xs ≡ true
      → (has (nx o) xs ≡ true) ⊎ (nx o ≡ b)
  has-next a [] b o c h = cc
  has-next a (x ∷ []) b o c h = ground arith
  has-next a (x ∷ y ∷ xs) b o c h = ground (arith, has-next x (y ∷ xs) b o c.2)

  pub has-prev :
      (a : ℕ) (xs : List ℕ) (b o : ℕ) → Chain a xs b → has o xs ≡ true → has (pv o) (a ∷ xs) ≡ true
  has-prev a [] b o c h = cc
  has-prev a (x ∷ xs) b o c h = ground (arith, has-prev x xs b o c.2)

-- Pointers that agree on a segment give the same segment.
pub Chain-frame :
    (nx pv nx' pv' : ℕ → ℕ) (a : ℕ) (xs : List ℕ) (b : ℕ)
    → ((p : ℕ) → has p (a ∷ xs) ≡ true → nx' p ≡ nx p)
    → ((p : ℕ) → has p (b ∷ xs) ≡ true → pv' p ≡ pv p)
    → Chain nx pv a xs b
    → Chain nx' pv' a xs b
Chain-frame nx pv nx' pv' a [] b f g c = ground (arith, f a, g b)
Chain-frame nx pv nx' pv' a (x ∷ xs) b f g c = (
  ground (arith, f a),
  ground (arith, g x),
  Chain-frame nx pv nx' pv' x xs b (λ p h. f p (ground arith)) (λ p h. g p (ground arith)) c.2,
)

pub IsRing-frame :
    (nx pv nx' pv' : ℕ → ℕ) (xs : List ℕ)
    → ((p : ℕ) → has p xs ≡ true → nx' p ≡ nx p)
    → ((p : ℕ) → has p xs ≡ true → pv' p ≡ pv p)
    → IsRing nx pv xs
    → IsRing nx' pv' xs
IsRing-frame nx pv nx' pv' [] f g c = tt
IsRing-frame nx pv nx' pv' (x ∷ xs) f g c = Chain-frame nx pv nx' pv' x xs x f g c

module _ (nx pv : ℕ → ℕ) where
  -- No inner node of a segment points at itself.
  Chain-ne :
      (a : ℕ) (xs : List ℕ) (b o : ℕ)
      → Chain nx pv a xs b
      → has o xs ≡ true
      → Distinct (a ∷ xs)
      → has b xs ≡ false
      → (pv o ≢ o) × (nx o ≢ o)
  Chain-ne a [] b o c h d k = cc
  Chain-ne a (x ∷ []) b o c h d k = ground arith
  Chain-ne a (x ∷ y ∷ xs) b o c h d k = ground (arith, Chain-ne x (y ∷ xs) b o c.2)

  -- Nor does a node of a ring of several.
  pub IsRing-ne :
      (x y : ℕ) (xs : List ℕ) (o : ℕ)
      → IsRing nx pv (x ∷ y ∷ xs)
      → has o (x ∷ y ∷ xs) ≡ true
      → Distinct (x ∷ y ∷ xs)
      → (pv o ≢ o) × (nx o ≢ o)
  IsRing-ne x y xs o c h d = elim (Bool-cases (o == x)) [
    | inl e ↦ ground (arith, has-last nx pv x (y ∷ xs) x c, has-last nx pv y xs x c.2)
    | inr e ↦ Chain-ne x (y ∷ xs) x o c (ground arith) d d.0
  ]

  -- The neighbours of a node of a ring are on it.
  pub IsRing-has :
      (x : ℕ) (xs : List ℕ) (o : ℕ)
      → IsRing nx pv (x ∷ xs)
      → has o (x ∷ xs) ≡ true
      → (has (pv o) (x ∷ xs) ≡ true) × (has (nx o) (x ∷ xs) ≡ true)
  IsRing-has x [] o c h = ground arith
  IsRing-has x (y ∷ xs) o c h = elim (Bool-cases (o == x)) [
    | inl e ↦ ground (arith, has-last nx pv x (y ∷ xs) x c)
    | inr e ↦ ground (arith, has-prev nx pv x (y ∷ xs) x o c, has-next nx pv x (y ∷ xs) x o c)
  ]

  pub IsRing-has_any :
      (xs : List ℕ) (o : ℕ)
      → IsRing nx pv xs
      → has o xs ≡ true
      → (has (pv o) xs ≡ true) × (has (nx o) xs ≡ true)
  IsRing-has_any [] o c h = cc
  IsRing-has_any (x ∷ xs) o c h = IsRing-has x xs o c h
