-- ===== src/Exchange/OrderBook/Sides.antt =====
-- Lists of price levels: prices in order, distinct addresses, and the level that holds an order.
use low_latency_trading_syst.Prelude.{
  ℕ, ◌≡◌, ◌≢◌, refl, true, false, ◌||◌, arith, List, [], ◌∷◌, ◌++◌, append_assoc, All, All-append,
  Bool-cases, inl, inr, ap, ◌∙◌, sym, subst,
}
use low_latency_trading_syst.Ring.Chain.{has, has-append, erase, Distinct, All-has}
use low_latency_trading_syst.Ring.Change.{head_or_null}
use low_latency_trading_syst.Common.Types.{Price, Side}
use low_latency_trading_syst.Common.MemPool.Defs.{Ptr}
use low_latency_trading_syst.Exchange.OrderBook.State.{MeOrderBook, level, goes_after}
use low_latency_trading_syst.Exchange.OrderBook.Shape.{
  Entry, orders, ptrs, head_ptr, all_orders, IsOrder, IsLevel, Sorted,
}

-- `goes_after` is a strict order.
pub goes_after_irrefl : (side : Side) (p : Price) → goes_after side p p ≡ false
unfolding goes_after
goes_after_irrefl Side.buy p = ground arith
goes_after_irrefl Side.sell p = ground arith
goes_after_irrefl Side.invalid p = refl
goes_after_irrefl Side.max p = refl

pub goes_after_trans :
    (side : Side) (p q r : Price)
    → goes_after side p q ≡ true
    → goes_after side q r ≡ true
    → goes_after side p r ≡ true
unfolding goes_after
goes_after_trans Side.buy p q r h k = ground arith
goes_after_trans Side.sell p q r h k = ground arith
goes_after_trans Side.invalid p q r h k = cc
goes_after_trans Side.max p q r h k = cc

-- Every entry but one: the list with the entry at hand set apart.
pub record Located (p : Ptr) (es : List Entry) : Type 0 where
  pub before : List Entry
  pub at : Entry
  pub behind : List Entry
  pub parts : es ≡ before ++ at ∷ behind
  pub here : has p (orders at) ≡ true
  pub not_before : has p (all_orders before) ≡ false

pub locate : (p : Ptr) (es : List Entry) → has p (all_orders es) ≡ true → Located p es
locate p [] h = cc
locate p (e ∷ es) h = elim (Bool-cases (has p (orders e))) [
  | inl here ↦ record {
    before = [];
    at = e;
    behind = es;
    parts = refl;
    here = here;
    not_before = refl;
  }
  | inr away ↦
      let rest = locate p es (ground (arith, has-append p (orders e) (all_orders es))) in
      record {
        before = e ∷ rest.before;
        at = rest.at;
        behind = rest.behind;
        parts = ap (λ l. e ∷ l) rest.parts;
        here = rest.here;
        not_before =
            ground (arith, has-append p (orders e) (all_orders rest.before), away, rest.not_before);
      }
]

pub ptrs-append : (xs ys : List Entry) → ptrs (xs ++ ys) ≡ ptrs xs ++ ptrs ys
ptrs-append [] ys = refl
ptrs-append (x ∷ xs) ys = ap (λ l. x.ptr ∷ l) (ptrs-append xs ys)

pub All-append_left {ℓ} : (P : Entry → Type ℓ) (xs ys : List Entry) → All P (xs ++ ys) → All P xs
All-append_left P [] ys h = tt
All-append_left P (x ∷ xs) ys h = (h.0, All-append_left P xs ys h.1)

pub All-append_right {ℓ} : (P : Entry → Type ℓ) (xs ys : List Entry) → All P (xs ++ ys) → All P ys
All-append_right P [] ys h = h
All-append_right P (x ∷ xs) ys h = All-append_right P xs ys h.1

pub All-map {ℓ κ} :
    (P : Entry → Type ℓ) (Q : Entry → Type κ) (xs : List Entry)
    → ((x : Entry) → P x → Q x)
    → All P xs
    → All Q xs
All-map P Q [] f h = tt
All-map P Q (x ∷ xs) f h = (f x h.0, All-map P Q xs f h.1)

pub All-both {ℓ κ ι} :
    (P : Entry → Type ℓ) (Q : Entry → Type κ) (R : Entry → Type ι) (xs : List Entry)
    → ((x : Entry) → P x → Q x → R x)
    → All P xs
    → All Q xs
    → All R xs
All-both P Q R [] f h k = tt
All-both P Q R (x ∷ xs) f h k = (f x h.0 k.0, All-both P Q R xs f h.1 k.1)

-- Prices of a sorted side: those before and those behind differ from the one at hand.
pub Sorted-apart_behind :
    (side : Side) (pre : List Entry) (e : Entry) (post : List Entry)
    → Sorted side (pre ++ e ∷ post)
    → All (λ f. f.price ≢ e.price) post
Sorted-apart_behind side [] e post s =
    All-map (λ f. goes_after side f.price e.price ≡ true) (λ f. f.price ≢ e.price) post
      (λ f h. ground (arith, goes_after_irrefl side e.price)) s.0
Sorted-apart_behind side (x ∷ pre) e post s = Sorted-apart_behind side pre e post s.1

pub Sorted-apart_before :
    (side : Side) (pre : List Entry) (e : Entry) (post : List Entry)
    → Sorted side (pre ++ e ∷ post)
    → All (λ f. f.price ≢ e.price) pre
Sorted-apart_before side [] e post s = tt
Sorted-apart_before side (x ∷ pre) e post s =
    let behind =
      All-append_right (λ f. goes_after side f.price x.price ≡ true) pre (e ∷ post) s.0 in
    (
      ground (arith, behind.0, goes_after_irrefl side e.price),
      Sorted-apart_before side pre e post s.1,
    )

-- A side stays sorted when a level is left out, or replaced by one of the same price.
pub Sorted-without :
    (side : Side) (pre : List Entry) (e : Entry) (post : List Entry)
    → Sorted side (pre ++ e ∷ post)
    → Sorted side (pre ++ post)
Sorted-without side [] e post s = s.1
Sorted-without side (x ∷ pre) e post s =
    let P = λ (f : Entry). goes_after side f.price x.price ≡ true in
    (
      All-append P pre post (All-append_left P pre (e ∷ post) s.0)
          (All-append_right P pre (e ∷ post) s.0).1,
      Sorted-without side pre e post s.1,
    )

pub Sorted-replace :
    (side : Side) (pre : List Entry) (e f : Entry) (post : List Entry)
    → f.price ≡ e.price
    → Sorted side (pre ++ e ∷ post)
    → Sorted side (pre ++ f ∷ post)
Sorted-replace side [] e f post h s =
    (subst (λ pr. All (λ g. goes_after side g.price pr ≡ true) post) (sym h) s.0, s.1)
Sorted-replace side (x ∷ pre) e f post h s =
    let P = λ (g : Entry). goes_after side g.price x.price ≡ true in
    let right = All-append_right P pre (e ∷ post) s.0 in
    (
      All-append P pre (f ∷ post) (All-append_left P pre (e ∷ post) s.0)
          (ground (arith, right.0), right.1),
      Sorted-replace side pre e f post h s.1,
    )

-- Levels of different prices lie at different addresses.
pub not-has-ptrs :
    (b : MeOrderBook) (side : Side) (es : List Entry) (p : Ptr) (price : Price)
    → (level b p).price ≡ price
    → All (IsLevel b side) es
    → All (λ f. f.price ≢ price) es
    → has p (ptrs es) ≡ false
not-has-ptrs b side [] p price h l a = refl
not-has-ptrs b side (e ∷ es) p price h l a =
    ground (arith, not-has-ptrs b side es p price h l.1 a.1, l.0.at_price, a.0)

pub Distinct-ptrs :
    (b : MeOrderBook) (side : Side) (es : List Entry)
    → All (IsLevel b side) es
    → Sorted side es
    → Distinct (ptrs es)
Distinct-ptrs b side [] l s = tt
Distinct-ptrs b side (e ∷ es) l s = (
  not-has-ptrs b side es e.ptr e.price l.0.at_price l.1 (Sorted-apart_behind side [] e es s),
  Distinct-ptrs b side es l.1 s.1,
)

pub erase-ptrs :
    (pre : List Entry) (e : Entry) (post : List Entry)
    → has e.ptr (ptrs pre) ≡ false
    → erase e.ptr (ptrs (pre ++ e ∷ post)) ≡ ptrs (pre ++ post)
erase-ptrs [] e post h = ground arith
erase-ptrs (x ∷ pre) e post h = ground (arith, erase-ptrs pre e post)

pub has-ptrs :
    (pre : List Entry) (e : Entry) (post : List Entry) → has e.ptr (ptrs (pre ++ e ∷ post)) ≡ true
has-ptrs [] e post = ground arith
has-ptrs (x ∷ pre) e post = ground (arith, has-ptrs pre e post)

pub all_orders-append :
    (xs ys : List Entry) → all_orders (xs ++ ys) ≡ all_orders xs ++ all_orders ys
all_orders-append [] ys = refl
all_orders-append (x ∷ xs) ys =
    ap (λ l. orders x ++ l) (all_orders-append xs ys)
    ∙ sym (append_assoc (orders x) (all_orders xs) (all_orders ys))

-- Where an address is among the orders of a list of levels.
pub has-all_orders :
    (q : Ptr) (pre : List Entry) (e : Entry) (post other : List Entry)
    → has q (all_orders ((pre ++ e ∷ post) ++ other))
      ≡ (has q (all_orders pre) || has q (orders e) || has q (all_orders (post ++ other)))
has-all_orders q [] e post other = has-append q (orders e) (all_orders (post ++ other))
has-all_orders q (x ∷ pre) e post other = ground (
  arith,
  has-append q (orders x) (all_orders ((pre ++ e ∷ post) ++ other)),
  has-append q (orders x) (all_orders pre),
  has-all_orders q pre e post other,
)

pub has-all_orders_without :
    (q : Ptr) (pre post other : List Entry)
    → has q (all_orders ((pre ++ post) ++ other))
      ≡ (has q (all_orders pre) || has q (all_orders (post ++ other)))
has-all_orders_without q [] post other = refl
has-all_orders_without q (x ∷ pre) post other = ground (
  arith,
  has-append q (orders x) (all_orders ((pre ++ post) ++ other)),
  has-append q (orders x) (all_orders pre),
  has-all_orders_without q pre post other,
)

pub ptrs-replace :
    (pre : List Entry) (e f : Entry) (post : List Entry)
    → f.ptr ≡ e.ptr
    → ptrs (pre ++ f ∷ post) ≡ ptrs (pre ++ e ∷ post)
ptrs-replace [] e f post h = ground arith
ptrs-replace (x ∷ pre) e f post h = ap (λ l. x.ptr ∷ l) (ptrs-replace pre e f post h)

pub head_ptr-ptrs : (es : List Entry) → head_ptr es ≡ head_or_null (ptrs es)
head_ptr-ptrs [] = refl
head_ptr-ptrs (e ∷ es) = refl

pub level-side :
    (b : MeOrderBook) (side : Side) (es : List Entry) (q : Ptr)
    → All (IsLevel b side) es
    → has q (ptrs es) ≡ true
    → (level b q).side ≡ side
level-side b side [] q l h = cc
level-side b side (e ∷ es) q l h = ground (arith, level-side b side es q l.1, l.0.on_side)

-- Orders of one side, all together.
pub has-IsOrder :
    (b : MeOrderBook) (side : Side) (es : List Entry) (q : Ptr)
    → All (IsLevel b side) es
    → has q (all_orders es) ≡ true
    → (price : Price) × IsOrder b side price q × (All (λ f. f.price ≢ price) es → ⊥)
has-IsOrder b side [] q l h = cc
has-IsOrder b side (e ∷ es) q l h = elim (Bool-cases (has q (orders e))) [
  | inl here ↦ (
    e.price,
    All-has (IsOrder b side e.price) q (orders e) l.0.members here,
    λ apart. apart.0 refl,
  )
  | inr away ↦
      let (price, o, spot) =
        has-IsOrder b side es q l.1 (ground (arith, has-append q (orders e) (all_orders es))) in
      (price, o, λ apart. spot apart.1)
]

-- An order of another price is not among them.
pub not-has-order :
    (b : MeOrderBook) (side : Side) (es : List Entry) (q : Ptr) (price : Price)
    → All (IsLevel b side) es
    → IsOrder b side price q
    → All (λ f. f.price ≢ price) es
    → has q (all_orders es) ≡ false
not-has-order b side es q price l o apart = elim (Bool-cases (has q (all_orders es))) [
  | inl there ↦
      let (price', o', spot) = has-IsOrder b side es q l there in
      absurd (spot (subst (λ pr. All (λ f. f.price ≢ pr) es) (sym o.at_price ∙ o'.at_price) apart))
  | inr away ↦ away
]

Distinct-join :
    (xs ys : List ℕ)
    → Distinct xs
    → Distinct ys
    → ((q : ℕ) → has q xs ≡ true → has q ys ≡ false)
    → Distinct (xs ++ ys)
Distinct-join [] ys d e apart = e
Distinct-join (x ∷ xs) ys d e apart = (
  ground (arith, has-append x xs ys, apart x),
  Distinct-join xs ys d.1 e (λ q m. apart q (ground arith)),
)

-- No order stands at two places of a side.
pub Distinct-all_orders :
    (b : MeOrderBook) (side : Side) (es : List Entry)
    → All (IsLevel b side) es
    → Sorted side es
    → Distinct (all_orders es)
Distinct-all_orders b side [] l s = tt
Distinct-all_orders b side (e ∷ es) l s =
    Distinct-join (orders e) (all_orders es) l.0.distinct (Distinct-all_orders b side es l.1 s.1)
      (λ q m.
        not-has-order b side es q e.price l.1
          (All-has (IsOrder b side e.price) q (orders e) l.0.members m)
          (Sorted-apart_behind side [] e es s))
