-- ===== src/Common/LfQueue/Fifo.antt =====
-- The queue of common/lf_queue.h against a plain list, oldest element first.
use low_latency_trading_syst.Prelude.{
  ℕ, zero, suc, ◌+◌, ◌-◌, ◌%◌, ◌≤◌, ◌<◌, ◌≡◌, refl, update, ◌==◌, ltb, leb, if◌then◌else◌, ok,
  fatal, arith, List, [], ◌∷◌, ◌++◌, none, some, length, ap, ◌∙◌,
}
use low_latency_trading_syst.Common.Types.{u64_mod}
use low_latency_trading_syst.Common.LfQueue.Defs.{
  LfQueue, init, write_next, update_write_index, push, get_next_to_read, update_read_index,
}

-- The index after `i`, and the index `n` places after it.
abbrev wrap : ℕ → ℕ → ℕ
wrap cap i = if i == cap then 0 else i

abbrev ahead : ℕ → ℕ → ℕ → ℕ
ahead cap i n = if ltb (i + n) cap then i + n else i + n - cap

mod_wrap : (cap i : ℕ) → i < cap → (i + 1) % cap ≡ wrap cap (i + 1)
mod_wrap cap i h = grind arith

module _ {A : Type 0} where
  -- The `n` elements that are stored from index `i` on.
  unfoldable pub items : (ℕ → A) → ℕ → ℕ → ℕ → List A
  items store cap zero i = []
  items store cap (suc n) i = store i ∷ items store cap n (wrap cap (i + 1))

  -- The queue as a list.
  unfoldable pub contents : LfQueue A → List A
  contents q = items q.store q.capacity q.num_elements q.next_read_index

  pub record IsValid (q : LfQueue A) : Type 0 where
    pub fits : q.num_elements ≤ q.capacity
    pub addressable : q.capacity + 1 < u64_mod
    pub reads : q.next_read_index < q.capacity
    pub writes : q.next_write_index ≡ ahead q.capacity q.next_read_index q.num_elements

  items-update :
      (store : ℕ → A) (cap n i w : ℕ) (a : A)
      → i < cap
      → w < cap
      → n ≤ (if leb i w then w - i else cap + w - i)
      → items (update store w a) cap n i ≡ items store cap n i
  unfolding items update
  items-update store cap zero i w a h hw far = refl
  items-update store cap (suc n) i w a h hw far =
      ground (arith, items-update store cap n (wrap cap (i + 1)) w a)

  items-suc :
      (store : ℕ → A) (cap n i : ℕ)
      → i < cap
      → n < cap
      → items store cap (suc n) i ≡ items store cap n i ++ store (ahead cap i n) ∷ []
  unfolding items
  items-suc store cap zero i h k = ground arith
  items-suc store cap (suc n) i h k = ground (arith, items-suc store cap n (wrap cap (i + 1)))

  length-items : (store : ℕ → A) (cap n i : ℕ) → length (items store cap n i) ≡ n
  unfolding items
  length-items store cap zero i = refl
  length-items store cap (suc n) i = ap suc (length-items store cap n (wrap cap (i + 1)))

  items-cons :
      (store : ℕ → A) (cap n i : ℕ) (a : A) (rest : List A)
      → items store cap n i ≡ a ∷ rest
      → (0 < n) × (store i ≡ a) × (items store cap (n - 1) (wrap cap (i + 1)) ≡ rest)
  unfolding items
  items-cons store cap zero i a rest e = cc
  items-cons store cap (suc n) i a rest e =
      let same : suc n - 1 ≡ n = omega arith in (omega arith, ground arith, rw same (ground arith))

  pub length-contents : (q : LfQueue A) → length (contents q) ≡ q.num_elements
  unfolding contents
  length-contents q = length-items q.store q.capacity q.num_elements q.next_read_index

  -- A new queue is empty.
  pub init-IsValid : (default : A) (n : ℕ) → 0 < n → n + 1 < u64_mod → IsValid (init default n)
  unfolding init
  init-IsValid default n h k = ground arith

  module _ (q : LfQueue A) (v : IsValid q) where
    write_in_range : q.next_write_index < q.capacity
    write_in_range = ground (arith, v.writes, v.fits, v.reads)

    -- On a well-formed queue with room, writing an element puts it behind all that are stored.
    pub contents-push :
        (a : A) → q.num_elements < q.capacity → contents (push q a) ≡ contents q ++ a ∷ []
    unfolding contents push write_next update_write_index update
    contents-push a room =
        let one_more : (q.num_elements + 1) % u64_mod ≡ suc q.num_elements =
          omega (arith, v.fits, v.addressable) in
        rw one_more (
          items-suc _ q.capacity q.num_elements q.next_read_index v.reads room
          ∙ ground (
            arith,
            v.writes,
            items-update q.store q.capacity q.num_elements q.next_read_index q.next_write_index a
                v.reads write_in_range (ground (arith, v.writes, v.reads)),
          ))

    -- Writing to a queue with room keeps it well formed.
    pub push-IsValid : (a : A) → q.num_elements < q.capacity → IsValid (push q a)
    unfolding push write_next update_write_index
    push-IsValid a room = ground (arith, v, mod_wrap q.capacity q.next_write_index write_in_range)

    -- An empty queue gives nothing to read, and ends the process on an update of the read index.
    pub read_empty : contents q ≡ [] → (get_next_to_read q ≡ none) × (update_read_index q ≡ fatal)
    unfolding get_next_to_read update_read_index contents
    read_empty e =
        ground
          (arith, ap length e, length-items q.store q.capacity q.num_elements q.next_read_index)

    pub advance : LfQueue A
    advance = record q {
      next_read_index = (q.next_read_index + 1) % q.capacity;
      num_elements = q.num_elements - 1;
    }

    -- On a well-formed queue that is not empty, a read gives the oldest element, and updating the read
    -- index succeeds, takes that element off and keeps the queue well formed.
    pub read_oldest :
        (a : A) (rest : List A)
        → contents q ≡ a ∷ rest
        → (get_next_to_read q ≡ some a)
          × (update_read_index q ≡ ok advance)
          × (contents advance ≡ rest)
          × IsValid advance
    unfolding get_next_to_read update_read_index contents advance
    read_oldest a rest e =
        let split = items-cons q.store q.capacity q.num_elements q.next_read_index a rest e in
        let wrapped = mod_wrap q.capacity q.next_read_index v.reads in
        (
          ground (arith, split),
          ground (arith, split),
          rw wrapped split.2,
          ground (arith, v, split.0, wrapped),
        )

    -- On a full queue a write is the next to be read, in place of the oldest element, and the count of
    -- elements is then above the capacity.
    pub push_full :
        (a : A)
        → q.num_elements ≡ q.capacity
        → (get_next_to_read (push q a) ≡ some a) × (q.capacity < (push q a).num_elements)
    unfolding get_next_to_read push write_next update_write_index update
    push_full a full =
        let one_more : (q.num_elements + 1) % u64_mod ≡ suc q.num_elements =
          omega (arith, v.fits, v.addressable) in
        rw one_more (ground (arith, v.writes, v.reads), ground arith)
