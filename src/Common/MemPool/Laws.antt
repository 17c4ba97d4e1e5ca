-- ===== src/Common/MemPool/Laws.antt =====
-- Laws of the memory pool of common/mem_pool.h.
use low_latency_trading_syst.Prelude.{
  ℕ, zero, suc, ◌+◌, ◌-◌, ◌≤◌, ◌<◌, ◌≡◌, ◌≢◌, refl, ◌⊎◌, inl, inr, true, false, update, ◌==◌, ltb,
  leb, if◌then◌else◌, Result, ok, fatal, out_of_fuel, arith, Bool-cases, Result-cases,
}
use low_latency_trading_syst.Common.MemPool.Defs.{
  Ptr, addr, ObjectBlock, MemPool, init, wrap_next, find_free, update_next_free_index, allocate,
  deallocate,
}

-- How far the search goes from `i` to `j`, and how far until it is back at `initial`.
abbrev steps : ℕ → ℕ → ℕ → ℕ
steps size i j = if leb i j then j - i else size + j - i

abbrev lap : ℕ → ℕ → ℕ → ℕ
lap size i initial = if ltb i initial then initial - i else size + initial - i

module _ {A : Type 0} (store : Ptr → ObjectBlock A) (size initial : ℕ)
    (start : initial < size) where
  -- What the search returns is a free block of the pool.
  find_free_sound :
      (fuel i k : ℕ)
      → i < size
      → find_free store size initial fuel i ≡ ok k
      → (k < size) × ((store (addr k)).is_free ≡ true)
  unfolding find_free wrap_next
  find_free_sound zero i k h e = ground arith
  find_free_sound (suc fuel) i k h e = ground (arith, find_free_sound fuel (wrap_next size i) k)

  -- The search does not use up its fuel.
  find_free_stops :
      (fuel i : ℕ)
      → i < size
      → lap size i initial < fuel
      → find_free store size initial fuel i ≢ out_of_fuel
  unfolding find_free wrap_next
  find_free_stops zero i h f = ground arith
  find_free_stops (suc fuel) i h f = ground (arith, find_free_stops fuel (wrap_next size i))

  -- It finds a free block that lies before the end of the lap.
  find_free_complete :
      (fuel i j : ℕ)
      → i < size
      → j < size
      → (store (addr j)).is_free ≡ true
      → steps size i j < lap size i initial
      → lap size i initial < fuel
      → find_free store size initial fuel i ≢ fatal
  unfolding find_free wrap_next
  find_free_complete zero i j h hj free s f = ground arith
  find_free_complete (suc fuel) i j h hj free s f = elim (Bool-cases (i == j)) [
    | inl e ↦ ground arith
    | inr e ↦ ground (arith, find_free_complete fuel (wrap_next size i) j)
  ]

-- The next block to be handed out exists and is free.
pub record IsValid {A : Type 0} (pool : MemPool A) : Type 0 where
  pub in_range : pool.next_free_index < pool.size
  pub free : (pool.store (addr pool.next_free_index)).is_free ≡ true

-- What an allocation does: `p` was a free block of the pool, it is now in use and holds `a`, and no
-- other block has changed.
pub record Allocated {A : Type 0} (pool : MemPool A) (a : A) (p : Ptr) (pool' : MemPool A)
    : Type 0 where
  pub pointer : p ≡ addr pool.next_free_index
  pub was_free : (pool.store p).is_free ≡ true
  pub written : pool'.store ≡ update pool.store p (record { object = a; is_free = false })
  pub size : pool'.size ≡ pool.size
  pub valid : IsValid pool'

pub init-IsValid : {A : Type 0} (default : A) (n : ℕ) → 0 < n → IsValid (init default n)
unfolding init
init-IsValid default n h = record { in_range = h; free = refl }

module _ {A : Type 0} (pool : MemPool A) (a : A) (v : IsValid pool) where
  marked : Ptr → ObjectBlock A
  marked = update pool.store (addr pool.next_free_index) (record { object = a; is_free = false })

  search : Result ℕ
  search = find_free marked pool.size pool.next_free_index (pool.size + 1) pool.next_free_index

  allocate-ok_iff :
      (k : ℕ)
      → search ≡ ok k
      → allocate pool a
        ≡ ok (addr pool.next_free_index, record pool { store = marked; next_free_index = k })
  unfolding allocate update_next_free_index search marked
  allocate-ok_iff k e = ground (arith, v.free)

  allocate-fatal_iff : search ≡ fatal → allocate pool a ≡ fatal
  unfolding allocate update_next_free_index search marked
  allocate-fatal_iff e = ground (arith, v.free)

  allocated :
      (k : ℕ)
      → search ≡ ok k
      → Allocated pool a
          (addr pool.next_free_index)
          (record pool { store = marked; next_free_index = k })
  unfolding search marked
  allocated k e =
      let sound =
        find_free_sound _ pool.size pool.next_free_index v.in_range (pool.size + 1)
          pool.next_free_index k v.in_range e in
      record {
        pointer = refl;
        was_free = v.free;
        written = refl;
        size = refl;
        valid = record { in_range = sound.0; free = sound.1 };
      }

  -- A valid pool either allocates, or ends the process.
  pub allocate_cases :
      (allocate pool a ≡ fatal)
      ⊎ ((p : Ptr) × (pool' : MemPool A) × (allocate pool a ≡ ok (p, pool'))
          × Allocated pool a p pool')
  allocate_cases = elim (Result-cases search) [
    | inl (inl (k, e)) ↦ inr (_, _, allocate-ok_iff k e, allocated k e)
    | inl (inr e) ↦ inl (allocate-fatal_iff e)
    | inr e ↦ absurd (stops e)
  ]
    where
      stops : search ≢ out_of_fuel
      stops =
          unfold search in
          find_free_stops _ pool.size pool.next_free_index v.in_range (pool.size + 1)
            pool.next_free_index v.in_range (ground arith)

  -- An allocation succeeds as long as a second block is free.
  pub allocate_succeeds :
      (j : ℕ)
      → j < pool.size
      → j ≢ pool.next_free_index
      → (pool.store (addr j)).is_free ≡ true
      → (p : Ptr) × (pool' : MemPool A) × (allocate pool a ≡ ok (p, pool'))
        × Allocated pool a p pool'
  unfolding search marked
  allocate_succeeds j h ne free = elim (Result-cases search) [
    | inl (inl (k, e)) ↦ (_, _, allocate-ok_iff k e, allocated k e)
    | inl (inr e) ↦ absurd (
        find_free_complete _ pool.size pool.next_free_index v.in_range (pool.size + 1)
          pool.next_free_index j v.in_range h still_free (ground arith) (ground arith) e)
    | inr e ↦ absurd (
        find_free_stops _ pool.size pool.next_free_index v.in_range (pool.size + 1)
          pool.next_free_index v.in_range (ground arith) e)
  ]
    where
      still_free : (marked (addr j)).is_free ≡ true
      still_free = unfold update in ground arith

  -- The pool never hands out its last free block: the process ends instead.
  pub allocate_last :
      ((j : ℕ) → j < pool.size → j ≢ pool.next_free_index → (pool.store (addr j)).is_free ≡ false)
      → allocate pool a ≡ fatal
  unfolding search marked update
  allocate_last full = elim (Result-cases search) [
    | inl (inl (k, e)) ↦
        let sound =
          find_free_sound _ pool.size pool.next_free_index v.in_range (pool.size + 1)
            pool.next_free_index k v.in_range e in
        absurd (ground (arith, sound, full k))
    | inl (inr e) ↦ allocate-fatal_iff e
    | inr e ↦ absurd (
        find_free_stops _ pool.size pool.next_free_index v.in_range (pool.size + 1)
          pool.next_free_index v.in_range (ground arith) e)
  ]

-- On any pool whose next index is in range, whichever blocks are free, an allocation comes to an end: the
-- circular search stops within one round for each block and one.
pub allocate_stops :
    {A : Type 0} (pool : MemPool A) (a : A)
    → pool.next_free_index < pool.size
    → allocate pool a ≢ out_of_fuel
unfolding allocate
allocate_stops pool a h e = elim (Bool-cases (pool.store (addr pool.next_free_index)).is_free) [
  | inl free ↦ elim (allocate_cases pool a (record { in_range = h; free = free })) [
    | inl ended ↦ ground (arith, e, ended)
    | inr (p, pool', run, _) ↦ ground (arith, e, run)
  ]
  | inr used ↦ ground (arith, e, used)
]

module _ {A : Type 0} (pool : MemPool A) (p : Ptr) where
  -- A block that is in use is given back: only its mark changes.
  pub deallocate_lem :
      1 ≤ p
      → p ≤ pool.size
      → (pool.store p).is_free ≡ false
      → deallocate pool p
        ≡ ok
            (record pool { store = update pool.store p (record (pool.store p) { is_free = true }) })
  unfolding deallocate
  deallocate_lem h k used = ground arith

  -- Giving back a block twice, or a pointer of another pool, ends the process.
  pub deallocate_fatal :
      ((pool.store p).is_free ≡ true) ⊎ (pool.size < p) ⊎ (p ≡ 0) → deallocate pool p ≡ fatal
  unfolding deallocate
  deallocate_fatal h = ground arith

  pub deallocate-IsValid :
      {pool' : MemPool A} → IsValid pool → deallocate pool p ≡ ok pool' → IsValid pool'
  unfolding deallocate update
  deallocate-IsValid v e = ground arith
