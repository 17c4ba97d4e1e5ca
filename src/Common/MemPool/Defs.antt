-- ===== src/Common/MemPool/Defs.antt =====
-- common/mem_pool.h. The block `store_[i]` has the address `i + 1`, and 0 is the null pointer.
-- `ASSERT` ends the process, which is `fatal`. The search for a free block gets `size + 1` rounds
-- of fuel: it stops when it is back where it began.
use low_latency_trading_syst.Prelude.{
  ℕ, zero, suc, ◌+◌, ◌-◌, Bool, true, false, not, ◌&&◌, update, ◌==◌, leb, ltb, if◌then◌else◌,
  Result, ok, fatal, out_of_fuel, ◌>>=◌, ◌>>◌, assert,
}

abbrev pub Ptr : Type 0
Ptr = ℕ

abbrev pub null : Ptr
null = 0

-- The address of `store_[i]`.
abbrev pub addr : ℕ → Ptr
addr i = i + 1

pub record ObjectBlock (A : Type 0) : Type 0 where
  pub object : A
  pub is_free : Bool

pub record MemPool (A : Type 0) : Type 0 where
  pub store : Ptr → ObjectBlock A
  pub size : ℕ
  pub next_free_index : ℕ

-- `++next_free_index_`, back to 0 at the end of the vector.
unfoldable pub wrap_next : ℕ → ℕ → ℕ
wrap_next size i = if i + 1 == size then 0 else i + 1

module _ {A : Type 0} where
  -- The constructor: every block holds `T()` and is free.
  unfoldable pub init : A → ℕ → MemPool A
  init default num_elems = record {
    store = λ _. record { object = default; is_free = true };
    size = num_elems;
    next_free_index = 0;
  }

  -- `*p`
  unfoldable pub deref : MemPool A → Ptr → A
  deref pool p = (pool.store p).object

  -- Assignment through a pointer.
  unfoldable pub assign : MemPool A → Ptr → A → MemPool A
  assign pool p a = record pool {
    store = update pool.store p (record (pool.store p) { object = a });
  }

  -- The loop of `updateNextFreeIndex`.
  unfoldable pub find_free : (Ptr → ObjectBlock A) → ℕ → ℕ → ℕ → ℕ → Result ℕ
  find_free store size initial zero i = out_of_fuel
  find_free store size initial (suc fuel) i = elim (store (addr i)).is_free [
    | true ↦ ok i
    | false ↦ elim (initial == wrap_next size i) [
      | true ↦ fatal
      | false ↦ find_free store size initial fuel (wrap_next size i)
    ]
  ]

  unfoldable pub update_next_free_index : MemPool A → Result (MemPool A)
  update_next_free_index pool = do
    i ← find_free pool.store pool.size pool.next_free_index (pool.size + 1) pool.next_free_index
    ok (record pool { next_free_index = i })

  unfoldable pub allocate : MemPool A → A → Result (Ptr × MemPool A)
  allocate pool a = do
    let p = addr pool.next_free_index
    assert (pool.store p).is_free
    pool' ←
        update_next_free_index
          (record pool { store = update pool.store p (record { object = a; is_free = false }) })
    ok (p, pool')

  unfoldable pub deallocate : MemPool A → Ptr → Result (MemPool A)
  deallocate pool p = do
    assert (leb 1 p && ltb (p - 1) pool.size)
    assert (not (pool.store p).is_free)
    ok (record pool { store = update pool.store p (record (pool.store p) { is_free = true }) })
