-- ===== src/Common/MemPool/Map.antt =====
-- The pool of common/mem_pool.h with every object replaced: its operations do not look at the objects.
use low_latency_trading_syst.Prelude.{
  ℕ, zero, suc, ◌+◌, ◌-◌, ◌≡◌, refl, ap, fun_ext, arith, true, false, ◌&&◌, ◌==◌, ltb, leb, update,
  Bool-cases, inl, inr, Result-cases, ok, ◌>>=◌,
}
use low_latency_trading_syst.Common.MemPool.Defs.{
  Ptr, addr, ObjectBlock, MemPool, assign, wrap_next, find_free, update_next_free_index, allocate,
  deallocate,
}

module _ {A B : Type 0} (f : A → B) where
  abbrev map_block : ObjectBlock A → ObjectBlock B
  map_block block = record { object = f block.object; is_free = block.is_free }

  abbrev map_store : (Ptr → ObjectBlock A) → Ptr → ObjectBlock B
  map_store store p = map_block (store p)

  -- A pool with every object replaced.
  abbrev pub map_pool : MemPool A → MemPool B
  map_pool pool = record {
    store = map_store pool.store;
    size = pool.size;
    next_free_index = pool.next_free_index;
  }

  map_update :
      (store : Ptr → ObjectBlock A) (p : Ptr) (block : ObjectBlock A)
      → update (map_store store) p (map_block block) ≡ map_store (update store p block)
  unfolding update
  map_update store p block =
      fun_ext
        (λ q. elim (Bool-cases (q == p)) [ inl here ↦ rw here refl | inr other ↦ rw other refl ])

  pub assign-map_pool :
      (pool : MemPool A) (p : Ptr) (a : A)
      → assign (map_pool pool) p (f a) ≡ map_pool (assign pool p a)
  unfolding assign
  assign-map_pool pool p a =
      ap
        (λ (store : Ptr → ObjectBlock B). record {
          store = store;
          size = pool.size;
          next_free_index = pool.next_free_index;
        })
        (map_update pool.store p (record { object = a; is_free = (pool.store p).is_free }))

  find_free-map_store :
      (store : Ptr → ObjectBlock A) (size initial n i : ℕ)
      → find_free (map_store store) size initial n i ≡ find_free store size initial n i
  unfolding find_free
  find_free-map_store store size initial zero i = refl
  find_free-map_store store size initial (suc n) i =
      ground (arith, find_free-map_store store size initial n (wrap_next size i))

  pub deallocate-map_pool :
      (pool : MemPool A) (p : Ptr)
      → deallocate (map_pool pool) p ≡ (deallocate pool p >>= λ q. ok (map_pool q))
  unfolding deallocate
  deallocate-map_pool pool p = elim (Bool-cases (leb 1 p && ltb (p - 1) pool.size)) [
    | inl inside ↦ elim (Bool-cases (pool.store p).is_free) [
      | inl free ↦ rw inside (rw free refl)
      | inr used ↦ rw inside (
          rw used (
            ap
              (λ (store : Ptr → ObjectBlock B). ok (record {
                store = store;
                size = pool.size;
                next_free_index = pool.next_free_index;
              }))
              (map_update pool.store p
                (record { object = (pool.store p).object; is_free = true }))))
    ]
    | inr outside ↦ rw outside refl
  ]

  update_next-map_pool :
      (pool : MemPool A)
      → update_next_free_index (map_pool pool)
        ≡ (update_next_free_index pool >>= λ q. ok (map_pool q))
  unfolding update_next_free_index
  update_next-map_pool pool =
      rw
        (find_free-map_store pool.store pool.size pool.next_free_index (pool.size + 1)
          pool.next_free_index)
        (elim (Result-cases (
          find_free pool.store pool.size pool.next_free_index (pool.size + 1)
            pool.next_free_index)) [
              | inl (inl (i, run)) ↦ rw run refl
              | inl (inr run) ↦ rw run refl
              | inr run ↦ rw run refl
            ])

  pub allocate-map_pool :
      (pool : MemPool A) (a : A)
      → allocate (map_pool pool) (f a) ≡ (allocate pool a >>= λ r. ok (r.0, map_pool r.1))
  unfolding allocate
  allocate-map_pool pool a = elim (Bool-cases (pool.store (addr pool.next_free_index)).is_free) [
    | inl free ↦
        let block : ObjectBlock A = record { object = a; is_free = false } in
        let pool1 : MemPool A = record pool {
          store = update pool.store (addr pool.next_free_index) block;
        } in
        rw free (
          rw (map_update pool.store (addr pool.next_free_index) block) (
            rw (update_next-map_pool pool1) (elim (Result-cases (update_next_free_index pool1)) [
              | inl (inl (q, run)) ↦ rw run refl
              | inl (inr run) ↦ rw run refl
              | inr run ↦ rw run refl
            ])))
    | inr used ↦ rw used refl
  ]
