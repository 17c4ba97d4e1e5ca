-- ===== src/Common/MemPool/Examples.antt =====
-- Examples of the laws of the memory pool of common/mem_pool.h, on a pool of three blocks.
use low_latency_trading_syst.Prelude.{ℕ, ◌≡◌, ◌≢◌, refl, ◌==◌, ok, fatal, out_of_fuel, arith}
use low_latency_trading_syst.Common.MemPool.Defs.{Ptr, MemPool, init, allocate}
use low_latency_trading_syst.Common.MemPool.Laws.{
  IsValid, Allocated, init-IsValid, allocate_succeeds, allocate_last, allocate_stops,
}

abbrev fresh : MemPool ℕ
unfolding init
fresh = init 0 3

-- The last of the three blocks is free.
abbrev nearly_full : MemPool ℕ
nearly_full = record {
  store = λ p. record { object = p; is_free = p == 3 };
  size = 3;
  next_free_index = 2;
}

nearly_full-IsValid : IsValid nearly_full
nearly_full-IsValid = record { in_range = omega arith; free = refl }

allocate_succeeds_example :
    (p : Ptr) × (pool' : MemPool ℕ) × (allocate fresh 5 ≡ ok (p, pool')) × Allocated fresh 5 p pool'
unfolding init
allocate_succeeds_example =
    allocate_succeeds fresh 5 (init-IsValid 0 3 (omega arith)) 2 (omega arith) (omega arith) refl

allocate_last_example : allocate nearly_full 5 ≡ fatal
allocate_last_example = allocate_last nearly_full 5 nearly_full-IsValid (λ j h ne. ground arith)

allocate_stops_example : allocate nearly_full 5 ≢ out_of_fuel
allocate_stops_example = allocate_stops nearly_full 5 (omega arith)
