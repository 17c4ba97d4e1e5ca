-- ===== src/Common/LfQueue/Defs.antt =====
-- common/lf_queue.h, under sequentially consistent execution of one call at a time. The atomic
-- counters are `size_t`; `store` is what the vector holds at each index.
use low_latency_trading_syst.Prelude.{
  ℕ, ◌+◌, ◌-◌, ◌%◌, not, Option, none, some, update, ◌==◌, if◌then◌else◌, Result, ok, ◌>>◌, assert,
}
use low_latency_trading_syst.Common.Types.{u64_mod}

pub record LfQueue (A : Type 0) : Type 0 where
  pub store : ℕ → A
  pub capacity : ℕ
  pub next_write_index : ℕ
  pub next_read_index : ℕ
  pub num_elements : ℕ

module _ {A : Type 0} where
  unfoldable pub init : A → ℕ → LfQueue A
  init default num_elems = record {
    store = λ _. default;
    capacity = num_elems;
    next_write_index = 0;
    next_read_index = 0;
    num_elements = 0;
  }

  -- `*getNextToWriteTo() = a`
  unfoldable pub write_next : LfQueue A → A → LfQueue A
  write_next q a = record q { store = update q.store q.next_write_index a }

  unfoldable pub update_write_index : LfQueue A → LfQueue A
  update_write_index q = record q {
    next_write_index = (q.next_write_index + 1) % q.capacity;
    num_elements = (q.num_elements + 1) % u64_mod;
  }

  -- A writer's three lines: fetch the slot, fill it, publish it.
  unfoldable pub push : LfQueue A → A → LfQueue A
  push q a = update_write_index (write_next q a)

  unfoldable pub get_next_to_read : LfQueue A → Option A
  get_next_to_read q = if q.num_elements == 0 then none else some (q.store q.next_read_index)

  unfoldable pub update_read_index : LfQueue A → Result (LfQueue A)
  update_read_index q = do
    assert (not (q.num_elements == 0))
    ok (record q {
      next_read_index = (q.next_read_index + 1) % q.capacity;
      num_elements = q.num_elements - 1;
    })
