-- ===== src/Common/LfQueue/Examples.antt =====
-- Examples of the laws of the queue of common/lf_queue.h, on a queue of three places.
use low_latency_trading_syst.Prelude.{
  ℕ, ◌<◌, ◌≡◌, refl, ok, some, ◌==◌, if◌then◌else◌, [], ◌∷◌, ◌++◌, arith,
}
use low_latency_trading_syst.Common.LfQueue.Defs.{
  LfQueue, push, get_next_to_read, update_read_index,
}
use low_latency_trading_syst.Common.LfQueue.Fifo.{
  contents, items, IsValid, contents-push, read_oldest, advance, push_full,
}

-- Places 2 and 0 hold 7 and 8.
abbrev wrapped : LfQueue ℕ
wrapped = record {
  store = λ i. if i == 2 then 7 else 8;
  capacity = 3;
  next_write_index = 1;
  next_read_index = 2;
  num_elements = 2;
}

wrapped-IsValid : IsValid wrapped
wrapped-IsValid = ground arith

abbrev full : LfQueue ℕ
full = record wrapped { next_write_index = 2; num_elements = 3 }

full-IsValid : IsValid full
full-IsValid = ground arith

contents-push_example : contents (push wrapped 9) ≡ contents wrapped ++ 9 ∷ []
contents-push_example = contents-push wrapped wrapped-IsValid 9 (omega arith)

read_oldest_example :
    (get_next_to_read wrapped ≡ some 7)
    × (update_read_index wrapped ≡ ok (advance wrapped wrapped-IsValid))
    × (contents (advance wrapped wrapped-IsValid) ≡ 8 ∷ [])
    × IsValid (advance wrapped wrapped-IsValid)
unfolding contents items
read_oldest_example = read_oldest wrapped wrapped-IsValid 7 (8 ∷ []) refl

push_full_example : (get_next_to_read (push full 9) ≡ some 9) × (3 < (push full 9).num_elements)
push_full_example = push_full full full-IsValid 9 refl
