-- ===== src/Exchange/MarketData/Examples.antt =====
-- Examples of the theorems on exchange/market_data, with a pool of four orders.
use low_latency_trading_syst.Prelude.{
  ℕ, ◌+◌, ◌%◌, ◌≡◌, ◌<◌, refl, arith, true, false, ◌==◌, ltb, if◌then◌else◌, update, pos, none,
  List, [], ◌∷◌, ◌++◌, ok,
}
use low_latency_trading_syst.Common.Types.{Side, side_to_index, u64_mod}
use low_latency_trading_syst.Common.MemPool.Defs.{
  null, deref, assign, allocate, update_next_free_index, find_free, wrap_next,
}
use low_latency_trading_syst.Common.LfQueue.Defs.{LfQueue}
use low_latency_trading_syst.Common.LfQueue.Fifo.{contents, items}
use low_latency_trading_syst.Common.McastSocket.{McastSocket}
use low_latency_trading_syst.Exchange.Messages.{
  MarketUpdateType, MeMarketUpdate, MdpMarketUpdate, messages, default_update,
}
use low_latency_trading_syst.Exchange.MarketData.Synthesizer.{
  SnapshotSynthesizer, add_to_snapshot, add_update, add_order, modify_order, check_order, put_ptr,
  publish_snapshot,
}
use low_latency_trading_syst.Exchange.MarketData.Publisher.{MarketDataPublisher, run_round}
use low_latency_trading_syst.Exchange.MarketData.Live.{Live, live, live_step, IsSound}
use low_latency_trading_syst.Exchange.MarketData.Follow.{add_to_snapshot-Follows}
use low_latency_trading_syst.Exchange.MarketData.Cycle.{
  snapshot_body, cycle, publish_snapshot-cycle,
}
use low_latency_trading_syst.Exchange.MarketData.Replay.{replay, replay-publish_snapshot}
use low_latency_trading_syst.Exchange.MarketData.Incremental.{Published, run_round-Published}
use low_latency_trading_syst.Exchange.MarketData.Taken.{
  take_messages, Within, snapshot_then_updates,
}

-- An empty queue for eight elements.
abbrev pub empty_queue : {A : Type 0} → A → LfQueue A
empty_queue a = record {
  store = λ _. a;
  capacity = 8;
  next_write_index = 0;
  next_read_index = 0;
  num_elements = 0;
}

abbrev pub idle_socket : McastSocket MdpMarketUpdate
idle_socket = record { outbound = []; next_send_valid_index = 0; wire = [] }

abbrev no_message : MdpMarketUpdate
no_message = record { seq_num = 0; me_market_update = default_update }

-- Update 1 adds order 1, and the later ones change it.
abbrev pub feed : ℕ → MeMarketUpdate
feed i = record {
  type = if i == 1 then MarketUpdateType.add else MarketUpdateType.modify;
  order_id = 1;
  ticker_id = 0;
  side = Side.buy;
  price = pos 100;
  qty = 10 + i;
  priority = 1;
}

abbrev fresh : SnapshotSynthesizer
fresh = record {
  snapshot_md_updates = empty_queue no_message;
  snapshot_socket = idle_socket;
  ticker_orders = λ _ _. null;
  last_inc_seq_num = 0;
  last_snapshot_time = 0;
  order_pool = record {
    store = λ _. record { object = default_update; is_free = true };
    size = 4;
    next_free_index = 0;
  };
}

fresh-IsSound : IsSound fresh
fresh-IsSound = record {
  pool = record { in_range = omega arith; free = refl };
  used = λ t o ne. absurd (ne refl);
  apart = λ t o t' o' ne e. absurd (ne refl);
  named = λ t o ne. absurd (ne refl);
}

-- The synthesizer when it has taken update 1.
abbrev pub taken : SnapshotSynthesizer
taken = record fresh {
  ticker_orders = λ t. if t == 0 then update (λ _. null) 1 1 else λ _. null;
  last_inc_seq_num = 1;
  order_pool = record {
    store =
        update (λ _. record { object = default_update; is_free = true }) 1
          (record { object = feed 1; is_free = false });
    size = 4;
    next_free_index = 1;
  };
}

take_first : add_to_snapshot fresh (record { seq_num = 1; me_market_update = feed 1 }) ≡ ok taken
unfolding add_to_snapshot add_update add_order put_ptr allocate update_next_free_index find_free
    wrap_next update
take_first = refl

add_to_snapshot-Follows_example :
    IsSound taken
    × ((t o : ℕ) → live taken t o ≡ live_step (live fresh) (feed 1) t o)
    × (fresh.last_inc_seq_num + 1 ≡ (fresh.last_inc_seq_num + 1) % u64_mod)
    × (taken.last_inc_seq_num ≡ fresh.last_inc_seq_num + 1)
add_to_snapshot-Follows_example =
    add_to_snapshot-Follows fresh taken (record { seq_num = 1; me_market_update = feed 1 })
      fresh-IsSound take_first

pub taken-IsSound : IsSound taken
taken-IsSound =
    (add_to_snapshot-Follows fresh taken (record { seq_num = 1; me_market_update = feed 1 })
      fresh-IsSound take_first).0

-- And when it has taken update 2.
abbrev pub changed : SnapshotSynthesizer
unfolding assign deref
changed = record taken {
  last_inc_seq_num = 2;
  order_pool =
      assign taken.order_pool 1 (record (deref taken.order_pool 1) { qty = 12; price = pos 100 });
}

pub take_second : take_messages taken (messages 2 (feed 2 ∷ [])) ≡ ok changed
unfolding take_messages add_to_snapshot add_update modify_order check_order assign deref update
    side_to_index
take_second = refl

pub taken-Within : Within 2 taken 0
unfolding update
taken-Within o ne = ground arith

snapshot_then_updates_example :
    replay (λ _ _. none) (snapshot_body taken 1 2 0 ++ feed 2 ∷ []) 0 1 ≡ live changed 0 1
snapshot_then_updates_example =
    snapshot_then_updates 1 2 2 taken changed (feed 2 ∷ []) (λ _ _. none) 0 1 taken-IsSound
      (λ e. ground (arith, e), tt) (omega arith) taken-Within take_second

publish_snapshot-cycle_example :
    (socket : McastSocket MdpMarketUpdate) × (publish_snapshot 1 2 taken
      ≡ ok (record taken { snapshot_socket = socket }))
    × (socket.wire ≡ messages 0 (cycle 1 2 taken))
    × (socket.outbound ≡ [])
publish_snapshot-cycle_example = publish_snapshot-cycle 1 2 taken refl refl (omega arith)

replay-publish_snapshot_example :
    (socket : McastSocket MdpMarketUpdate) × (us : List MeMarketUpdate) × (publish_snapshot 1 2
        taken
      ≡ ok (record taken { snapshot_socket = socket }))
    × (socket.wire ≡ messages 0 us)
    × ((m : Live) (t o : ℕ) → t < 1 → replay m us t o ≡ (if ltb o 2 then live taken t o else none))
replay-publish_snapshot_example =
    replay-publish_snapshot taken taken-IsSound 1 2 refl refl (omega arith)

-- One update waits to be published.
abbrev pub publisher : MarketDataPublisher
publisher = record {
  next_inc_seq_num = 1;
  outgoing_md_updates = record {
    store = λ _. feed 1;
    capacity = 8;
    next_write_index = 1;
    next_read_index = 0;
    num_elements = 1;
  };
  snapshot_md_updates = empty_queue no_message;
  incremental_socket = idle_socket;
}

run_round-Published_example :
    (p' : MarketDataPublisher) × (run_round publisher ≡ ok p')
    × (p'.incremental_socket.wire ≡ messages 1 (feed 1 ∷ []))
    × (p'.incremental_socket.outbound ≡ [])
    × Published publisher p' (feed 1 ∷ [])
unfolding contents items
run_round-Published_example =
    run_round-Published publisher (feed 1 ∷ []) (ground arith) refl (ground arith) (omega arith)
      refl refl (omega arith) (omega arith)
