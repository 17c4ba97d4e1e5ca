-- ===== src/Trading/MarketData/Consumer.antt =====
-- trading/market_data/market_data_consumer.h and market_data_consumer.cpp. A `std::map` is the list of its
-- entries by ascending key. Whether the kernel lets the snapshot socket join is an argument, `joins`.
use low_latency_trading_syst.Prelude.{
  ℕ, ◌+◌, ◌%◌, Bool, true, false, not, ◌&&◌, ◌||◌, ◌==◌, ltb, if◌then◌else◌, List, [], ◌∷◌, ◌++◌,
  Result, ok, ◌>>=◌, ◌>>◌, assert,
}
use low_latency_trading_syst.Common.Types.{u64_mod}
use low_latency_trading_syst.Common.LfQueue.Defs.{LfQueue, push}
use low_latency_trading_syst.Common.LfQueue.Bulk.{push_all}
use low_latency_trading_syst.Exchange.Messages.{MarketUpdateType, MeMarketUpdate, MdpMarketUpdate}

abbrev pub QueuedMarketUpdates : Type 0
QueuedMarketUpdates = List (ℕ × MeMarketUpdate)

-- `m[k] = u`
unfoldable pub insert : ℕ → MeMarketUpdate → QueuedMarketUpdates → QueuedMarketUpdates
insert k u [] = (k, u) ∷ []
insert k u ((j, v) ∷ m) =
    if ltb k j then (k, u) ∷ (j, v) ∷ m else if k == j then (k, u) ∷ m else (j, v) ∷ insert k u m

-- `m.find(k) != m.end()`
unfoldable pub contains : ℕ → QueuedMarketUpdates → Bool
contains k [] = false
contains k ((j, v) ∷ m) = (k == j) || contains k m

pub record MarketDataConsumer : Type 0 where
  pub next_exp_inc_seq_num : ℕ
  pub incoming_md_updates : LfQueue MeMarketUpdate
  pub in_recovery : Bool
  pub subscribed : Bool
  pub snapshot_queued_msgs : QueuedMarketUpdates
  pub incremental_queued_msgs : QueuedMarketUpdates

unfoldable pub init : LfQueue MeMarketUpdate → MarketDataConsumer
init market_updates = record {
  next_exp_inc_seq_num = 1;
  incoming_md_updates = market_updates;
  in_recovery = false;
  subscribed = false;
  snapshot_queued_msgs = [];
  incremental_queued_msgs = [];
}

-- `startSnapshotSync`: `init` and `join` of the socket are asserted.
unfoldable pub start_snapshot_sync : Bool → MarketDataConsumer → Result MarketDataConsumer
start_snapshot_sync joins c = do
  assert joins
  ok (record c { subscribed = true; snapshot_queued_msgs = []; incremental_queued_msgs = [] })

abbrev pub is_start : MarketUpdateType → Bool
is_start MarketUpdateType.snapshot_start = true
is_start _ = false

abbrev pub is_end : MarketUpdateType → Bool
is_end MarketUpdateType.snapshot_end = true
is_end _ = false

-- An update that is passed on goes in front of the others.
unfoldable pub cons_event : MeMarketUpdate → List MeMarketUpdate → List MeMarketUpdate
cons_event u us = if not (is_start u.type) && not (is_end u.type) then u ∷ us else us

-- The first loop of `checkSnapshotSync`: the events, and whether the snapshot has no gap.
unfoldable pub scan_snapshot : ℕ → QueuedMarketUpdates → List MeMarketUpdate × Bool
scan_snapshot next [] = ([], true)
scan_snapshot next ((k, u) ∷ m) =
    let (events, complete) = scan_snapshot ((next + 1) % u64_mod) m in
    if not (k == next) then ([], false) else (cons_event u events, complete)

-- `rbegin()->second`, of the entry `u` and those behind it.
unfoldable pub last_msg : MeMarketUpdate → QueuedMarketUpdates → MeMarketUpdate
last_msg u [] = u
last_msg u ((k, v) ∷ m) = last_msg v m

-- What the second loop leaves.
pub record Incrementals : Type 0 where
  pub next_exp : ℕ
  pub events : List MeMarketUpdate
  pub complete : Bool

unfoldable pub scan_incrementals : ℕ → QueuedMarketUpdates → Incrementals
scan_incrementals next [] = record { next_exp = next; events = []; complete = true }
scan_incrementals next ((k, u) ∷ m) = elim (ltb k next) [
  | true ↦ scan_incrementals next m
  | false ↦ elim (k == next) [
    | true ↦
        let rest = scan_incrementals ((next + 1) % u64_mod) m in
        record rest { events = cons_event u rest.events }
    | false ↦ record { next_exp = next; events = []; complete = false }
  ]
]

-- The end of `checkSnapshotSync`, when both streams are complete.
unfoldable pub finish_sync : MarketDataConsumer → List MeMarketUpdate → MarketDataConsumer
finish_sync c final_events = record c {
  incoming_md_updates = push_all c.incoming_md_updates final_events;
  snapshot_queued_msgs = [];
  incremental_queued_msgs = [];
  in_recovery = false;
  subscribed = false;
}

-- `checkSnapshotSync` from its second loop on.
unfoldable pub check_incrementals :
    MarketDataConsumer → List MeMarketUpdate → MeMarketUpdate → MarketDataConsumer
unfolding finish_sync
check_incrementals c snapshot_events last_snapshot_msg =
    let scan =
      scan_incrementals ((last_snapshot_msg.order_id + 1) % u64_mod) c.incremental_queued_msgs in
    let c' = record c { next_exp_inc_seq_num = scan.next_exp } in
    if not scan.complete
    then record c' { snapshot_queued_msgs = [] }
    else finish_sync c' (snapshot_events ++ scan.events)

-- `checkSnapshotSync`, with the entries of the snapshot.
unfoldable pub check_snapshot : MarketDataConsumer → QueuedMarketUpdates → MarketDataConsumer
check_snapshot c [] = c
check_snapshot c ((k, first) ∷ m) =
    let (events, complete) = scan_snapshot 0 ((k, first) ∷ m) in
    let last = last_msg first m in
    if not (is_start first.type)
    then record c { snapshot_queued_msgs = [] }
    else if not complete
    then record c { snapshot_queued_msgs = [] }
    else if not (is_end last.type)
    then c
    else check_incrementals c events last

unfoldable pub check_snapshot_sync : MarketDataConsumer → MarketDataConsumer
check_snapshot_sync c = check_snapshot c c.snapshot_queued_msgs

-- `queueMessage`
unfoldable pub queue_message : MarketDataConsumer → Bool → MdpMarketUpdate → MarketDataConsumer
queue_message c is_snapshot m = check_snapshot_sync (
    if is_snapshot
    then record c {
      snapshot_queued_msgs =
          insert m.seq_num m.me_market_update
            (if contains m.seq_num c.snapshot_queued_msgs then [] else c.snapshot_queued_msgs);
    }
    else record c {
      incremental_queued_msgs = insert m.seq_num m.me_market_update c.incremental_queued_msgs;
    })

-- A round of the loop of `recvCallback`.
unfoldable pub recv_update :
    Bool → MarketDataConsumer → Bool → MdpMarketUpdate → Result MarketDataConsumer
recv_update joins c is_snapshot m =
    let c' = record c { in_recovery = true } in
    elim c.in_recovery [
      | true ↦ ok (queue_message c' is_snapshot m)
      | false ↦ elim (m.seq_num == c.next_exp_inc_seq_num) [
        | false ↦ (do c'' ← start_snapshot_sync joins c'; ok (queue_message c'' is_snapshot m))
        | true ↦
            if is_snapshot
            then ok c
            else ok (record c {
              next_exp_inc_seq_num = (c.next_exp_inc_seq_num + 1) % u64_mod;
              incoming_md_updates = push c.incoming_md_updates m.me_market_update;
            })
      ]
    ]

unfoldable pub recv_updates :
    Bool → MarketDataConsumer → Bool → List MdpMarketUpdate → Result MarketDataConsumer
recv_updates joins c is_snapshot [] = ok c
recv_updates joins c is_snapshot (m ∷ ms) = do
  c' ← recv_update joins c is_snapshot m
  recv_updates joins c' is_snapshot ms

-- The part of a socket's buffer below `next_rcv_valid_index_`: whole messages, and bytes behind them.
pub record Inbound : Type 0 where
  pub whole : List MdpMarketUpdate
  pub part : List ℕ

-- `recvCallback`: messages of the snapshot stream are thrown away outside a recovery.
unfoldable pub recv_callback :
    Bool → MarketDataConsumer → Bool → Inbound → Result (MarketDataConsumer × Inbound)
recv_callback joins c is_snapshot inbound =
    if is_snapshot && not c.in_recovery then ok (c, record { whole = []; part = [] }) else do
      c' ← recv_updates joins c is_snapshot inbound.whole
      ok (c', record inbound { whole = [] })
