-- ===== src/Trading/MarketData/Recovery.antt =====
-- The two scans of `checkSnapshotSync` of trading/market_data/market_data_consumer.cpp, on a snapshot
-- cycle that has no gap and on incremental updates of a feed.
use low_latency_trading_syst.Prelude.{
  ℕ, zero, suc, ◌+◌, ◌%◌, ◌≤◌, ◌<◌, ◌≡◌, refl, sym, ap, ap₂, ◌∙◌, true, false, not, ◌&&◌, ◌==◌, ltb,
  leb, if◌then◌else◌, arith, List, [], ◌∷◌, ◌++◌, length, All, Bool-cases, inl, inr,
}
use low_latency_trading_syst.Common.Types.{u64_mod}
use low_latency_trading_syst.Exchange.Messages.{MeMarketUpdate}
use low_latency_trading_syst.Trading.MarketData.Consumer.{
  QueuedMarketUpdates, insert, contains, is_start, is_end, cons_event, scan_snapshot, last_msg,
  scan_incrementals,
}

-- An update that is passed on to the engine: no bound of a snapshot.
abbrev pub IsEvent : MeMarketUpdate → Type 0
IsEvent u = (is_start u.type ≡ false) × (is_end u.type ≡ false)

-- The entries of a list that are numbered from `k` on.
abbrev pub numbered : ℕ → List MeMarketUpdate → QueuedMarketUpdates
numbered k [] = []
numbered k (u ∷ us) = (k, u) ∷ numbered (k + 1) us

cons_event-event :
    (u : MeMarketUpdate) → IsEvent u → (us : List MeMarketUpdate) → cons_event u us ≡ u ∷ us
unfolding cons_event
cons_event-event u h us = ground arith

-- The updates of a feed from number `k` on.
abbrev pub feed_from : (ℕ → MeMarketUpdate) → ℕ → ℕ → List MeMarketUpdate
feed_from feed k zero = []
feed_from feed k (suc n) = feed k ∷ feed_from feed (k + 1) n

contains-numbered :
    (j k : ℕ) (us : List MeMarketUpdate) → k + length us ≤ j → contains j (numbered k us) ≡ false
unfolding contains
contains-numbered j k [] h = refl
contains-numbered j k (u ∷ us) h = ground (arith, contains-numbered j (k + 1) us)

-- The next number goes behind the others.
pub insert-numbered :
    (j k : ℕ) (us : List MeMarketUpdate) (u : MeMarketUpdate)
    → j ≡ k + length us
    → insert j u (numbered k us) ≡ numbered k (us ++ u ∷ [])
unfolding insert
insert-numbered j k [] u e = ground (arith, e)
insert-numbered j k (v ∷ us) u e = ground (arith, insert-numbered j (k + 1) us u)

pub contains-next : (us : List MeMarketUpdate) → contains (length us) (numbered 0 us) ≡ false
contains-next us = contains-numbered (length us) 0 us (omega arith)

-- What is passed on of a snapshot.
abbrev pub events_of : List MeMarketUpdate → List MeMarketUpdate
events_of [] = []
events_of (u ∷ us) =
    if not (is_start u.type) && not (is_end u.type) then u ∷ events_of us else events_of us

pub scan_snapshot-numbered :
    (k : ℕ) (us : List MeMarketUpdate)
    → k + length us < u64_mod
    → scan_snapshot k (numbered k us) ≡ (events_of us, true)
unfolding scan_snapshot cons_event
scan_snapshot-numbered k [] h = refl
scan_snapshot-numbered k (u ∷ us) h =
    let next : (k + 1) % u64_mod ≡ k + 1 = omega (arith, h) in
    let here : (k == k) ≡ true = ground arith in
    rw next (rw (scan_snapshot-numbered (k + 1) us (omega (arith, h))) (rw here (ground arith)))

pub last_msg-numbered :
    (first u : MeMarketUpdate) (k : ℕ) (us : List MeMarketUpdate)
    → last_msg first (numbered k (us ++ u ∷ [])) ≡ u
unfolding last_msg
last_msg-numbered first u k [] = refl
last_msg-numbered first u k (v ∷ us) = last_msg-numbered v u (k + 1) us

pub events_of-append :
    (us vs : List MeMarketUpdate) → events_of (us ++ vs) ≡ events_of us ++ events_of vs
events_of-append [] vs = refl
events_of-append (u ∷ us) vs = ground (arith, events_of-append us vs)

pub events_of-events : (us : List MeMarketUpdate) → All IsEvent us → events_of us ≡ us
events_of-events [] h = refl
events_of-events (u ∷ us) h = ground (arith, events_of-events us h.1)

-- Every entry is the feed's update of its number, and ends no snapshot.
abbrev pub FromFeed : (ℕ → MeMarketUpdate) → QueuedMarketUpdates → Type 0
FromFeed feed [] = Unit
FromFeed feed ((k, u) ∷ m) = (u ≡ feed k) × IsEvent u × FromFeed feed m

module _ (next k : ℕ) (u : MeMarketUpdate) (m : QueuedMarketUpdates) where
  scan-old : ltb k next ≡ true → scan_incrementals next ((k, u) ∷ m) ≡ scan_incrementals next m
  unfolding scan_incrementals
  scan-old h = rw (h, scan_incrementals) refl

  scan-here :
      ltb k next ≡ false
      → (k == next) ≡ true
      → scan_incrementals next ((k, u) ∷ m) ≡ (
          let rest = scan_incrementals ((next + 1) % u64_mod) m in
          record rest { events = cons_event u rest.events })
  unfolding scan_incrementals
  scan-here h e = rw (h, e, scan_incrementals) refl

  scan-gap :
      ltb k next ≡ false
      → (k == next) ≡ false
      → scan_incrementals next ((k, u) ∷ m)
        ≡ record { next_exp = next; events = []; complete = false }
  unfolding scan_incrementals
  scan-gap h e = rw (h, e, scan_incrementals) refl

-- A complete scan has found just the run of the feed from `next` on.
pub scan_incrementals-feed :
    (feed : ℕ → MeMarketUpdate) (next : ℕ) (m : QueuedMarketUpdates)
    → FromFeed feed m
    → next + length m < u64_mod
    → (scan_incrementals next m).complete ≡ true
    → (n : ℕ) × ((scan_incrementals next m).events ≡ feed_from feed next n)
      × ((scan_incrementals next m).next_exp ≡ next + n)
      × (n ≤ length m)
unfolding scan_incrementals
scan_incrementals-feed feed next [] f h c = (0, refl, ground arith, ground arith)
scan_incrementals-feed feed next ((k, u) ∷ m) f h c = elim (Bool-cases (ltb k next)) [
  | inl old ↦
      let same = scan-old next k u m old in
      let (n, e, x, b) =
        scan_incrementals-feed feed next m f.2 (omega (arith, h))
          (ap (λ r. r.complete) (sym same) ∙ c) in
      (n, ap (λ r. r.events) same ∙ e, ap (λ r. r.next_exp) same ∙ x, omega (arith, b))
  | inr fresh ↦ elim (Bool-cases (k == next)) [
    | inl here ↦
        let up : (next + 1) % u64_mod ≡ next + 1 = omega (arith, h) in
        let same =
          scan-here next k u m fresh here
          ∙ ap
              (λ i.
                let rest = scan_incrementals i m in
                record rest { events = cons_event u rest.events })
              up in
        let (n, e, x, b) =
          scan_incrementals-feed feed (next + 1) m f.2 (omega (arith, h))
            (ap (λ r. r.complete) (sym same) ∙ c) in
        (
          suc n,
          ap (λ r. r.events) same
              ∙ cons_event-event u f.1 (scan_incrementals (next + 1) m).events
              ∙ ap₂ (λ v l. v ∷ l) (f.0 ∙ ap feed (ground arith)) e,
          ap (λ r. r.next_exp) same ∙ x ∙ omega arith,
          omega (arith, b),
        )
    | inr gap ↦
        let never : false ≡ true = ap (λ r. r.complete) (sym (scan-gap next k u m fresh gap)) ∙ c in
        absurd (ground (arith, never))
  ]
]

-- Updates that are queued without a gap, from a number that the snapshot has reached, make a complete
-- scan, which gets to the end of them.
pub scan_incrementals-numbered :
    (j next : ℕ) (us : List MeMarketUpdate)
    → j ≤ next
    → next + length us < u64_mod
    → ((scan_incrementals next (numbered j us)).complete ≡ true)
      × ((scan_incrementals next (numbered j us)).next_exp
          ≡ (if leb next (j + length us) then j + length us else next))
unfolding scan_incrementals
scan_incrementals-numbered j next [] h k = (refl, ground arith)
scan_incrementals-numbered j next (u ∷ us) h k = elim (Bool-cases (ltb j next)) [
  | inl old ↦
      let same = scan-old next j u (numbered (j + 1) us) old in
      let (c, x) =
        scan_incrementals-numbered (j + 1) next us (ground (arith, old)) (omega (arith, k)) in
      (ap (λ r. r.complete) same ∙ c, ap (λ r. r.next_exp) same ∙ x ∙ ground arith)
  | inr fresh ↦
      let up : (next + 1) % u64_mod ≡ next + 1 = omega (arith, k) in
      let same =
        scan-here next j u (numbered (j + 1) us) fresh (ground (arith, fresh))
        ∙ ap
            (λ i.
              let rest = scan_incrementals i (numbered (j + 1) us) in
              record rest { events = cons_event u rest.events })
            up in
      let (c, x) =
        scan_incrementals-numbered (j + 1) (next + 1) us (omega (arith, h)) (omega (arith, k)) in
      (ap (λ r. r.complete) same ∙ c, ap (λ r. r.next_exp) same ∙ x ∙ ground (arith, fresh))
]
