-- ===== src/Auction/Calls.antt =====
-- The operations of the auction pallet (auction/src/lib.rs). The order in which a prefix is drained is
-- the order of the association list.
use open_runtime_module_libr.Numeric.{checked_add}
use open_runtime_module_libr.Storage.{put, get, Map}
use open_runtime_module_libr.Effect.{
  modify, ◌>>◌, ok, reading, err, ◌>>=◌, dispatched, Action, Result,
}
use open_runtime_module_libr.Auction.Types.{
  Event, no_change, Error, new_value, AuctionInfo, State, Change, Config,
}
use open_runtime_module_libr.Prelude.{
  leb, is_some, ltb, is_zero, ◌&&◌, not, none, ◌==◌, nat_eq, Bool, if◌then◌else◌, some, Option,
  List, ℕ, [], ◌∷◌, pair_eq,
}

abbrev pub unindex : (id : ℕ) → Option ℕ → Map (ℕ × ℕ) (Unit {0}) → Map (ℕ × ℕ) (Unit {0})
unindex id none m = m
unindex id (some old_end) m = put (old_end, id) none m

abbrev pub index : (id : ℕ) → Option ℕ → Map (ℕ × ℕ) (Unit {0}) → Map (ℕ × ℕ) (Unit {0})
index id none m = m
index id (some new_end) m = put (new_end, id) (some tt) m

-- The test of the price of a bid
abbrev pub outbids : ℕ → Option (ℕ × ℕ) → Bool
outbids value none = not (is_zero value)
outbids value (some (bidder, amount)) = ltb amount value

-- The auctions that the end times list for a block.
unfoldable pub due : (now : ℕ) → Map (ℕ × ℕ) (Unit {0}) → Map (ℕ × ℕ) (Unit {0}) → List ℕ
due now all [] = []
due now all (((block, id), v) ∷ m) =
    let rest = due now all m in
    if block == now && is_some (get (block, id) all) then id ∷ rest else rest

-- The end times without those of a block.
unfoldable pub drain : (now : ℕ) → Map (ℕ × ℕ) (Unit {0}) → Map (ℕ × ℕ) (Unit {0})
drain now [] = []
drain now (((block, id), v) ∷ m) = ((block, id), if block == now then none else v) ∷ drain now m

abbrev pub changed_end : Change (Option ℕ) → Option ℕ → Option ℕ
changed_end no_change end = end
changed_end (new_value new_end) end = new_end

module _ {H : Type 0} where
  -- The end of an auction as the handler of bids wants it
  abbrev pub change_end : (id : ℕ) → Change (Option ℕ) → AuctionInfo → State H → State H
  change_end id no_change auction s = s
  change_end id (new_value new_end) auction s = record s {
    auction_end_time = index id new_end (unindex id auction.end s.auction_end_time);
  }

  abbrev pub put_auction : (id : ℕ) → Option AuctionInfo → State H → State H
  put_auction id auction s = record s { auctions = put id auction s.auctions }

module _ {H : Type 0} (cfg : Config H) where
  -- The closure of `bid`
  unfoldable pub place_bid : (from id value : ℕ) → Action (State H) Error (Unit {0})
  place_bid from id value s = elim (get id s.auctions) [
    | none ↦ (err Error.auction_not_exist, s)
    | some auction ↦
        let (bid_result, h) =
          cfg.on_new_bid s.block_number id (from, value) auction.bid s.handler in
        if leb auction.start s.block_number
        then (if outbids value auction.bid
            then (if bid_result.accept_bid
                then (
                  ok tt,
                  put_auction id
                      (some record auction {
                        bid = some (from, value);
                        end = changed_end bid_result.auction_end_change auction.end;
                      })
                      (change_end id bid_result.auction_end_change auction
                        record s { handler = h }),
                )
                else (err Error.bid_not_accepted, record s { handler = h }))
            else (err Error.invalid_bid_price, s))
        else (err Error.auction_not_started, s)
  ]

  -- `Pallet::update_auction`
  unfoldable pub update_auction : (id : ℕ) → AuctionInfo → Action (State H) Error (Unit {0})
  update_auction id info s = elim (get id s.auctions) [
    | none ↦ (err Error.auction_not_exist, s)
    | some auction ↦ (
      ok tt,
      put_auction id (some info) record s {
        auction_end_time = index id info.end (unindex id auction.end s.auction_end_time);
      },
    )
  ]

  -- `Pallet::new_auction`
  unfoldable pub new_auction : (start : ℕ) (end : Option ℕ) → Action (State H) Error ℕ
  new_auction start end s =
      let auction_id = s.auctions_index in
      elim (checked_add cfg.max_auction_id auction_id 1) [
        | none ↦ (err Error.no_available_auction_id, s)
        | some n ↦ (
          ok auction_id,
          put_auction auction_id (some (record { bid = none; start = start; end = end })) record s {
            auctions_index = n;
            auction_end_time = index auction_id end s.auction_end_time;
          },
        )
      ]

  -- `Pallet::remove_auction`
  unfoldable pub remove_auction : (id : ℕ) → State H → State H
  remove_auction id s = elim (get id s.auctions) [
    | none ↦ s
    | some auction ↦
        put_auction id none
          record s { auction_end_time = unindex id auction.end s.auction_end_time }
  ]

  -- The body of the loop of `on_finalize`
  unfoldable pub close_one : ℕ → State H → State H
  close_one id s = elim (get id s.auctions) [
    | none ↦ s
    | some auction ↦
        put_auction id none record s { handler = cfg.on_auction_ended id auction.bid s.handler }
  ]

  -- The loop of `on_finalize`
  unfoldable pub close_all : List ℕ → State H → State H
  close_all [] s = s
  close_all (id ∷ ids) s = close_all ids (close_one id s)

  -- `Pallet::on_finalize`
  unfoldable pub on_finalize : (now : ℕ) → State H → State H
  on_finalize now s =
      close_all (due now s.auction_end_time s.auction_end_time)
        record s { auction_end_time = drain now s.auction_end_time }

module _ {H Origin : Type 0} (cfg : Config H) (ensure_signed : Origin → Result Error ℕ) where
  -- Call 0, `bid`
  unfoldable pub bid : Origin → (id value : ℕ) → Action (State H) Error (Unit {0})
  bid origin id value = dispatched do
    from ← reading (λ _. ensure_signed origin)
    place_bid cfg from id value
    modify λ s. record s { events = Event.bid id from value ∷ s.events }
