-- ===== src/Auction/Types.antt =====
-- Data of the auction pallet (auction/src/lib.rs, traits/src/auction.rs). The handler of bids is code of
-- the runtime: its state is `H`, apart from the storage of the pallet.
use open_runtime_module_libr.Prelude.{List, ℕ, Bool, Option}
use open_runtime_module_libr.Storage.{Map}

pub record AuctionInfo : Type 0 where
  pub bid : Option (ℕ × ℕ)
  pub start : ℕ
  pub end : Option ℕ

-- `Change` of traits/src/lib.rs
pub data Change (A : Type 0) : Type 0 where
  no_change : Change A
  new_value : A → Change A

pub record OnNewBidResult : Type 0 where
  pub accept_bid : Bool
  pub auction_end_change : Change (Option ℕ)

-- The errors of the pallet, and those of the origin check.
pub data Error : Type 0 where
  auction_not_exist auction_not_started bid_not_accepted invalid_bid_price : Error
  no_available_auction_id : Error
  foreign : ℕ → Error

pub data Event : Type 0 where
  bid : (auction_id bidder amount : ℕ) → Event

pub record State (H : Type 0) : Type 0 where
  pub auctions : Map ℕ AuctionInfo
  pub auctions_index : ℕ
  pub auction_end_time : Map (ℕ × ℕ) (Unit {0})
  pub block_number : ℕ
  pub events : List Event
  pub handler : H

pub record Config (H : Type 0) : Type 0 where
  pub max_auction_id : ℕ
  pub on_new_bid :
      (now id : ℕ) (new_bid : ℕ × ℕ) (last_bid : Option (ℕ × ℕ)) → H → OnNewBidResult × H
  pub on_auction_ended : (id : ℕ) (winner : Option (ℕ × ℕ)) → H → H
