-- ===== src/Auction/Tests.antt =====
-- The auction pallet on concrete data: winners are kept in a list, and a bid ends an auction at block 9.
use open_runtime_module_libr.Effect.{ok}
use open_runtime_module_libr.Auction.Closing.{on_finalize-HasClosed, HasClosed}
use open_runtime_module_libr.Auction.Index.{new_auction-IsIndexed, IsIndexed}
use open_runtime_module_libr.Auction.Types.{new_value, State, Config}
use open_runtime_module_libr.Prelude.{
  some, true, refl, ℕ, none, Option, inr, List, ◌≡◌, pair_eq, [], ◌∷◌,
}
use open_runtime_module_libr.Auction.Bids.{HasBid, place_bid-HasBid}
use open_runtime_module_libr.Auction.Calls.{
  drain, due, close_one, close_all, on_finalize, place_bid, bid, new_auction,
}
use open_runtime_module_libr.Auction.Steps.{
  Reach-IsIndexed, Reach, start, step, by_bid, by_new_auction, by_on_finalize,
}

abbrev cfg : Config (List (Option (ℕ × ℕ)))
cfg = record {
  max_auction_id = 100;
  on_new_bid = λ now id new_bid last_bid h.
      (record { accept_bid = true; auction_end_change = new_value (some 9) }, h);
  on_auction_ended = λ id winner h. winner ∷ h;
}

abbrev empty_state : State (List (Option (ℕ × ℕ)))
empty_state = record {
  auctions = [];
  auctions_index = 0;
  auction_end_time = [];
  block_number = 3;
  events = [];
  handler = [];
}

empty_state-IsIndexed : IsIndexed empty_state
empty_state-IsIndexed = record { listed = λ block id. refl; fresh = λ id. inr refl }

abbrev opened : State (List (Option (ℕ × ℕ)))
opened = (new_auction cfg 2 none empty_state).1

abbrev after_bid : State (List (Option (ℕ × ℕ)))
after_bid = (bid cfg ok 1 0 50 opened).1

abbrev after_block : State (List (Option (ℕ × ℕ)))
after_block = on_finalize cfg 9 after_bid

three_steps : Reach cfg ok empty_state after_block
three_steps =
    step (step (step start (by_new_auction 2 none refl)) (by_bid 1 0 50 refl))
      (by_on_finalize 9 refl)

Reach-IsIndexed_example : IsIndexed after_block
Reach-IsIndexed_example =
    Reach-IsIndexed cfg ok empty_state after_block empty_state-IsIndexed three_steps

opened-IsIndexed : IsIndexed opened
opened-IsIndexed = new_auction-IsIndexed cfg 2 none empty_state empty_state-IsIndexed

bid_is_accepted : (place_bid cfg 1 0 50 opened).0 ≡ ok tt
unfolding place_bid new_auction
bid_is_accepted = refl

place_bid-HasBid_example : HasBid cfg 1 0 50 opened (place_bid cfg 1 0 50 opened).1
place_bid-HasBid_example = place_bid-HasBid cfg 1 0 50 opened opened-IsIndexed bid_is_accepted

on_finalize-HasClosed_example : HasClosed cfg 9 after_bid (on_finalize cfg 9 after_bid)
on_finalize-HasClosed_example = on_finalize-HasClosed cfg 9 after_bid (
    Reach-IsIndexed cfg ok empty_state after_bid empty_state-IsIndexed
      (step (step start (by_new_auction 2 none refl)) (by_bid 1 0 50 refl)))

winner_is_told : after_block.handler ≡ some (1, 50) ∷ []
unfolding on_finalize bid place_bid new_auction close_all close_one due drain
winner_is_told = refl
