-- ===== src/Auction/Bids.antt =====
-- About bids (`bid` of auction/src/lib.rs).
use open_runtime_module_libr.Effect.{ok}
use open_runtime_module_libr.Storage.{put, get}
use open_runtime_module_libr.Auction.Calls.{unindex, outbids, place_bid}
use open_runtime_module_libr.Prelude.{
  ◌<◌, none, refl, nat_eq, ◌==◌, inr, if◌then◌else◌, leb, is_some, Bool-cases, true, inl, Option,
  ◌≤◌, arith, some, ◌≡◌, ℕ, pair_eq,
}
use open_runtime_module_libr.Auction.Index.{
  ends_at, IsIndexed, get-index, get-unindex, written-IsIndexed,
}
use open_runtime_module_libr.Auction.Types.{
  Change, AuctionInfo, State, Config, no_change, new_value,
}

-- A value is above the bid before, or positive where there is none.
abbrev pub IsAbove : ℕ → Option (ℕ × ℕ) → Type 0
IsAbove value none = 0 < value
IsAbove value (some (bidder, amount)) = amount < value

outbids-IsAbove : (value : ℕ) (bid : Option (ℕ × ℕ)) → outbids value bid ≡ true → IsAbove value bid
outbids-IsAbove value none h = ground arith
outbids-IsAbove value (some (bidder, amount)) h = ground arith

module _ {H : Type 0} (cfg : Config H) where
  -- A bid that is placed: the auction was open to it, it is above the bid before, and nothing but the
  -- auction and its end changes.
  pub record HasBid (from id value : ℕ) (s t : State H) : Type 0 where
    pub before : AuctionInfo
    pub after : AuctionInfo
    pub found : get id s.auctions ≡ some before
    pub started : before.start ≤ s.block_number
    pub tops : IsAbove value before.bid
    pub stored : t.auctions ≡ put id (some after) s.auctions
    pub bid : after.bid ≡ some (from, value)
    pub index : t.auctions_index ≡ s.auctions_index
    pub times :
        (block j : ℕ)
        → is_some (get (block, j) t.auction_end_time) ≡ (
            if id == j
            then ends_at block after.end
            else is_some (get (block, j) s.auction_end_time))

  -- If the end times list the stored auctions, an accepted bid is on a stored auction that has
  -- started, is above its bid before, or positive if there is none, is stored as its bid, and
  -- changes no other auction and no other end.
  pub place_bid-HasBid :
      (from id value : ℕ) (s : State H)
      → IsIndexed s
      → (place_bid cfg from id value s).0 ≡ ok tt
      → HasBid from id value s (place_bid cfg from id value s).1
  unfolding place_bid
  place_bid-HasBid from id value s i h = go (get id s.auctions) refl
    where
      placed :
          (auction : AuctionInfo) (change : Change (Option ℕ))
          → get id s.auctions ≡ some auction
          → auction.start ≤ s.block_number
          → outbids value auction.bid ≡ true
          → (cfg.on_new_bid s.block_number id (from, value) auction.bid s.handler).0.accept_bid
            ≡ true
          → (cfg.on_new_bid s.block_number id
              (from, value)
              auction.bid
              s.handler).0.auction_end_change
            ≡ change
          → HasBid from id value s (place_bid cfg from id value s).1
      placed auction no_change e begun tops accepted change = record {
        before = auction;
        after = record auction { bid = some (from, value) };
        found = e;
        started = begun;
        tops = outbids-IsAbove value auction.bid tops;
        stored = ground (arith, e);
        bid = refl;
        index = ground (arith, e);
        times = λ block j. ground (arith, e, i.listed block id);
      }
      placed auction (new_value end) e begun tops accepted change = record {
        before = auction;
        after = record auction { bid = some (from, value); end = end };
        found = e;
        started = begun;
        tops = outbids-IsAbove value auction.bid tops;
        stored = ground (arith, e);
        bid = refl;
        index = ground (arith, e);
        times = λ block j. ground (
          arith,
          e,
          i.listed block id,
          get-index block j id end (unindex id auction.end s.auction_end_time),
          get-unindex block j id auction.end s.auction_end_time,
        );
      }

      go :
          (o : Option AuctionInfo)
          → get id s.auctions ≡ o
          → HasBid from id value s (place_bid cfg from id value s).1
      go none e = absurd (ground (arith, e))
      go (some auction) e = elim (Bool-cases (leb auction.start s.block_number)) [
        | inl begun ↦ elim (Bool-cases (outbids value auction.bid)) [
          | inl tops ↦
              elim (Bool-cases
                (cfg.on_new_bid s.block_number id (from, value) auction.bid
                  s.handler).0.accept_bid) [
                    | inl accepted ↦
                        placed auction
                          (cfg.on_new_bid s.block_number id (from, value) auction.bid
                            s.handler).0.auction_end_change
                          e (ground arith) tops accepted refl
                    | inr declined ↦ absurd (ground (arith, e))
                  ]
          | inr low ↦ absurd (ground (arith, e))
        ]
        | inr early ↦ absurd (ground (arith, e))
      ]

  pub place_bid-IsIndexed :
      (from id value : ℕ) (s : State H)
      → IsIndexed s
      → (place_bid cfg from id value s).0 ≡ ok tt
      → IsIndexed (place_bid cfg from id value s).1
  place_bid-IsIndexed from id value s i h =
      let b = place_bid-HasBid from id value s i h in
      written-IsIndexed id (some b.after) s (place_bid cfg from id value s).1 i b.stored
        (omega (arith, b.index)) (inl (ground (arith, i.fresh id, b.found, b.index))) b.times
