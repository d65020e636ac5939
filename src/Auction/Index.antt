-- ===== src/Auction/Index.antt =====
-- About the index of auctions by their end (`AuctionEndTime` of auction/src/lib.rs).
use open_runtime_module_libr.Auction.Calls.{
  remove_auction, update_auction, new_auction, put_auction, index, unindex,
}
use open_runtime_module_libr.Storage.{put, get, Map}
use open_runtime_module_libr.Auction.Types.{Config, AuctionInfo, State}
use open_runtime_module_libr.Storage.Laws.{get-put}
use open_runtime_module_libr.Prelude.{
  refl, ◌+◌, leb, Bool-cases, inl, inr, ◌≤◌, true, arith, nat_eq, ◌&&◌, ◌==◌, none, some, ◌⊎◌,
  if◌then◌else◌, ◌≡◌, false, ◌<◌, Bool, Option, is_some, ℕ, pair_eq,
}

abbrev pub ends_at : ℕ → Option ℕ → Bool
ends_at block none = false
ends_at block (some e) = e == block

abbrev pub auction_ends : ℕ → Option AuctionInfo → Bool
auction_ends block none = false
auction_ends block (some auction) = ends_at block auction.end

pub get-unindex :
    (block j id : ℕ) (old : Option ℕ) (m : Map (ℕ × ℕ) (Unit {0}))
    → is_some (get (block, j) (unindex id old m))
      ≡ (if id == j && ends_at block old then false else is_some (get (block, j) m))
get-unindex block j id none m = ground arith
get-unindex block j id (some e) m = ground (arith, get-put (block, j) (e, id) none m)

pub get-index :
    (block j id : ℕ) (new : Option ℕ) (m : Map (ℕ × ℕ) (Unit {0}))
    → is_some (get (block, j) (index id new m))
      ≡ (if id == j && ends_at block new then true else is_some (get (block, j) m))
get-index block j id none m = ground arith
get-index block j id (some e) m = ground (arith, get-put (block, j) (e, id) (some tt) m)

module _ {H : Type 0} where
  -- The end times list an auction at a block exactly when that is its end, and no auction has an id
  -- that is still to be given.
  pub record IsIndexed (s : State H) : Type 0 where
    pub listed :
        (block id : ℕ)
        → is_some (get (block, id) s.auction_end_time) ≡ auction_ends block (get id s.auctions)
    pub fresh : (id : ℕ) → (id < s.auctions_index) ⊎ (get id s.auctions ≡ none)

  -- An auction and its end times written alike.
  pub written-IsIndexed :
      (id : ℕ) (v : Option AuctionInfo) (s t : State H)
      → IsIndexed s
      → t.auctions ≡ put id v s.auctions
      → s.auctions_index ≤ t.auctions_index
      → (id < t.auctions_index) ⊎ (v ≡ none)
      → ((block j : ℕ)
          → is_some (get (block, j) t.auction_end_time) ≡ (
              if id == j
              then auction_ends block v
              else is_some (get (block, j) s.auction_end_time)))
      → IsIndexed t
  written-IsIndexed id v s t i e le used times = record {
    listed = λ block j.
        rw e (ground (arith, times block j, i.listed block j, get-put j id v s.auctions));
    fresh = λ j. rw e (ground (arith, i.fresh j, get-put j id v s.auctions));
  }

module _ {H : Type 0} (cfg : Config H) where
  pub update_auction-IsIndexed :
      (id : ℕ) (info : AuctionInfo) (s : State H)
      → IsIndexed s
      → IsIndexed (update_auction cfg id info s).1
  unfolding update_auction
  update_auction-IsIndexed id info s i = go (get id s.auctions) refl
    where
      go :
          (o : Option AuctionInfo)
          → get id s.auctions ≡ o
          → IsIndexed (update_auction cfg id info s).1
      go none e = rw (update_auction, e) i
      go (some auction) e =
          let t : State H = put_auction id (some info) record s {
            auction_end_time = index id info.end (unindex id auction.end s.auction_end_time);
          } in
          let same : (update_auction cfg id info s).1 ≡ t = ground (arith, e) in
          rw same (
            written-IsIndexed id (some info) s t i refl (omega arith)
              (inl (ground (arith, e, i.fresh id)))
              λ block j. ground (
                arith,
                e,
                i.listed block id,
                get-index block j id info.end (unindex id auction.end s.auction_end_time),
                get-unindex block j id auction.end s.auction_end_time,
              ))

  pub remove_auction-IsIndexed :
      (id : ℕ) (s : State H) → IsIndexed s → IsIndexed (remove_auction cfg id s)
  unfolding remove_auction
  remove_auction-IsIndexed id s i = go (get id s.auctions) refl
    where
      go : (o : Option AuctionInfo) → get id s.auctions ≡ o → IsIndexed (remove_auction cfg id s)
      go none e = rw (remove_auction, e) i
      go (some auction) e =
          let t : State H =
            put_auction id none
              record s { auction_end_time = unindex id auction.end s.auction_end_time } in
          let same : remove_auction cfg id s ≡ t = ground (arith, e) in
          rw same (
            written-IsIndexed id none s t i refl (omega arith) (inr refl) λ block j.
              ground (
                arith,
                e,
                i.listed block id,
                get-unindex block j id auction.end s.auction_end_time,
              ))

  pub new_auction-IsIndexed :
      (start : ℕ) (end : Option ℕ) (s : State H)
      → IsIndexed s
      → IsIndexed (new_auction cfg start end s).1
  unfolding new_auction
  new_auction-IsIndexed start end s i =
      elim (Bool-cases (leb (s.auctions_index + 1) cfg.max_auction_id)) [
        | inl room ↦
            let id = s.auctions_index in
            let auction : AuctionInfo = record { bid = none; start = start; end = end } in
            let t : State H = put_auction id (some auction) record s {
              auctions_index = id + 1;
              auction_end_time = index id end s.auction_end_time;
            } in
            let same : (new_auction cfg start end s).1 ≡ t = ground arith in
            rw same (
              written-IsIndexed id (some auction) s t i refl (omega arith) (inl (omega arith))
                λ block j. ground (
                  arith,
                  i.fresh id,
                  i.listed block id,
                  get-index block j id end s.auction_end_time,
                ))
        | inr full ↦ let same : (new_auction cfg start end s).1 ≡ s = ground arith in rw same i
      ]
