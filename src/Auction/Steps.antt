-- ===== src/Auction/Steps.antt =====
-- About runs of the auction pallet: its operations in any order (auction/src/lib.rs).
use open_runtime_module_libr.Auction.Closing.{on_finalize-HasClosed, HasClosed-IsIndexed}
use open_runtime_module_libr.Auction.Index.{
  remove_auction-IsIndexed, update_auction-IsIndexed, new_auction-IsIndexed, IsIndexed,
}
use open_runtime_module_libr.Effect.{err, ok, Result}
use open_runtime_module_libr.Auction.Types.{Event, AuctionInfo, State, Error, Config}
use open_runtime_module_libr.Prelude.{refl, arith, ◌∷◌, Option, subst, ◌≡◌, ℕ, pair_eq}
use open_runtime_module_libr.Auction.Bids.{place_bid-IsIndexed}
use open_runtime_module_libr.Auction.Calls.{
  on_finalize, remove_auction, update_auction, new_auction, place_bid, bid,
}

module _ {H Origin : Type 0} (cfg : Config H) (ensure_signed : Origin → Result Error ℕ) where
  -- A call, an operation that another pallet calls, the end of a block, or the next block.
  pub data Step (s t : State H) : Type 0 where
    by_bid :
        (origin : Origin) (id value : ℕ)
        → (bid cfg ensure_signed origin id value s).1 ≡ t
        → Step s t
    by_new_auction : (first : ℕ) (end : Option ℕ) → (new_auction cfg first end s).1 ≡ t → Step s t
    by_update_auction :
        (id : ℕ) (info : AuctionInfo) → (update_auction cfg id info s).1 ≡ t → Step s t
    by_remove_auction : (id : ℕ) → remove_auction cfg id s ≡ t → Step s t
    by_on_finalize : (now : ℕ) → on_finalize cfg now s ≡ t → Step s t
    by_block : (now : ℕ) → record s { block_number = now } ≡ t → Step s t

  pub data Reach (s : State H) : State H → Type 0 where
    start : Reach s s
    step : {t u : State H} → Reach s t → Step t u → Reach s u

  bid-IsIndexed :
      (origin : Origin) (id value : ℕ) (s : State H)
      → IsIndexed s
      → IsIndexed (bid cfg ensure_signed origin id value s).1
  unfolding bid
  bid-IsIndexed origin id value s i = go (ensure_signed origin) refl
    where
      placed :
          (from : ℕ) (r : Result Error (Unit {0}))
          → ensure_signed origin ≡ ok from
          → (place_bid cfg from id value s).0 ≡ r
          → IsIndexed (bid cfg ensure_signed origin id value s).1
      placed from (err x) e h = rw (e, h) i
      placed from (ok tt) e h =
          let u = (place_bid cfg from id value s).1 in
          let t : State H = record u { events = Event.bid id from value ∷ u.events } in
          let same : (bid cfg ensure_signed origin id value s).1 ≡ t = ground (arith, e, h) in
          let next = place_bid-IsIndexed cfg from id value s i h in
          rw same (record { listed = next.listed; fresh = next.fresh })

      go :
          (r : Result Error ℕ)
          → ensure_signed origin ≡ r
          → IsIndexed (bid cfg ensure_signed origin id value s).1
      go (err x) e = rw e i
      go (ok from) e = placed from (place_bid cfg from id value s).0 e refl

  Step-IsIndexed : (s t : State H) → Step s t → IsIndexed s → IsIndexed t
  Step-IsIndexed s t (by_bid origin id value e) i =
      subst IsIndexed e (bid-IsIndexed origin id value s i)
  Step-IsIndexed s t (by_new_auction first end e) i =
      subst IsIndexed e (new_auction-IsIndexed cfg first end s i)
  Step-IsIndexed s t (by_update_auction id info e) i =
      subst IsIndexed e (update_auction-IsIndexed cfg id info s i)
  Step-IsIndexed s t (by_remove_auction id e) i =
      subst IsIndexed e (remove_auction-IsIndexed cfg id s i)
  Step-IsIndexed s t (by_on_finalize now e) i =
      subst IsIndexed e (
        HasClosed-IsIndexed cfg now s (on_finalize cfg now s) i (on_finalize-HasClosed cfg now s i))
  Step-IsIndexed s t (by_block now e) i =
      subst IsIndexed e (record { listed = i.listed; fresh = i.fresh })

  -- If in a state the end times list an auction at a block exactly when the auction is stored with
  -- that end, and no stored auction has an id that is still to be given, then this is so in every
  -- state that bids, new, updated and removed auctions, block ends and new blocks lead to.
  pub Reach-IsIndexed : (s t : State H) → IsIndexed s → Reach s t → IsIndexed t
  Reach-IsIndexed s t i start = i
  Reach-IsIndexed s u i (step {t} r n) = Step-IsIndexed t u n (Reach-IsIndexed s t i r)
