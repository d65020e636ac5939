-- ===== src/Auction/Closing.antt =====
-- About the end of auctions (`on_finalize` of auction/src/lib.rs).
use open_runtime_module_libr.Storage.{get, Map}
use open_runtime_module_libr.Auction.Types.{AuctionInfo, State, Config}
use open_runtime_module_libr.Auction.Calls.{close_one, on_finalize, close_all, due, drain}
use open_runtime_module_libr.Prelude.{
  some, nat_eq, inr, Option, inl, Bool-cases, none, ◌||◌, if◌then◌else◌, ◌==◌, arith, false, true,
  is_some, ◌≡◌, Bool, List, ℕ, pair_eq, [], ◌∷◌,
}
use open_runtime_module_libr.Storage.Laws.{get-put}
use open_runtime_module_libr.Auction.Index.{ends_at, auction_ends, IsIndexed}

abbrev pub member : ℕ → List ℕ → Bool
member j [] = false
member j (id ∷ ids) = id == j || member j ids

-- An id is due at a block if the end times list it there.
member-due :
    (j now : ℕ) (all m : Map (ℕ × ℕ) (Unit {0}))
    → is_some (get (now, j) m) ≡ true
    → is_some (get (now, j) all) ≡ true
    → member j (due now all m) ≡ true
unfolding due
member-due j now all [] h k = absurd (ground arith)
member-due j now all (((block, id), v) ∷ m) h k = elim (Bool-cases (is_some (get (now, j) m))) [
  | inl rest ↦ ground (arith, member-due j now all m rest k)
  | inr gone ↦ ground arith
]

-- And only then.
due-listed :
    (j now : ℕ) (all m : Map (ℕ × ℕ) (Unit {0}))
    → member j (due now all m) ≡ true
    → is_some (get (now, j) all) ≡ true
unfolding due
due-listed j now all [] h = absurd (ground arith)
due-listed j now all (((block, id), v) ∷ m) h = ground (arith, due-listed j now all m)

get-drain :
    (block j now : ℕ) (m : Map (ℕ × ℕ) (Unit {0}))
    → is_some (get (block, j) (drain now m))
      ≡ (if block == now then false else is_some (get (block, j) m))
unfolding drain
get-drain block j now [] = ground arith
get-drain block j now (((b, id), v) ∷ m) = ground (arith, get-drain block j now m)

-- An auction ends once.
ends-once :
    (block now : ℕ) (o : Option AuctionInfo)
    → auction_ends block o ≡ true
    → auction_ends now o ≡ true
    → block ≡ now
ends-once block now none h k = absurd (ground arith)
ends-once block now (some auction) h k = go auction.end h k
  where
    go : (e : Option ℕ) → ends_at block e ≡ true → ends_at now e ≡ true → block ≡ now
    go none h k = absurd (ground arith)
    go (some e) h k = ground arith

module _ {H : Type 0} (cfg : Config H) where
  close_one-closes :
      (j id : ℕ) (s : State H)
      → (get j (close_one cfg id s).auctions ≡ (if id == j then none else get j s.auctions))
        × ((close_one cfg id s).auction_end_time ≡ s.auction_end_time)
        × ((close_one cfg id s).auctions_index ≡ s.auctions_index)
  unfolding close_one
  close_one-closes j id s = ground (arith, get-put j id none s.auctions)

  close_all-closes :
      (j : ℕ) (ids : List ℕ) (s : State H)
      → (get j (close_all cfg ids s).auctions ≡ (if member j ids then none else get j s.auctions))
        × ((close_all cfg ids s).auction_end_time ≡ s.auction_end_time)
        × ((close_all cfg ids s).auctions_index ≡ s.auctions_index)
  unfolding close_all
  close_all-closes j [] s = ground arith
  close_all-closes j (id ∷ ids) s =
      ground (arith, close_one-closes j id s, close_all-closes j ids (close_one cfg id s))

  -- At the end of a block, the auctions that end there are gone, with what listed them, and all others
  -- stay.
  pub record HasClosed (now : ℕ) (s t : State H) : Type 0 where
    pub closed :
        (id : ℕ)
        → get id t.auctions
          ≡ (if auction_ends now (get id s.auctions) then none else get id s.auctions)
    pub listed :
        (block id : ℕ)
        → is_some (get (block, id) t.auction_end_time)
          ≡ (if block == now then false else is_some (get (block, id) s.auction_end_time))
    pub index : t.auctions_index ≡ s.auctions_index

  -- If the end times list the stored auctions, the end of a block removes exactly the auctions that
  -- end at it, and exactly what lists them.
  pub on_finalize-HasClosed :
      (now : ℕ) (s : State H) → IsIndexed s → HasClosed now s (on_finalize cfg now s)
  unfolding on_finalize
  on_finalize-HasClosed now s i =
      let all = s.auction_end_time in
      let u : State H = record s { auction_end_time = drain now all } in
      record {
        closed = λ id. ground (
          arith,
          close_all-closes id (due now all all) u,
          i.listed now id,
          member-due id now all all,
          due-listed id now all all,
        );
        listed = λ block id.
            ground (arith, close_all-closes id (due now all all) u, get-drain block id now all);
        index = ground (arith, close_all-closes 0 (due now all all) u);
      }

  pub HasClosed-IsIndexed :
      (now : ℕ) (s t : State H) → IsIndexed s → HasClosed now s t → IsIndexed t
  HasClosed-IsIndexed now s t i c = record {
    listed = λ block id. ground (
      arith,
      i.listed block id,
      c.listed block id,
      c.closed id,
      ends-once block now (get id s.auctions),
    );
    fresh = λ id. ground (arith, i.fresh id, c.index, c.closed id);
  }
