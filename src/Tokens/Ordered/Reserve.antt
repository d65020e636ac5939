-- ===== src/Tokens/Ordered/Reserve.antt =====
-- About `reserve_named` (tokens/src/lib.rs).
use open_runtime_module_libr.Tokens.Reserves.{reserve}
use open_runtime_module_libr.Tokens.Monad.{modify, ◌>>◌, or_fail, ◌>>=◌}
use open_runtime_module_libr.Tokens.Books.Reserves.{reserve-Reserves, Reserves}
use open_runtime_module_libr.Storage.Laws.{get-put}
use open_runtime_module_libr.Tokens.Account.{accounts}
use open_runtime_module_libr.Tokens.Ordered.Entries.{
  placed-IsSorted, amount_named-placed, placed, IsSorted,
}
use open_runtime_module_libr.Tokens.Books.{IsBacked, HasQuietHooks}
use open_runtime_module_libr.Tokens.Named.{
  reserve_named, store_reserves, reserves_of, reserved_balance_named, try_insert, add_named,
}
use open_runtime_module_libr.Tokens.Types.{
  DispatchError, ok, err, ReserveData, Result, State, Config,
}
use open_runtime_module_libr.Prelude.{
  refl, none, Option, false, is_zero, pair_eq, ◌==◌, if◌then◌else◌, ◌≤◌, some, ◌+◌, ◌≡◌, List, ℕ,
  arith,
}

add_named-placed :
    (max_value max_reserves id value : ℕ) (old new : List ReserveData)
    → add_named max_value max_reserves id value old ≡ some new
    → new ≡ placed max_value id value old
unfolding add_named try_insert
add_named-placed max_value max_reserves id value old new h = ground arith

module _ {Sys : Type 0} (cfg : Config Sys) (quiet : HasQuietHooks cfg) where
  -- What reserving under a name does: an error and no change, or the value moves from the free to the
  -- reserved balance, what is held under the name `j` rises if it is the name reserved under, and the
  -- list is still sorted.
  abbrev pub ReservesNamed :
      (c who id j value : ℕ) → State Sys → Result (Unit {0}) × State Sys → Type 0
  ReservesNamed c who id j value s (err e, s') = s' ≡ s
  ReservesNamed c who id j value s (ok _, s') =
      ((accounts who c s').free + value ≡ (accounts who c s).free)
      × ((accounts who c s').reserved ≡ (accounts who c s).reserved + value)
      × (reserved_balance_named j c who s' ≡ (
          if j == id
          then reserved_balance_named id c who s + value
          else reserved_balance_named j c who s))
      × IsSorted (reserves_of who c s')

  stored_reserves :
      (c who : ℕ) (new : List ReserveData) (t : State Sys)
      → reserves_of who c (store_reserves who c (some new) t) ≡ new
  stored_reserves c who new t = ground (arith, get-put (who, c) (who, c) (some new) t.reserves)

  stored-named :
      (c who id j value : ℕ) (s t : State Sys)
      → IsSorted (reserves_of who c s)
      → reserved_balance_named id c who s + value ≤ cfg.max_value
      → let new = placed cfg.max_value id value (reserves_of who c s) in
        let u = store_reserves who c (some new) t in
        (reserved_balance_named j c who u ≡ (
          if j == id
          then reserved_balance_named id c who s + value
          else reserved_balance_named j c who s))
        × IsSorted (reserves_of who c u)
  unfolding reserved_balance_named
  stored-named c who id j value s t sorted fits =
      let old = reserves_of who c s in
      let new = placed cfg.max_value id value old in
      let now = stored_reserves c who new t in
      rw now (
        ground (arith, amount_named-placed cfg.max_value id value j old (omega arith)),
        placed-IsSorted cfg.max_value id value old sorted,
      )

  -- With hooks that leave the storage of the pallet alone, from backed books and a sorted list, if
  -- the name can hold the value too, reserving a positive value under it fails and changes nothing,
  -- or moves the value from the free to the reserved balance, raises by it what is held under the
  -- name and nothing else, and leaves the list sorted.
  pub reserve_named-ReservesNamed :
      (c who id j value : ℕ) (s : State Sys)
      → IsBacked cfg c s
      → IsSorted (reserves_of who c s)
      → reserved_balance_named id c who s + value ≤ cfg.max_value
      → is_zero value ≡ false
      → ReservesNamed c who id j value s (reserve_named cfg id c who value s)
  unfolding reserve_named
  reserve_named-ReservesNamed c who id j value s b sorted fits nz =
      rw nz (go (add_named cfg.max_value cfg.max_reserves id value (reserves_of who c s)) refl)
    where
      store :
          (new : List ReserveData) (r : Result (Unit {0}) × State Sys)
          → add_named cfg.max_value cfg.max_reserves id value (reserves_of who c s) ≡ some new
          → Reserves cfg quiet c c who value s r
          → ReservesNamed c who id j value s
              (((λ (_ : State Sys). r) >> modify (store_reserves who c (some new))) s)
      store new (err e, t) h f = f
      store new (ok _, t) h f =
          let found = stored-named c who id j value s t sorted fits in
          rw (add_named-placed _ _ id value (reserves_of who c s) new h)
            (f.0.free, f.0.reserved, found.0, found.1)

      go :
          (o : Option (List ReserveData))
          → add_named cfg.max_value cfg.max_reserves id value (reserves_of who c s) ≡ o
          → ReservesNamed c who id j value s (
              (or_fail o DispatchError.too_many_reserves >>= λ reserves.
              reserve cfg c who value >> modify (store_reserves who c (some reserves)))
                s)
      go none h = refl
      go (some new) h =
          store new (reserve cfg c who value s) h (reserve-Reserves cfg quiet c c who value s b)
