-- ===== src/Tokens/Named.antt =====
-- Named reserves of the tokens pallet (tokens/src/lib.rs): `NamedMultiReservableCurrency`. A list of
-- named reserves is sorted by identifier; a binary search in it finds the entry of an identifier, or
-- the place to insert one, which is before the first greater identifier.
use open_runtime_module_libr.Tokens.Monad.{or_fail, modify, ◌>>◌, gets, ◌>>=◌, deposit_event, pure}
use open_runtime_module_libr.Numeric.{saturating_add, saturating_sub}
use open_runtime_module_libr.Tokens.Reserves.{
  reserve, repatriate_reserved, unreserve, slash_reserved,
}
use open_runtime_module_libr.Storage.{put, get}
use open_runtime_module_libr.Tokens.Types.{
  DispatchError, Event, err, ok, Action, BalanceStatus, ReserveData, Config, State,
}
use open_runtime_module_libr.Prelude.{
  pair_eq, none, unwrap_or, length, some, ltb, Option, ℕ, zero, suc, if◌then◌else◌, is_zero, ◌==◌,
  min, List, [], ◌∷◌,
}

-- The result of `binary_search_by_key`.
pub data Search : Type 0 where
  found missing : ℕ → Search

abbrev pub next : Search → Search
next (found i) = found (suc i)
next (missing i) = missing (suc i)

-- `reserves.binary_search_by_key(id, |data| data.id)` on a sorted list.
unfoldable pub search_id : ℕ → List ReserveData → Search
search_id id [] = missing 0
search_id id (data1 ∷ rest) =
    if data1.id == id
    then found 0
    else if ltb id data1.id
    then missing 0
    else next (search_id id rest)

-- `reserves[index].amount`; the index is that of a found entry.
unfoldable pub amount_at : ℕ → List ReserveData → ℕ
amount_at i [] = 0
amount_at zero (data1 ∷ rest) = data1.amount
amount_at (suc i) (data1 ∷ rest) = amount_at i rest

-- `reserves[index].amount = amount`
unfoldable pub set_amount_at : ℕ → ℕ → List ReserveData → List ReserveData
set_amount_at i amount [] = []
set_amount_at zero amount (data1 ∷ rest) = record data1 { amount = amount } ∷ rest
set_amount_at (suc i) amount (data1 ∷ rest) = data1 ∷ set_amount_at i amount rest

-- `reserves.remove(index)`
unfoldable remove_at : ℕ → List ReserveData → List ReserveData
remove_at i [] = []
remove_at zero (data1 ∷ rest) = rest
remove_at (suc i) (data1 ∷ rest) = data1 ∷ remove_at i rest

unfoldable pub insert_at : ℕ → ReserveData → List ReserveData → List ReserveData
insert_at zero entry reserves = entry ∷ reserves
insert_at (suc i) entry [] = entry ∷ []
insert_at (suc i) entry (data1 ∷ rest) = data1 ∷ insert_at i entry rest

-- `BoundedVec::try_insert`
unfoldable pub try_insert : ℕ → ℕ → ReserveData → List ReserveData → Option (List ReserveData)
try_insert max_reserves i entry reserves =
    if ltb (length reserves) max_reserves then some (insert_at i entry reserves) else none

-- The new list of `reserve_named`: the amount is added to the entry, or a new entry is made.
unfoldable pub add_named :
    (max_value max_reserves id value : ℕ) → List ReserveData → Option (List ReserveData)
add_named max_value max_reserves id value reserves = elim (search_id id reserves) [
  | found i ↦
      some (set_amount_at i (saturating_add max_value (amount_at i reserves) value) reserves)
  | missing i ↦ try_insert max_reserves i (record { id = id; amount = value }) reserves
]

-- The list of `unreserve_named` after the amount is taken: an empty entry goes, and so does a list with
-- no other entry.
unfoldable drop_empty : ℕ → List ReserveData → Option (List ReserveData)
drop_empty i reserves =
    if is_zero (amount_at i reserves)
    then if length reserves == 1 then none else some (remove_at i reserves)
    else some reserves

module _ {Sys : Type 0} where
  -- The `Reserves` getter.
  abbrev pub reserves_of : ℕ → ℕ → State Sys → List ReserveData
  reserves_of who currency_id s = unwrap_or (get (who, currency_id) s.reserves) []

  abbrev pub store_reserves : ℕ → ℕ → Option (List ReserveData) → State Sys → State Sys
  store_reserves who currency_id reserves s = record s {
    reserves = put (who, currency_id) reserves s.reserves;
  }

  -- `NamedMultiReservableCurrency::reserved_balance_named`
  unfoldable pub reserved_balance_named : ℕ → ℕ → ℕ → State Sys → ℕ
  reserved_balance_named id currency_id who s =
      let reserves = reserves_of who currency_id s in
      elim (search_id id reserves) [ found i ↦ amount_at i reserves | missing i ↦ 0 ]

module _ {Sys : Type 0} (cfg : Config Sys) where
  -- `NamedMultiReservableCurrency::reserve_named`
  unfoldable pub reserve_named : ℕ → ℕ → ℕ → ℕ → Action Sys (Unit {0})
  reserve_named id currency_id who value = if is_zero value then pure tt else do
    old ← gets (reserves_of who currency_id)
    reserves ←
        or_fail (add_named cfg.max_value cfg.max_reserves id value old)
          DispatchError.too_many_reserves
    reserve cfg currency_id who value
    modify (store_reserves who currency_id (some reserves))

  -- The branch of `unreserve_named` where the entry is found.
  unfoldable unreserve_entry : ℕ → ℕ → ℕ → ℕ → List ReserveData → State Sys → ℕ × State Sys
  unreserve_entry i currency_id who value reserves s =
      let to_change = min (amount_at i reserves) value in
      let (remain, s1) = unreserve cfg currency_id who to_change s in
      let actual = saturating_sub to_change remain in
      let changed = set_amount_at i (saturating_sub (amount_at i reserves) actual) reserves in
      (saturating_sub value actual, store_reserves who currency_id (drop_empty i changed) s1)

  -- `NamedMultiReservableCurrency::unreserve_named`: what could not be unreserved
  unfoldable unreserve_named : ℕ → ℕ → ℕ → ℕ → State Sys → ℕ × State Sys
  unreserve_named id currency_id who value s =
      if is_zero value then (0, s) else elim (get (who, currency_id) s.reserves) [
        | none ↦ (value, store_reserves who currency_id none s)
        | some reserves ↦ elim (search_id id reserves) [
          | found i ↦ unreserve_entry i currency_id who value reserves s
          | missing i ↦ (value, store_reserves who currency_id (some reserves) s)
        ]
      ]

  -- `NamedMultiReservableCurrency::slash_reserved_named`: what could not be slashed. The entry stays,
  -- even when nothing is left in it.
  unfoldable slash_reserved_named : ℕ → ℕ → ℕ → ℕ → State Sys → ℕ × State Sys
  slash_reserved_named id currency_id who value s =
      if is_zero value
      then (0, s)
      else (let reserves = reserves_of who currency_id s in
          elim (search_id id reserves) [
            | found i ↦
                let to_change = min (amount_at i reserves) value in
                let (remain, s1) = slash_reserved cfg currency_id who to_change s in
                let actual = saturating_sub to_change remain in
                let changed =
                  set_amount_at i (saturating_sub (amount_at i reserves) actual) reserves in
                (
                  saturating_sub value actual,
                  store_reserves who currency_id (some changed)
                      (deposit_event (Event.slashed currency_id who 0 actual) s1),
                )
            | missing i ↦ (value, store_reserves who currency_id (some reserves) s)
          ])

  -- What `repatriate_reserved_named` does to the beneficiary: the amount moved.
  unfoldable repatriate_to :
      (id currency_id slashed beneficiary to_change : ℕ) → BalanceStatus → Action Sys ℕ
  repatriate_to id currency_id slashed beneficiary to_change BalanceStatus.free s =
      let (remain, s1) =
        repatriate_reserved cfg currency_id slashed beneficiary to_change BalanceStatus.free s in
      (ok (saturating_sub to_change remain), s1)
  repatriate_to id currency_id slashed beneficiary to_change BalanceStatus.reserved s =
      let reserves = reserves_of beneficiary currency_id s in
      let (remain, s1) =
        repatriate_reserved cfg currency_id slashed beneficiary to_change BalanceStatus.reserved
          s in
      let actual = saturating_sub to_change remain in
      elim (add_named cfg.max_value cfg.max_reserves id actual reserves) [
        | none ↦ (err DispatchError.too_many_reserves, s1)
        | some changed ↦ (ok actual, store_reserves beneficiary currency_id (some changed) s1)
      ]

  -- `NamedMultiReservableCurrency::repatriate_reserved_named` between different accounts.
  unfoldable repatriate_named :
      (id currency_id slashed beneficiary value : ℕ) → BalanceStatus → Action Sys ℕ
  repatriate_named id currency_id slashed beneficiary value status s =
      let reserves = reserves_of slashed currency_id s in
      elim (search_id id reserves) [
        | found i ↦
            (do
              actual ←
                  repatriate_to id currency_id slashed beneficiary
                    (min (amount_at i reserves) value) status
              modify (
                  store_reserves slashed currency_id (
                    some (set_amount_at i (saturating_sub (amount_at i reserves) actual) reserves)))
              pure (saturating_sub value actual))
              s
        | missing i ↦ (ok value, store_reserves slashed currency_id (some reserves) s)
      ]

  -- The call from an account to itself.
  unfoldable repatriate_named_self : (id currency_id who value : ℕ) → BalanceStatus → Action Sys ℕ
  repatriate_named_self id currency_id who value BalanceStatus.free s =
      let (remain, s1) = unreserve_named id currency_id who value s in (ok remain, s1)
  repatriate_named_self id currency_id who value BalanceStatus.reserved s =
      (ok (saturating_sub value (reserved_balance_named id currency_id who s)), s)

  -- `NamedMultiReservableCurrency::repatriate_reserved_named`: what could not be moved
  unfoldable repatriate_reserved_named :
      (id currency_id slashed beneficiary value : ℕ) → BalanceStatus → Action Sys ℕ
  repatriate_reserved_named id currency_id slashed beneficiary value status =
      if is_zero value
      then pure 0
      else if slashed == beneficiary
      then repatriate_named_self id currency_id slashed value status
      else repatriate_named id currency_id slashed beneficiary value status
