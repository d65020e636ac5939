-- ===== src/Tokens/Ordered/Entries.antt =====
-- Sorted lists of named reserves (tokens/src/lib.rs): looking up, adding to, lowering and removing an
-- entry.
use open_runtime_module_libr.Numeric.{saturating_add}
use open_runtime_module_libr.Tokens.Types.{ReserveData}
use open_runtime_module_libr.Tokens.Named.{
  missing, next, found, insert_at, Search, set_amount_at, amount_at, search_id,
}
use open_runtime_module_libr.Prelude.{
  inr, inl, Bool-cases, ◌≤◌, ltb, ◌==◌, refl, if◌then◌else◌, ◌≡◌, [], ◌<◌, ◌∷◌, List, ℕ, arith,
}

-- What the list holds under an identifier.
abbrev amount_named : ℕ → List ReserveData → ℕ
amount_named id reserves = elim (search_id id reserves) [
  | found i ↦ amount_at i reserves
  | missing i ↦ 0
]

-- Below the first identifier of a list.
abbrev IsBelow : ℕ → List ReserveData → Type 0
IsBelow n [] = Unit
IsBelow n (data1 ∷ rest) = n < data1.id

-- Identifiers rise strictly, as the binary search needs it.
abbrev pub IsSorted : List ReserveData → Type 0
IsSorted [] = Unit
IsSorted (data1 ∷ rest) = IsBelow data1.id rest × IsSorted rest

next_amount :
    (r : Search) (data1 : ReserveData) (rest : List ReserveData)
    → elim (next r) [ found i ↦ amount_at i (data1 ∷ rest) | missing i ↦ 0 ]
      ≡ elim r [ found i ↦ amount_at i rest | missing i ↦ 0 ]
unfolding amount_at
next_amount (found i) data1 rest = refl
next_amount (missing i) data1 rest = refl

amount_named-cons :
    (id : ℕ) (data1 : ReserveData) (rest : List ReserveData)
    → amount_named id (data1 ∷ rest) ≡ (
        if data1.id == id
        then data1.amount
        else if ltb id data1.id
        then 0
        else amount_named id rest)
unfolding search_id amount_at
amount_named-cons id data1 rest = ground (arith, next_amount (search_id id rest) data1 rest)

-- The list with `value` added under an identifier.
abbrev pub placed : (max_value id value : ℕ) → List ReserveData → List ReserveData
placed max_value id value reserves = elim (search_id id reserves) [
  | found i ↦ set_amount_at i (saturating_add max_value (amount_at i reserves) value) reserves
  | missing i ↦ insert_at i (record { id = id; amount = value }) reserves
]

next_placed :
    (max_value id value : ℕ) (r : Search) (data1 : ReserveData) (rest : List ReserveData)
    → elim (next r) as (λ _. List ReserveData) [
      | found i ↦
          set_amount_at i
            (saturating_add max_value (amount_at i (data1 ∷ rest)) value)
            (data1 ∷ rest)
      | missing i ↦ insert_at i (record { id = id; amount = value }) (data1 ∷ rest)
    ]
      ≡ data1 ∷ elim r as (λ _. List ReserveData) [
        | found i ↦ set_amount_at i (saturating_add max_value (amount_at i rest) value) rest
        | missing i ↦ insert_at i (record { id = id; amount = value }) rest
      ]
unfolding amount_at set_amount_at insert_at
next_placed max_value id value (found i) data1 rest = refl
next_placed max_value id value (missing i) data1 rest = refl

placed-cons :
    (max_value id value : ℕ) (data1 : ReserveData) (rest : List ReserveData)
    → placed max_value id value (data1 ∷ rest) ≡ (
        if data1.id == id
        then record data1 { amount = saturating_add max_value data1.amount value } ∷ rest
        else if ltb id data1.id
        then record { id = id; amount = value } ∷ data1 ∷ rest
        else data1 ∷ placed max_value id value rest)
unfolding search_id amount_at set_amount_at insert_at
placed-cons max_value id value data1 rest =
    ground (arith, next_placed max_value id value (search_id id rest) data1 rest)

amount_named-placed-nil :
    (max_value id value j : ℕ)
    → value ≤ max_value
    → amount_named j (placed max_value id value [])
      ≡ (if j == id then saturating_add max_value (amount_named id []) value else amount_named j [])
unfolding search_id amount_at insert_at
amount_named-placed-nil max_value id value j le = ground arith

amount_named-placed-cons :
    (max_value id value j : ℕ) (data1 : ReserveData) (rest : List ReserveData)
    → value ≤ max_value
    → amount_named j (placed max_value id value rest) ≡ (
        if j == id
        then saturating_add max_value (amount_named id rest) value
        else amount_named j rest)
    → amount_named j (placed max_value id value (data1 ∷ rest)) ≡ (
        if j == id
        then saturating_add max_value (amount_named id (data1 ∷ rest)) value
        else amount_named j (data1 ∷ rest))
amount_named-placed-cons max_value id value j data1 rest le ih =
    let entry : ReserveData = record { id = id; amount = value } in
    let changed : ReserveData = record data1 {
      amount = saturating_add max_value data1.amount value;
    } in
    rw
      (
        placed-cons max_value id value data1 rest,
        amount_named-cons id data1 rest,
        amount_named-cons j data1 rest,
      )
      (elim (Bool-cases (data1.id == id)) [
        | inl here ↦ rw (here, amount_named-cons j changed rest) (ground arith)
        | inr away ↦ elim (Bool-cases (ltb id data1.id)) [
          | inl before ↦
              rw
                (
                  away,
                  before,
                  amount_named-cons j entry (data1 ∷ rest),
                  amount_named-cons j data1 rest,
                )
                (ground arith)
          | inr after ↦
              rw (away, after, amount_named-cons j data1 (placed max_value id value rest), ih)
                (ground arith)
        ]
      ])

pub amount_named-placed :
    (max_value id value j : ℕ) (reserves : List ReserveData)
    → value ≤ max_value
    → amount_named j (placed max_value id value reserves) ≡ (
        if j == id
        then saturating_add max_value (amount_named id reserves) value
        else amount_named j reserves)
amount_named-placed max_value id value j [] le = amount_named-placed-nil max_value id value j le
amount_named-placed max_value id value j (data1 ∷ rest) le =
    amount_named-placed-cons max_value id value j data1 rest le
      (amount_named-placed max_value id value j rest le)

-- A new entry keeps the list sorted.
IsBelow-placed :
    (max_value id value n : ℕ) (reserves : List ReserveData)
    → n < id
    → IsBelow n reserves
    → IsBelow n (placed max_value id value reserves)
unfolding search_id insert_at
IsBelow-placed max_value id value n [] lt h = lt
IsBelow-placed max_value id value n (data1 ∷ rest) lt h =
    rw (placed-cons max_value id value data1 rest) (ground arith)

pub placed-IsSorted :
    (max_value id value : ℕ) (reserves : List ReserveData)
    → IsSorted reserves
    → IsSorted (placed max_value id value reserves)
unfolding search_id insert_at
placed-IsSorted max_value id value [] h = (tt, tt)
placed-IsSorted max_value id value (data1 ∷ rest) (below, sorted) =
    rw (placed-cons max_value id value data1 rest) (
      ground (
        arith,
        placed-IsSorted max_value id value rest sorted,
        IsBelow-placed max_value id value data1.id rest,
      ))
