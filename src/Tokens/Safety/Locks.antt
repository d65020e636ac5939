-- ===== src/Tokens/Safety/Locks.antt =====
-- About lists of locks as finite maps from identifiers to amounts (tokens/src/lib.rs).
use open_runtime_module_libr.Tokens.Types.{BalanceLock}
use open_runtime_module_libr.Tokens.Locks.{raise_lock, push_left, replace_lock, max_lock}
use open_runtime_module_libr.Prelude.{
  length, ◌+◌, max, refl, ◌∷◌, [], arith, ◌==◌, is_some, arith, not, if◌then◌else◌, some, ◌++◌, ◌≤◌,
  none, retain, ◌≡◌, Option, List, ℕ,
}

-- The amount of the first lock with an identifier.
abbrev pub find_lock : ℕ → List BalanceLock → Option ℕ
find_lock j [] = none
find_lock j (lock ∷ locks) = if lock.id == j then some lock.amount else find_lock j locks

find_lock-append :
    (j : ℕ) (xs ys : List BalanceLock)
    → find_lock j (xs ++ ys) ≡ (if is_some (find_lock j xs) then find_lock j xs else find_lock j ys)
find_lock-append j [] ys = refl
find_lock-append j (x ∷ xs) ys = ground (arith, find_lock-append j xs ys)

-- With no lock to place, the locks of the identifier go.
replace_lock-none :
    (id j : ℕ) (locks : List BalanceLock)
    → let (rest, left) = replace_lock id none locks in
      (left ≡ none) × (find_lock j rest ≡ (if j == id then none else find_lock j locks))
unfolding replace_lock
replace_lock-none id j [] = ground arith
replace_lock-none id j (lock ∷ locks) = ground (arith, replace_lock-none id j locks)

pub replace_lock-some :
    (id amount j : ℕ) (locks : List BalanceLock)
    → let (rest, left) = replace_lock id (some (record { id = id; amount = amount })) locks in
      find_lock j (push_left rest left) ≡ (if j == id then some amount else find_lock j locks)
unfolding replace_lock
replace_lock-some id amount j [] = ground arith
replace_lock-some id amount j (lock ∷ locks) =
    ground (arith, replace_lock-none id j locks, replace_lock-some id amount j locks)

pub find_lock-retain :
    (id j : ℕ) (locks : List BalanceLock)
    → find_lock j (retain (λ lock. not (lock.id == id)) locks)
      ≡ (if j == id then none else find_lock j locks)
find_lock-retain id j [] = ground arith
find_lock-retain id j (lock ∷ locks) = ground (arith, find_lock-retain id j locks)

-- No lock is above the greatest.
max_lock-le : (acc : ℕ) (locks : List BalanceLock) → acc ≤ max_lock acc locks
unfolding max_lock
max_lock-le acc [] = omega arith
max_lock-le acc (lock ∷ locks) = omega (arith, max_lock-le (max acc lock.amount) locks)

pub find_lock-le-max_lock :
    (acc j n : ℕ) (locks : List BalanceLock) → find_lock j locks ≡ some n → n ≤ max_lock acc locks
unfolding max_lock
find_lock-le-max_lock acc j n [] h = ground arith
find_lock-le-max_lock acc j n (lock ∷ locks) h = ground (
  arith,
  max_lock-le (max acc lock.amount) locks,
  find_lock-le-max_lock (max acc lock.amount) j n locks,
)

raise_lock-none :
    (id j : ℕ) (locks : List BalanceLock)
    → let (rest, left, reported) = raise_lock id none locks in
      (left ≡ none) × (find_lock j rest ≡ (if j == id then none else find_lock j locks))
unfolding raise_lock
raise_lock-none id j [] = ground arith
raise_lock-none id j (lock ∷ locks) = ground (arith, raise_lock-none id j locks)

-- The greater of a lock's amount and a new one.
abbrev pub raised_to : Option ℕ → ℕ → ℕ
raised_to none amount = amount
raised_to (some n) amount = max n amount

pub raise_lock-some :
    (id amount j : ℕ) (locks : List BalanceLock)
    → let (rest, left, reported) =
        raise_lock id (some (record { id = id; amount = amount })) locks in
      find_lock j (push_left rest left)
      ≡ (if j == id then some (raised_to (find_lock id locks) amount) else find_lock j locks)
unfolding raise_lock
raise_lock-some id amount j [] = ground arith
raise_lock-some id amount j (lock ∷ locks) =
    ground (arith, raise_lock-none id j locks, raise_lock-some id amount j locks)

-- How many locks have other identifiers.
abbrev pub count_others : ℕ → List BalanceLock → ℕ
count_others id [] = 0
count_others id (lock ∷ locks) = (if lock.id == id then 0 else 1) + count_others id locks

length-append_one :
    (locks : List BalanceLock) (lock : BalanceLock) → length (locks ++ lock ∷ []) ≡ length locks + 1
length-append_one [] l = refl
length-append_one (x ∷ locks) l = omega (arith, length-append_one locks l)

pub length-retain :
    (id : ℕ) (locks : List BalanceLock)
    → length (retain (λ lock. not (lock.id == id)) locks) ≡ count_others id locks
length-retain id [] = refl
length-retain id (lock ∷ locks) = ground (arith, length-retain id locks)

length-replace_lock-none :
    (id : ℕ) (locks : List BalanceLock)
    → let (rest, left) = replace_lock id none locks in
      (left ≡ none) × (length rest ≡ count_others id locks)
unfolding replace_lock
length-replace_lock-none id [] = (refl, refl)
length-replace_lock-none id (lock ∷ locks) = ground (arith, length-replace_lock-none id locks)

pub length-replace_lock :
    (id amount : ℕ) (locks : List BalanceLock)
    → let (rest, left) = replace_lock id (some (record { id = id; amount = amount })) locks in
      length (push_left rest left) ≡ count_others id locks + 1
unfolding replace_lock
length-replace_lock id amount [] = refl
length-replace_lock id amount (lock ∷ locks) =
    ground (arith, length-replace_lock-none id locks, length-replace_lock id amount locks)

length-raise_lock-none :
    (id : ℕ) (locks : List BalanceLock)
    → let (rest, left, reported) = raise_lock id none locks in
      (left ≡ none) × (length rest ≡ count_others id locks)
unfolding raise_lock
length-raise_lock-none id [] = (refl, refl)
length-raise_lock-none id (lock ∷ locks) = ground (arith, length-raise_lock-none id locks)

pub length-raise_lock :
    (id amount : ℕ) (locks : List BalanceLock)
    → let (rest, left, reported) =
        raise_lock id (some (record { id = id; amount = amount })) locks in
      length (push_left rest left) ≡ count_others id locks + 1
unfolding raise_lock
length-raise_lock id amount [] = refl
length-raise_lock id amount (lock ∷ locks) =
    ground (arith, length-raise_lock-none id locks, length-raise_lock id amount locks)

-- No amount of the locks is above `n`.
abbrev pub AreUpTo : ℕ → List BalanceLock → Type 0
AreUpTo n [] = Unit
AreUpTo n (lock ∷ locks) = (lock.amount ≤ n) × AreUpTo n locks

-- `n` is the greatest amount of the locks, or 0 without locks: the least that none is above.
pub record IsGreatest (n : ℕ) (locks : List BalanceLock) : Type 0 where
  pub above : AreUpTo n locks
  pub least : (m : ℕ) → AreUpTo m locks → n ≤ m

max_lock-AreUpTo : (acc n : ℕ) (locks : List BalanceLock) → max_lock acc locks ≤ n → AreUpTo n locks
unfolding max_lock
max_lock-AreUpTo acc n [] le = tt
max_lock-AreUpTo acc n (lock ∷ locks) le = (
  omega (arith, max_lock-le (max acc lock.amount) locks),
  max_lock-AreUpTo (max acc lock.amount) n locks le,
)

max_lock-least :
    (acc m : ℕ) (locks : List BalanceLock) → acc ≤ m → AreUpTo m locks → max_lock acc locks ≤ m
unfolding max_lock
max_lock-least acc m [] le a = le
max_lock-least acc m (lock ∷ locks) le (lx, a) =
    max_lock-least (max acc lock.amount) m locks (omega (arith, le, lx)) a

pub max_lock-IsGreatest : (locks : List BalanceLock) → IsGreatest (max_lock 0 locks) locks
max_lock-IsGreatest locks = record {
  above = max_lock-AreUpTo 0 (max_lock 0 locks) locks (omega arith);
  least = λ m a. max_lock-least 0 m locks (omega arith) a;
}
