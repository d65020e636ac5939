-- ===== src/Lib.antt =====
-- Verification of the Open Runtime Module Library: the pallets tokens, vesting, rewards, auction,
-- gradually-update, oracle and nft, and the ordered set of the utilities.
--
-- The tokens pallet keeps, for every account and currency, a free, a reserved and a frozen balance,
-- with a total issuance per currency, locks that freeze balances, and named reserves. Its traits serve
-- other pallets, its calls serve users, and a runtime configures it with constants and hooks. Vesting
-- locks balances of a currency, such as that of the tokens pallet, and releases them period by period.
-- Rewards keeps shares of pools and pays rewards in proportion to them. Auction takes rising bids and
-- closes an auction at the block where it ends. Gradually-update moves stored numbers to a target by a
-- step every few blocks. Oracle takes values of operators, each once in a block by an ordered set, and
-- combines them. Nft keeps classes of tokens and an index of their owners.
--
--   Prelude, Prelude/Tests, Prelude/Lists   library names passed on, Boolean tests, lists
--   Numeric      checked and saturating arithmetic with a greatest value `max_value`
--   Storage      a storage map as an association list; Storage/Laws and Storage/Sum hold its lemmas
--   Tokens/Types       tokens/src/lib.rs: AccountData, BalanceLock, ReserveData, Error, Event, Config and
--                      the storage maps
--   Tokens/Monad       results passed along with the storage, as `?` does
--   Tokens/Account     try_mutate_account, mutate_account, ensure_can_withdraw, the getters and setters
--   Tokens/Transfer    do_transfer, do_withdraw, do_deposit
--   Tokens/Currency    MultiCurrency, MultiCurrencyExtended, TransferDust, BurnDust
--   Tokens/Locks       update_locks, MultiLockableCurrency
--   Tokens/Reserves    MultiReservableCurrency
--   Tokens/Named       NamedMultiReservableCurrency
--   Tokens/Fungibles   fungibles::Inspect, Mutate, Unbalanced, Balanced
--   Tokens/Hold        fungibles::InspectHold, MutateHold, UnbalancedHold
--   Tokens/Calls       the dispatchable calls, the genesis build, TransferAll
--   Tokens/Imbalances  tokens/src/imbalances.rs
--   Tokens/Adapter     CurrencyAdapter
--   Tokens/Books       the holdings of all accounts against the total issuance, one child per operation
--   Tokens/Safety      what calls respect and leave in accounts and locks
--   Tokens/Ordered     the sorted lists of named reserves
--   Tokens/Tests       concrete runs
--   Effect       results passed along with a state, for the pallets below
--   Vesting/Types, Schedule, Calls   vesting/src/lib.rs: schedules, what they lock, calls and genesis
--   Vesting/Amounts, Lists, Covered, Claims, Transfers, Updates, Dispatched, Steps
--                what one schedule and a list of them lock, and the lock of an account against it
--   BTreeMap     maps in ascending order of their keys
--   Rewards/Types, Amounts, Shares   rewards/src/lib.rs: proportions and loops over rewards, operations
--   Rewards/Balanced, Claims, Removal, Moves, Steps, Payouts   shares against totals, and what claims pay
--   Auction/Types, Calls   auction/src/lib.rs and traits/src/auction.rs
--   Auction/Index, Bids, Closing, Steps   the end times against the stored auctions
--   OrderedSet   utilities/src/ordered_set.rs; OrderedSet/Lists, Refinement and Creation hold its
--                lemmas
--   GraduallyUpdate/Types, Bytes, Calls   gradually-update/src/lib.rs
--   GraduallyUpdate/Progress, Values      one step of a value, and many blocks
--   Oracle/Types, Calls, Combine   oracle/src/lib.rs and oracle/src/default_combine_data.rs
--   Oracle/Feeds, Blocks, Median   one feed, the feeds of a block, and the median of live values
--   Nft/Types, Calls   nft/src/lib.rs
--   Nft/Consistent, Kept, Made, Genesis, Steps   owners, issuances and ids in agreement
--
-- An operation that changes storage is a function from the storage to a result and the new storage. What
-- was written before an error stays, as in the code; the dispatchable calls roll back. The two nested
-- `try_mutate_account` of a transfer are kept as they are, so the account of the receiver is read before
-- the sender is written. A balance is a natural number; checked operations fail and saturating ones stop
-- at `max_value`. Books are backed if the free and reserved balances of all accounts in a currency sum to
-- its total issuance, which is at most `max_value`. Events are part of the storage, newest first.
--
-- In the other pallets a panic is a result of its own: an error `panic` in vesting, `none` in rewards and
-- gradually-update, and an error `panicked` in the call `gradually_update`. Runs are step relations: the calls of a pallet in any order, with what else may change
-- its state.
--
-- Parameters stand for code outside the modelled pallets: the currency of vesting (HasLocks states
-- what LockableCurrency documents of it), the handlers of payouts and bids and the hook on new data,
-- which keep a state of their own, the clock and members of the oracle, provider and consumer counts
-- of frame_system, the hooks of CurrencyHooks, origin checks, address lookup, the order of a storage
-- iterator, and how frame_support turns a consequence into a result. Theorems about books take a
-- runtime whose hooks leave the storage of the pallet alone (HasQuietHooks), as those of `()` do.
-- Every function is structurally recursive, and no fuel is needed. A binary search in a sorted list is
-- the search for the first entry that is not less.
--
-- Not modelled: weights, logging, the adapter's calls that only pass a currency on, the default methods
-- of frame_support's traits, tokens/src/impls.rs, and the other pallets. Account, pool and currency
-- identifiers and storage keys are natural numbers. The keys of a drained prefix come in the order of the
-- association list.
pub mod Prelude
pub mod Storage
pub mod Numeric
pub mod Effect
pub mod Tokens
pub mod Vesting
pub mod BTreeMap
pub mod Rewards
pub mod Auction
pub mod OrderedSet
pub mod GraduallyUpdate
pub mod Oracle
pub mod Nft
