-- ===== src/Oracle/Blocks.antt =====
-- About the feeds of one block (oracle/src/lib.rs): whatever happens between two of them.
use open_runtime_module_libr.OrderedSet.Lists.{member}
use open_runtime_module_libr.Effect.{err, ok, Result}
use open_runtime_module_libr.Oracle.Types.{Error, State, Config}
use open_runtime_module_libr.Prelude.{
  inl, inr, subst, true, refl, Option, arith, List, ◌≡◌, ℕ, [], ◌∷◌, pair_eq,
}
use open_runtime_module_libr.Oracle.Calls.{
  ensure_account, feed_values, feed_value, do_feed_values, change_members_sorted,
}
use open_runtime_module_libr.Oracle.Feeds.{
  feeds_for, feed_values-HasFed, feed_values-refused, feed_values-cases, feed_each-keeps, IsOrdered,
}

module _ {H Origin : Type 0} (cfg : Config H)
    (ensure_feeder : Origin → Result Error (Option ℕ)) where
  -- What can happen before the block ends: a call by anyone, a feed by another pallet, members that go,
  -- or a change of the members, of the time or of what is not of the pallet.
  pub data Step (s t : State H) : Type 0 where
    by_feed_values :
        (origin : Origin) (values : List (ℕ × ℕ))
        → (feed_values cfg ensure_feeder origin values s).1 ≡ t
        → Step s t
    by_feed_value :
        (who : Option ℕ) (key value : ℕ) → (feed_value cfg who key value s).1 ≡ t → Step s t
    by_change_members_sorted : (outgoing : List ℕ) → change_members_sorted outgoing s ≡ t → Step s t
    by_runtime :
        (members : List ℕ) (now : ℕ) (handler : H)
        → record s { members = members; now = now; handler = handler } ≡ t
        → Step s t

  -- Any number of these, one after the other
  pub data WithinBlock (s : State H) : State H → Type 0 where
    start : WithinBlock s s
    step : {t u : State H} → WithinBlock s t → Step t u → WithinBlock s u

  -- The account has fed in this block.
  record IsFed (who : ℕ) (s : State H) : Type 0 where
    ordered : IsOrdered cfg s
    fed : member who s.has_dispatched ≡ true

  IsFed-of :
      (who : ℕ) (s t : State H) → t.has_dispatched ≡ s.has_dispatched → IsFed who s → IsFed who t
  IsFed-of who s t same i = record {
    ordered = record { sorted = rw same i.ordered.sorted; fits = rw same i.ordered.fits };
    fed = rw same i.fed;
  }

  feed_values-IsFed :
      (who : ℕ) (origin : Origin) (values : List (ℕ × ℕ)) (s : State H)
      → IsFed who s
      → IsFed who (feed_values cfg ensure_feeder origin values s).1
  feed_values-IsFed who origin values s i =
      elim (feed_values-cases cfg ensure_feeder origin values s i.ordered) [
        | inl same ↦ rw same i
        | inr (other, f) ↦ record { ordered = f.ordered; fed = ground (arith, f.now who, i.fed) }
      ]

  feed_value-keeps :
      (who : Option ℕ) (key value : ℕ) (s : State H)
      → (feed_value cfg who key value s).1.has_dispatched ≡ s.has_dispatched
  unfolding feed_value do_feed_values
  feed_value-keeps who key value s = go (ensure_account cfg who s) refl
    where
      go :
          (r : Result Error ℕ)
          → ensure_account cfg who s ≡ r
          → (feed_value cfg who key value s).1.has_dispatched ≡ s.has_dispatched
      go (err e) h = ground (arith, h)
      go (ok account) h = ground (arith, h, feed_each-keeps cfg account ((key, value) ∷ []) s)

  change_members_sorted-keeps :
      (outgoing : List ℕ) (s : State H)
      → (change_members_sorted outgoing s).has_dispatched ≡ s.has_dispatched
  unfolding change_members_sorted
  change_members_sorted-keeps [] s = refl
  change_members_sorted-keeps (removed ∷ outgoing) s = change_members_sorted-keeps outgoing _

  Step-IsFed : (who : ℕ) (s t : State H) → Step s t → IsFed who s → IsFed who t
  Step-IsFed who s t (by_feed_values origin values e) i =
      subst (IsFed who) e (feed_values-IsFed who origin values s i)
  Step-IsFed who s t (by_feed_value feeder key value e) i =
      subst (IsFed who) e (IsFed-of who s _ (feed_value-keeps feeder key value s) i)
  Step-IsFed who s t (by_change_members_sorted outgoing e) i =
      subst (IsFed who) e (IsFed-of who s _ (change_members_sorted-keeps outgoing s) i)
  Step-IsFed who s t (by_runtime members now handler e) i =
      subst (IsFed who) e (IsFed-of who s _ refl i)

  WithinBlock-IsFed : (who : ℕ) {s t : State H} → WithinBlock s t → IsFed who s → IsFed who t
  WithinBlock-IsFed who start i = i
  WithinBlock-IsFed who (step {t} {u} r e) i = Step-IsFed who t u e (WithinBlock-IsFed who r i)

  -- From a sorted set of operators within its bound, after a call that feeds for an account, and any
  -- sequence of calls of anyone, feeds by other pallets, leaving members and changes of the members,
  -- the time and the state of others, but no end of the block, a call that would feed for the
  -- account fails with already_feeded and changes nothing.
  pub feed_values-once :
      (origin later : Origin) (values again : List (ℕ × ℕ)) (who : ℕ) (s t : State H)
      → IsOrdered cfg s
      → feeds_for cfg ensure_feeder origin s ≡ ok who
      → (feed_values cfg ensure_feeder origin values s).0 ≡ ok tt
      → WithinBlock (feed_values cfg ensure_feeder origin values s).1 t
      → feeds_for cfg ensure_feeder later t ≡ ok who
      → feed_values cfg ensure_feeder later again t ≡ (err Error.already_feeded, t)
  feed_values-once origin later values again who s t o e h between f =
      let first = feed_values-HasFed cfg ensure_feeder origin values who s o e h in
      let i =
        WithinBlock-IsFed who between
          (record { ordered = first.ordered; fed = ground (arith, first.now who) }) in
      feed_values-refused cfg ensure_feeder later again who t i.ordered f i.fed
