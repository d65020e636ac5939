-- ===== src/Oracle/Feeds.antt =====
-- About feeds (`feed_values` of oracle/src/lib.rs): once for each operator in a block.
use open_runtime_module_libr.OrderedSet.Lists.{member}
use open_runtime_module_libr.Effect.{err, ok, and_then, Result}
use open_runtime_module_libr.Oracle.Types.{Error, State, Config}
use open_runtime_module_libr.Prelude.{
  inr, inl, ◌⊎◌, ltb, true, ◌&&◌, ◌||◌, ◌==◌, ◌≤◌, not, refl, length, Option, if◌then◌else◌, arith,
  false, List, ◌≡◌, ℕ, [], ◌∷◌, pair_eq,
}
use open_runtime_module_libr.Oracle.Calls.{
  feed_values, feed_each, feed_one, dispatch, do_feed_values, ensure_account,
}
use open_runtime_module_libr.OrderedSet.Refinement.{call-Refines, inserting}
use open_runtime_module_libr.OrderedSet.Lists.{IsSorted}
use open_runtime_module_libr.OrderedSet.{insert}

module _ {H : Type 0} (cfg : Config H) where
  feed_one-keeps :
      (who key value : ℕ) (s : State H)
      → ((feed_one cfg who key value s).has_dispatched ≡ s.has_dispatched)
        × ((feed_one cfg who key value s).members ≡ s.members)
  unfolding feed_one
  feed_one-keeps who key value s = ground arith

  pub feed_each-keeps :
      (who : ℕ) (values : List (ℕ × ℕ)) (s : State H)
      → ((feed_each cfg who values s).has_dispatched ≡ s.has_dispatched)
        × ((feed_each cfg who values s).members ≡ s.members)
  unfolding feed_each
  feed_each-keeps who [] s = (refl, refl)
  feed_each-keeps who ((key, value) ∷ values) s = ground (
    arith,
    feed_one-keeps who key value s,
    feed_each-keeps who values (feed_one cfg who key value s),
  )

  -- The operators that have fed in this block are a sorted set within its bound.
  pub record IsOrdered (s : State H) : Type 0 where
    pub sorted : IsSorted s.has_dispatched
    pub fits : length s.has_dispatched ≤ cfg.max_has_dispatched_size

  -- After a feed
  pub record HasFed (who : ℕ) (s t : State H) : Type 0 where
    pub first : member who s.has_dispatched ≡ false
    pub now : (w : ℕ) → member w t.has_dispatched ≡ (who == w || member w s.has_dispatched)
    pub ordered : IsOrdered t
    pub members : t.members ≡ s.members

  dispatch-cases :
      (who : ℕ) (s : State H)
      → IsOrdered s
      → ((dispatch cfg who s).0 ≡ (
          if not (member who s.has_dispatched)
            && ltb (length s.has_dispatched) cfg.max_has_dispatched_size
          then ok tt
          else err Error.already_feeded))
  unfolding dispatch
  dispatch-cases who s o =
      let r =
        call-Refines cfg.max_has_dispatched_size (inserting who) s.has_dispatched o.sorted o.fits in
      ground (arith, r.answers)

module _ {H Origin : Type 0} (cfg : Config H)
    (ensure_feeder : Origin → Result Error (Option ℕ)) where
  -- The account that a call feeds for
  abbrev pub feeds_for : Origin → State H → Result Error ℕ
  feeds_for origin s = and_then (ensure_feeder origin) λ feeder. ensure_account cfg feeder s

  pub feed_values-HasFed :
      (origin : Origin) (values : List (ℕ × ℕ)) (who : ℕ) (s : State H)
      → IsOrdered cfg s
      → feeds_for origin s ≡ ok who
      → (feed_values cfg ensure_feeder origin values s).0 ≡ ok tt
      → HasFed cfg who s (feed_values cfg ensure_feeder origin values s).1
  unfolding feed_values dispatch do_feed_values
  feed_values-HasFed origin values who s o e h = go (ensure_feeder origin) refl
    where
      go :
          (r : Result Error (Option ℕ))
          → ensure_feeder origin ≡ r
          → HasFed cfg who s (feed_values cfg ensure_feeder origin values s).1
      go (err x) f = absurd (ground (arith, e))
      go (ok feeder) f =
          let account : ensure_account cfg feeder s ≡ ok who = ground (arith, e, f) in
          let r =
            call-Refines cfg.max_has_dispatched_size (inserting who) s.has_dispatched o.sorted
              o.fits in
          let u : State H = record s {
            has_dispatched = (insert cfg.max_has_dispatched_size who s.has_dispatched).1;
          } in
          let kept = feed_each-keeps cfg who values u in
          let t = do_feed_values cfg who values u in
          let went : (insert cfg.max_has_dispatched_size who s.has_dispatched).0 ≡ true =
            ground (arith, f, account) in
          let same : (feed_values cfg ensure_feeder origin values s).1 ≡ t =
            ground (arith, f, account, went) in
          rw same (record {
            first = ground (arith, went, r.answers);
            now = λ w. ground (arith, went, r.answers, r.members w, kept);
            ordered = record { sorted = rw kept.0 r.sorted; fits = rw kept.0 r.fits };
            members = ground (arith, kept);
          })

  -- Who has fed is refused, and nothing changes.
  pub feed_values-refused :
      (origin : Origin) (values : List (ℕ × ℕ)) (who : ℕ) (s : State H)
      → IsOrdered cfg s
      → feeds_for origin s ≡ ok who
      → member who s.has_dispatched ≡ true
      → feed_values cfg ensure_feeder origin values s ≡ (err Error.already_feeded, s)
  unfolding feed_values dispatch
  feed_values-refused origin values who s o e fed = go (ensure_feeder origin) refl
    where
      go :
          (r : Result Error (Option ℕ))
          → ensure_feeder origin ≡ r
          → feed_values cfg ensure_feeder origin values s ≡ (err Error.already_feeded, s)
      go (err x) f = absurd (ground (arith, e))
      go (ok feeder) f =
          let account : ensure_account cfg feeder s ≡ ok who = ground (arith, e, f) in
          let r =
            call-Refines cfg.max_has_dispatched_size (inserting who) s.has_dispatched o.sorted
              o.fits in
          let stays : (insert cfg.max_has_dispatched_size who s.has_dispatched).0 ≡ false =
            ground (arith, r.answers) in
          ground (arith, f, account, stays)

  -- A call that succeeds feeds for some account.
  feed_values-account :
      (origin : Origin) (values : List (ℕ × ℕ)) (s : State H)
      → (feed_values cfg ensure_feeder origin values s).0 ≡ ok tt
      → (who : ℕ) × (feeds_for origin s ≡ ok who)
  unfolding feed_values
  feed_values-account origin values s h = go (ensure_feeder origin) refl
    where
      account :
          (feeder : Option ℕ) (r : Result Error ℕ)
          → ensure_feeder origin ≡ ok feeder
          → ensure_account cfg feeder s ≡ r
          → (who : ℕ) × (feeds_for origin s ≡ ok who)
      account feeder (ok who) f e = (who, ground (arith, f, e))
      account feeder (err x) f e = absurd (ground (arith, f, e))

      go :
          (r : Result Error (Option ℕ))
          → ensure_feeder origin ≡ r
          → (who : ℕ) × (feeds_for origin s ≡ ok who)
      go (err x) f = absurd (ground (arith, f))
      go (ok feeder) f = account feeder (ensure_account cfg feeder s) f refl

  feed_values-failed :
      (origin : Origin) (values : List (ℕ × ℕ)) (e : Error) (s : State H)
      → (feed_values cfg ensure_feeder origin values s).0 ≡ err e
      → (feed_values cfg ensure_feeder origin values s).1 ≡ s
  unfolding feed_values
  feed_values-failed origin values e s h = ground arith

  -- A call leaves the state as it was, or feeds for some account.
  pub feed_values-cases :
      (origin : Origin) (values : List (ℕ × ℕ)) (s : State H)
      → IsOrdered cfg s
      → ((feed_values cfg ensure_feeder origin values s).1 ≡ s)
        ⊎ ((who : ℕ) × HasFed cfg who s (feed_values cfg ensure_feeder origin values s).1)
  feed_values-cases origin values s o = go (feed_values cfg ensure_feeder origin values s).0 refl
    where
      go :
          (r : Result Error (Unit {0}))
          → (feed_values cfg ensure_feeder origin values s).0 ≡ r
          → ((feed_values cfg ensure_feeder origin values s).1 ≡ s)
            ⊎ ((who : ℕ) × HasFed cfg who s (feed_values cfg ensure_feeder origin values s).1)
      go (err e) h = inl (feed_values-failed origin values e s h)
      go (ok tt) h =
          let (who, e) = feed_values-account origin values s h in
          inr (who, feed_values-HasFed origin values who s o e h)
