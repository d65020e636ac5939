-- ===== src/Tokens/Books/RoundTrip.antt =====
-- About unreserving what was reserved (`reserve` and `unreserve` of tokens/src/lib.rs).
use open_runtime_module_libr.Tokens.Books.Unreserve.{unreserve-HasUnreserved}
use open_runtime_module_libr.Tokens.Account.{accounts}
use open_runtime_module_libr.Tokens.Books.Reserves.{reserve-Reserves, Reserves, HasShifted}
use open_runtime_module_libr.Tokens.Reserves.{unreserve, reserve}
use open_runtime_module_libr.Tokens.Books.{SameTotals-IsBacked, SameTotals, IsBacked, HasQuietHooks}
use open_runtime_module_libr.Tokens.Types.{err, Result, ok, State, Config}
use open_runtime_module_libr.Prelude.{◌∙◌, ◌≡◌, ℕ, arith}

module _ {Sys : Type 0} (cfg : Config Sys) (quiet : HasQuietHooks cfg) where
  reserve-HasShifted :
      (d c who value : ℕ) (s : State Sys)
      → IsBacked cfg c s
      → (reserve cfg c who value s).0 ≡ ok tt
      → HasShifted cfg quiet c who value s (reserve cfg c who value s).1
        × SameTotals d (reserve cfg c who value s).1 s
  reserve-HasShifted d c who value s b done =
      go (reserve cfg c who value s) (reserve-Reserves cfg quiet d c who value s b) done
    where
      go :
          (r : Result (Unit {0}) × State Sys)
          → Reserves cfg quiet d c who value s r
          → r.0 ≡ ok tt
          → HasShifted cfg quiet c who value s r.1 × SameTotals d r.1 s
      go (ok _, s') f h = (f.0, f.2)
      go (err e, s') f h = absurd (ground arith)

  -- With hooks that leave the storage of the pallet alone, from backed books, unreserving a value
  -- that was just reserved leaves nothing over and brings the free and the reserved balance back,
  -- and the totals of every currency.
  pub unreserve-reserve :
      (d c who value : ℕ) (s : State Sys)
      → IsBacked cfg c s
      → (reserve cfg c who value s).0 ≡ ok tt
      → let (remaining, s') = unreserve cfg c who value (reserve cfg c who value s).1 in
        (remaining ≡ 0)
        × ((accounts who c s').free ≡ (accounts who c s).free)
        × ((accounts who c s').reserved ≡ (accounts who c s).reserved)
        × SameTotals d s' s
  unreserve-reserve d c who value s b done =
      let s1 = (reserve cfg c who value s).1 in
      let there = reserve-HasShifted d c who value s b done in
      let here = reserve-HasShifted c c who value s b done in
      let b1 = SameTotals-IsBacked cfg c s1 s here.1 b in
      let back = unreserve-HasUnreserved cfg quiet d c who value s1 b1 in
      (
        ground (arith, back.rest, there.0.reserved),
        ground (arith, back.free, there.0.free, there.0.reserved),
        ground (arith, back.reserved, there.0.free, there.0.reserved),
        (back.totals.0 ∙ there.1.0, back.totals.1 ∙ there.1.1),
      )
