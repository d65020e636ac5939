-- ===== src/Tokens/Tests/Inspect.antt =====
-- Concrete runs of imbalances and of the inspections.
use open_runtime_module_libr.Tokens.Books.RoundTrip.{unreserve-reserve}
use open_runtime_module_libr.Tokens.Books.{SameTotals}
use open_runtime_module_libr.Tokens.Books.Offsets.{offset_positive-drop, drop_rest}
use open_runtime_module_libr.Tokens.Account.{accounts, ensure_can_withdraw, total_issuance}
use open_runtime_module_libr.Tokens.Imbalances.{
  offset_positive, drop_negative, drop_positive, positive, negative, peek_positive,
}
use open_runtime_module_libr.Tokens.Tests.{books-IsBacked, quiet, books, runtime}
use open_runtime_module_libr.Tokens.Reserves.{unreserve, reserve}
use open_runtime_module_libr.Prelude.{◌≡◌, arith, refl}

offset_positive-drop_example :
    total_issuance 7 (drop_rest 1000 7 (offset_positive (positive 40) (negative 60)) books)
    ≡ total_issuance 7 (drop_negative 7 (negative 60) (drop_positive 1000 7 (positive 40) books))
unfolding peek_positive
offset_positive-drop_example =
    offset_positive-drop 1000 7 (positive 40) (negative 60) books (omega arith)

unreserve-reserve_example :
    let (remaining, s') = unreserve runtime 7 1 30 (reserve runtime 7 1 30 books).1 in
    (remaining ≡ 0)
    × ((accounts 1 7 s').free ≡ (accounts 1 7 books).free)
    × ((accounts 1 7 s').reserved ≡ (accounts 1 7 books).reserved)
    × SameTotals 7 s' books
unfolding reserve ensure_can_withdraw
unreserve-reserve_example = unreserve-reserve runtime quiet 7 7 1 30 books books-IsBacked refl
