-- ===== src/Common/Decimal.antt =====
-- Decimal numbers, as `printf` writes them.
use Prim.Native.Nat.{ℕ, zero, suc, ◌+◌, ◌/◌, ◌%◌}
use mathlib.Core.List.{List, ◌∷◌}
use ccoreconf_zcbor.Common.Tests.{ltb, if◌then◌else◌}

-- the decimal digits, in front of those that are written; 20 of them are enough for 64 bits
unfoldable pub digits : ℕ → ℕ → List ℕ → List ℕ
digits zero n text = text
digits (suc fuel) n text =
    let more = digits fuel (n / 10) ((b'0' + n % 10) ∷ text) in
    if ltb n 10 then (b'0' + n % 10) ∷ text else more
