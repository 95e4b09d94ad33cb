-- ===== src/Prelude/Digits.antt =====
-- `str(n)` of a Python `int` that is not negative.
use Prim.Native.Nat.{ℕ, zero, suc, ◌+◌, ◌/◌, ◌%◌}
use mathlib.Core.List.{[], ◌∷◌}
use mendix_for_snowflake.Prelude.Tests.{◌==◌, if◌then◌else◌}
use mendix_for_snowflake.Prelude.Texts.{Text}

-- The digits of a number before those that are known. The number itself is enough fuel.
digits_before : ℕ → ℕ → Text → Text
digits_before zero n known = known
digits_before (suc fuel) n known =
    let longer = (48 + n % 10) ∷ known in
    let more = digits_before fuel (n / 10) longer in if n / 10 == 0 then longer else more

unfoldable pub decimal : ℕ → Text
unfolding digits_before
decimal n = digits_before (suc n) n []
