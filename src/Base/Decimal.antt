-- ===== src/Base/Decimal.antt =====
-- `strconv.FormatInt(n, 10)` and `%d` for a number that is not negative.
use Prim.Native.Nat.{ℕ, zero, suc, ◌+◌, ◌/◌, ◌%◌}
use mathlib.Core.List.{[], ◌∷◌}
use cm_saas_letsencrypt_ca_c.Base.Tests.{ltb, if◌then◌else◌}
use cm_saas_letsencrypt_ca_c.Base.Strings.{Text}

-- The fuel is the number itself, which has more rounds than digits.
digits_onto : ℕ → ℕ → Text → Text
digits_onto zero n out = out
digits_onto (suc fuel) n out =
    let rest = digits_onto fuel (n / 10) ((48 + n % 10) ∷ out) in
    if ltb n 10 then (48 + n) ∷ out else rest

unfoldable pub decimal : ℕ → Text
unfolding digits_onto
decimal n = digits_onto (suc n) n []
