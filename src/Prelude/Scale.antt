-- ===== src/Prelude/Scale.antt =====
-- Division of products, for the conversions between ticks and milliseconds.
use Prim.Native.Nat.{ℕ, ◌+◌, ◌*◌, ◌/◌, ◌%◌, ◌≤◌, ◌<◌}
use mathlib.Core.Path.{◌≡◌, ap, ◌∙◌}
use native.Mathlib.Nat.{div-add-mod', div-lt_iff_lt-mul, mul-add-div_right}
use native.Mathlib.Omega.{arith}

-- `whole` and `rest` are the quotient and the remainder of a number by 1000.
pub scaled :
    (whole rest rate : ℕ)
    → ((whole * 1000 + rest) * rate + 999) / 1000 ≡ whole * rate + (rest * rate + 999) / 1000
scaled whole rest rate =
    let product : (whole * 1000 + rest) * rate ≡ 1000 * (whole * rate) + rest * rate =
      grind arith in
    omega (arith, product)

-- Above the quotient by `rate`, the product is above the number.
pub over : (whole rate max : ℕ) → 0 < rate → max / rate < whole → max < whole * rate
over whole rate max pos h = (div-lt_iff_lt-mul {k = rate} {x = max} {y = whole} pos).0 h

pub under : (whole rate max : ℕ) → 0 < rate → whole ≤ max / rate → whole * rate ≤ max
under whole rate max pos h =
    ground (arith, (div-lt_iff_lt-mul {k = rate} {x = max} {y = whole} pos).1)

pub split_scaled :
    (n rate : ℕ) → (n * rate + 999) / 1000 ≡ (n / 1000) * rate + ((n % 1000) * rate + 999) / 1000
split_scaled n rate =
    ap (λ m. (m * rate + 999) / 1000) {x = n} {y = (n / 1000) * 1000 + n % 1000} (omega arith)
    ∙ scaled (n / 1000) (n % 1000) rate

pub split_thousand :
    (n rate : ℕ) → 0 < rate → n * 1000 / rate ≡ (n / rate) * 1000 + (n % rate) * 1000 / rate
split_thousand n rate pos =
    let product : n * 1000 ≡ ((n / rate) * 1000) * rate + (n % rate) * 1000 =
      grind (arith, div-add-mod' n rate) in
    ap (λ m. m / rate) product
    ∙ mul-add-div_right {m = rate} pos ((n / rate) * 1000) ((n % rate) * 1000)

pub part_lt : (r rate : ℕ) → 0 < rate → r < rate → r * 1000 / rate < 1000
part_lt r rate pos h = (div-lt_iff_lt-mul {k = rate} {x = r * 1000} {y = 1000} pos).1 (omega arith)
