-- ===== src/Float32.antt =====
-- The C++ type `float` of packages/ui, as its IEEE 754 binary32 bit pattern (a number below
-- 2 ^ 32). The tests of the source are exact on the pattern: `std::isfinite`, `<` and `<=`, with
-- no order on NaN and with -0.0 equal to 0.0. Arithmetic, which rounds, is the parameter `Arith`.
use haxeon.Prelude.{
  ℕ, ◌/◌, ◌%◌, ◌^◌, ◌≡◌, Bool, true, false, ◌&&◌, not, arith, ltb, ◌==◌, if◌then◌else◌,
}

abbrev pub exponent : ℕ → ℕ
exponent f = f / 2 ^ 23 % 256

abbrev pub mantissa : ℕ → ℕ
mantissa f = f % 2 ^ 23

-- The value without its sign bit.
abbrev pub magnitude : ℕ → ℕ
magnitude f = f % 2 ^ 31

abbrev pub is_negative : ℕ → Bool
is_negative f = f / 2 ^ 31 == 1

-- `std::isfinite`
unfoldable pub is_finite : ℕ → Bool
is_finite f = not (exponent f == 255)

unfoldable pub is_nan : ℕ → Bool
is_nan f = exponent f == 255 && not (mantissa f == 0)

-- `a < b` on patterns that are no NaN.
abbrev ordered_lt : ℕ → ℕ → Bool
ordered_lt a b =
    if is_negative a
    then (if is_negative b
        then ltb (magnitude b) (magnitude a)
        else not (magnitude a == 0 && magnitude b == 0))
    else (if is_negative b then false else ltb (magnitude a) (magnitude b))

-- `a < b`
unfoldable pub flt : ℕ → ℕ → Bool
unfolding is_nan
flt a b = not (is_nan a) && not (is_nan b) && ordered_lt a b

-- `a <= b`
unfoldable pub fle : ℕ → ℕ → Bool
unfolding is_nan
fle a b = not (is_nan a) && not (is_nan b) && not (ordered_lt b a)

-- `0.0f` and `1.0f`
abbrev pub float_zero : ℕ
float_zero = 0

abbrev pub float_one : ℕ
float_one = 0x3f800000

-- `INFINITY` and `-INFINITY`
abbrev pub infinity : ℕ
infinity = 0x7f800000

abbrev pub minus_infinity : ℕ
minus_infinity = 0xff800000

-- `std::min(a, b)` and `std::max(a, b)`, which keep `a` unless `b` is smaller or greater.
unfoldable pub fmin : ℕ → ℕ → ℕ
unfolding flt
fmin a b = if flt b a then b else a

unfoldable pub fmax : ℕ → ℕ → ℕ
unfolding flt
fmax a b = if flt a b then b else a

-- `0.0f <= f && f <= 1.0f`, written the way the code tests it.
unfoldable pub in_unit : ℕ → Bool
unfolding flt
in_unit f = not (flt f float_zero) && not (flt float_one f)

-- The rounding operations of the target, on patterns.
pub record Arith : Type 0 where
  pub add : ℕ → ℕ → ℕ
  pub sub : ℕ → ℕ → ℕ
  pub mul : ℕ → ℕ → ℕ

finite_not_nan : (f : ℕ) → is_finite f ≡ true → is_nan f ≡ false
unfolding is_finite is_nan
finite_not_nan f h = ground arith

-- A finite value is in one order with another: `<` and the reverse `<=` exclude each other.
pub flt-fle : (a b : ℕ) → is_finite a ≡ true → is_finite b ≡ true → flt a b ≡ not (fle b a)
unfolding flt fle is_finite
flt-fle a b ha hb = ground arith
