-- ===== src/Base/Number.antt =====
-- JavaScript numbers, as far as the options of the client use them: fixed-point values in
-- millionths, the two infinities and NaN. A finite number off that grid has no value here.
use cavi_api_client.Base.{ℕ, ◌*◌, ◌/◌, ◌%◌, Bool, true, false, ltb, ◌==◌}

-- `num n` is n millionths, `neg n` is -(n + 1) millionths.
pub data Number : Type 0 where
  num : ℕ → Number
  neg : ℕ → Number
  infinity minus_infinity nan : Number

abbrev pub scale : ℕ
scale = 1000000

-- A whole number.
abbrev pub int : ℕ → Number
int n = num (n * scale)

-- `Number.isFinite`
abbrev pub is_finite : Number → Bool
is_finite (num n) = true
is_finite (neg n) = true
is_finite _ = false

-- `Number.isInteger`; -(n + 1) millionths are whole when n + 1 is.
abbrev pub is_integer : Number → Bool
is_integer (num n) = n % scale == 0
is_integer (neg n) = n % scale == 999999
is_integer _ = false

-- `value < m`, for m millionths.
abbrev pub lt_num : Number → ℕ → Bool
lt_num (num n) m = ltb n m
lt_num (neg n) m = true
lt_num infinity m = false
lt_num minus_infinity m = true
lt_num nan m = false

-- `value > m`, for m millionths.
abbrev pub gt_num : Number → ℕ → Bool
gt_num (num n) m = ltb m n
gt_num infinity m = true
gt_num _ m = false

-- A number that is known to be finite and not negative, in millionths.
abbrev pub millionths : Number → ℕ
millionths (num n) = n
millionths _ = 0

-- The same, for a whole number.
abbrev pub whole : Number → ℕ
whole n = millionths n / scale
