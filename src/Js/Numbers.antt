-- ===== src/Js/Numbers.antt =====
-- JavaScript numbers as far as the code looks at them: `Number.isInteger`, `Number.isSafeInteger`,
-- comparison with an integer, `===`, and steps by one. An integral double stands for its integer.
use restaurant_ordering_anal.Base.{
  ℕ, zero, suc, ◌+◌, ◌-◌, ◌^◌, ◌≤◌, ◌<◌, ◌≡◌, refl, Bool, true, false, ◌&&◌, arith, ltb, leb, ◌==◌,
}

-- `neg n` is -(n + 1). `above n f` is a non-integer between n and n + 1, `below n f` its mirror image
-- between -(n + 1) and -n; `f` tells apart those with the same integral part.
pub data Number : Type 0 where
  nat : ℕ → Number
  neg : ℕ → Number
  above : ℕ → ℕ → Number
  below : ℕ → ℕ → Number
  infinity neg_infinity nan : Number

abbrev pub max_safe_integer : ℕ
max_safe_integer = 2 ^ 53 - 1

unfoldable pub is_integer : Number → Bool
is_integer (nat n) = true
is_integer (neg n) = true
is_integer _ = false

unfoldable pub is_safe_integer : Number → Bool
is_safe_integer (nat n) = leb n max_safe_integer
is_safe_integer (neg n) = leb (suc n) max_safe_integer
is_safe_integer _ = false

-- `x < k`, `x <= k`, `x > k` and `x >= k` against a non-negative integer.
unfoldable pub num_lt : Number → ℕ → Bool
num_lt (nat n) k = ltb n k
num_lt (neg n) k = true
num_lt (above n f) k = ltb n k
num_lt (below n f) k = true
num_lt neg_infinity k = true
num_lt _ k = false

unfoldable pub num_le : Number → ℕ → Bool
num_le (nat n) k = leb n k
num_le (neg n) k = true
num_le (above n f) k = ltb n k
num_le (below n f) k = true
num_le neg_infinity k = true
num_le _ k = false

unfoldable pub num_gt : Number → ℕ → Bool
num_gt (nat n) k = ltb k n
num_gt (above n f) k = leb k n
num_gt infinity k = true
num_gt _ k = false

unfoldable pub num_ge : Number → ℕ → Bool
num_ge (nat n) k = leb k n
num_ge (above n f) k = leb k n
num_ge infinity k = true
num_ge _ k = false

unfoldable pub num_eq : Number → Number → Bool
num_eq (nat n) (nat m) = n == m
num_eq (neg n) (neg m) = n == m
num_eq (above n f) (above m g) = (n == m) && (f == g)
num_eq (below n f) (below m g) = (n == m) && (f == g)
num_eq infinity infinity = true
num_eq neg_infinity neg_infinity = true
num_eq _ _ = false

-- `x + 1` and `x - 1`, without the rounding of magnitudes from 2 ^ 53 on.
unfoldable pub add_one : Number → Number
add_one (nat n) = nat (n + 1)
add_one (neg zero) = nat 0
add_one (neg (suc n)) = neg n
add_one (above n f) = above (n + 1) f
add_one (below zero f) = above 0 f
add_one (below (suc n) f) = below n f
add_one infinity = infinity
add_one neg_infinity = neg_infinity
add_one nan = nan

unfoldable pub sub_one : Number → Number
sub_one (nat zero) = neg 0
sub_one (nat (suc n)) = nat n
sub_one (neg n) = neg (n + 1)
sub_one (above zero f) = below 0 f
sub_one (above (suc n) f) = above n f
sub_one (below n f) = below (n + 1) f
sub_one infinity = infinity
sub_one neg_infinity = neg_infinity
sub_one nan = nan

-- An integer that is not below `lo` and not above `hi` is a natural number in that range.
pub in_range :
    (lo hi : ℕ) (x : Number)
    → is_integer x ≡ true
    → num_lt x lo ≡ false
    → num_gt x hi ≡ false
    → (n : ℕ) × (x ≡ nat n) × (lo ≤ n) × (n ≤ hi)
unfolding is_integer num_lt num_gt
in_range lo hi (nat n) i l g = (n, refl, ground arith, ground arith)
in_range lo hi (neg n) i l g = ground arith
in_range lo hi (above n f) i l g = ground arith
in_range lo hi (below n f) i l g = ground arith
in_range lo hi infinity i l g = ground arith
in_range lo hi neg_infinity i l g = ground arith
in_range lo hi nan i l g = ground arith

-- A safe integer that is not `<= 0` is a positive natural number below 2 ^ 53.
pub positive_safe :
    (x : Number)
    → is_safe_integer x ≡ true
    → num_le x 0 ≡ false
    → (n : ℕ) × (x ≡ nat n) × (0 < n) × (n ≤ max_safe_integer)
unfolding is_safe_integer num_le
positive_safe (nat n) i l = (n, refl, ground arith, ground arith)
positive_safe (neg n) i l = ground arith
positive_safe (above n f) i l = ground arith
positive_safe (below n f) i l = ground arith
positive_safe infinity i l = ground arith
positive_safe neg_infinity i l = ground arith
positive_safe nan i l = ground arith

pub num_eq-nat : (x : Number) (k : ℕ) → num_eq x (nat k) ≡ true → x ≡ nat k
unfolding num_eq
num_eq-nat (nat n) k h = ground arith
num_eq-nat (neg n) k h = ground arith
num_eq-nat (above n f) k h = ground arith
num_eq-nat (below n f) k h = ground arith
num_eq-nat infinity k h = ground arith
num_eq-nat neg_infinity k h = ground arith
num_eq-nat nan k h = ground arith

pub num_eq-nat_left : (x : Number) (k : ℕ) → num_eq (nat k) x ≡ true → x ≡ nat k
unfolding num_eq
num_eq-nat_left (nat n) k h = ground arith
num_eq-nat_left x k h = absurd (cc)
