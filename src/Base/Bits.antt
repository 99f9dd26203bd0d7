-- ===== src/Base/Bits.antt =====
-- Bit operations at variables, from the digit recursion that they stand for.
use Prim.Native.Nat.{
  ℕ, zero, suc, ◌+◌, ◌-◌, ◌*◌, ◌/◌, ◌%◌, ◌^◌, ◌≤◌, ◌<◌, max, min, bit_and, bit_or, bit_xor, differ,
  digits, bit_xor-bitwise, bit_or-bitwise, bit_and-bitwise,
}
use mathlib.Core.Path.{◌≡◌, refl, ap, ◌∙◌}
use mathlib.Core.Bool.{Bool, true, ◌&&◌}
use native.Mathlib.Nat.{pow-suc}
use native.Mathlib.Omega.{arith}
use chroagh.Base.Tests.{◌==◌}

-- Fuel beyond the first number changes nothing, so the lowest digit comes off with the same fuel.
module _ (rest : ℕ → ℕ) (op : ℕ → ℕ → ℕ) where
  one_more : (n x y : ℕ) → x ≤ n → digits rest op (suc n) x y ≡ digits rest op n x y
  one_more zero zero y h = refl
  one_more zero (suc x) y h = absurd (omega arith)
  one_more (suc n) zero y h = refl
  one_more (suc n) (suc x) y h =
      ap (λ t. t * 2 + op (suc x % 2) (y % 2)) (one_more n (suc x / 2) (y / 2) (omega arith))

  surplus : (k n m x y : ℕ) → m ≡ k + n → x ≤ n → digits rest op m x y ≡ digits rest op n x y
  surplus zero n m x y e h = ap (λ t. digits rest op t x y) (omega arith)
  surplus (suc k) n m x y e h =
      let last : m ≡ suc (k + n) = omega arith in
      ap (λ t. digits rest op t x y) last
      ∙ one_more (k + n) x y (omega arith)
      ∙ surplus k n (k + n) x y refl h

  low_digit : (x y : ℕ) → digits rest op x (suc x / 2) y ≡ digits rest op (suc x / 2) (suc x / 2) y
  low_digit x y = surplus (x - suc x / 2) (suc x / 2) x (suc x / 2) y (omega arith) (omega arith)

pub bit_xor_step : (x y : ℕ) → bit_xor x y ≡ differ (x % 2) (y % 2) + bit_xor (x / 2) (y / 2) * 2
bit_xor_step zero y = omega (arith, bit_xor-bitwise 0 (y / 2), bit_xor-bitwise 0 y)
bit_xor_step (suc x) y = omega (
  arith,
  low_digit (λ t. t) differ x (y / 2),
  bit_xor-bitwise (suc x / 2) (y / 2),
  bit_xor-bitwise (suc x) y,
)

differ_zero : (a : ℕ) → differ a 0 ≡ a
differ_zero zero = refl
differ_zero (suc a) = refl

differ_twice : (a b : ℕ) → a < 2 → b < 2 → (differ (differ a b) b ≡ a) × (differ a b < 2)
differ_twice zero zero h k = omega arith
differ_twice zero (suc zero) h k = omega arith
differ_twice (suc zero) zero h k = omega arith
differ_twice (suc zero) (suc zero) h k = omega arith
differ_twice (suc (suc a)) b h k = absurd (omega arith)
differ_twice zero (suc (suc b)) h k = absurd (omega arith)
differ_twice (suc zero) (suc (suc b)) h k = absurd (omega arith)

bit_xor-lt : (k a b : ℕ) → a < 2 ^ k → b < 2 ^ k → bit_xor a b < 2 ^ k
bit_xor-lt zero a b ha hb =
    let ea : a ≡ 0 = omega arith in let eb : b ≡ 0 = omega arith in rw (ea, eb) (omega arith)
bit_xor-lt (suc k) a b ha hb = omega (
  arith,
  pow-suc 2 k,
  bit_xor_step a b,
  (differ_twice (a % 2) (b % 2) (omega arith) (omega arith)).1,
  bit_xor-lt k (a / 2) (b / 2) (omega (arith, pow-suc 2 k)) (omega (arith, pow-suc 2 k)),
)

wider : (k q : ℕ) → 2 * (2 ^ k * q) ≡ 2 ^ suc k * q
wider k q = omega (arith, ap (λ (t : ℕ). t * q) (pow-suc 2 k))

-- The exclusive or works on the low `k` digits and on those above them apart.
pub bit_xor_fields :
    (k q p r s : ℕ)
    → r < 2 ^ k
    → s < 2 ^ k
    → bit_xor (q * 2 ^ k + r) (p * 2 ^ k + s) ≡ bit_xor q p * 2 ^ k + bit_xor r s
bit_xor_fields zero q p r s hr hs =
    let er : r ≡ 0 = omega arith in
    let es : s ≡ 0 = omega arith in
    let eq : q * 2 ^ 0 + r ≡ q = omega arith in
    let ep : p * 2 ^ 0 + s ≡ p = omega arith in rw (eq, ep, er, es) (omega arith)
bit_xor_fields (suc k) q p r s hr hs = ground (
  arith,
  bit_xor_step (q * 2 ^ suc k + r) (p * 2 ^ suc k + s),
  bit_xor_step r s,
  wider k q,
  wider k p,
  wider k (bit_xor q p),
  pow-suc 2 k,
  bit_xor_fields k q p (r / 2) (s / 2),
)

bit_or_step : (x y : ℕ) → bit_or x y ≡ max (x % 2) (y % 2) + bit_or (x / 2) (y / 2) * 2
bit_or_step zero y = omega (arith, bit_or-bitwise 0 (y / 2), bit_or-bitwise 0 y)
bit_or_step (suc x) y = omega (
  arith,
  low_digit (λ t. t) max x (y / 2),
  bit_or-bitwise (suc x / 2) (y / 2),
  bit_or-bitwise (suc x) y,
)

or-zero_fuel : (n a : ℕ) → a ≤ n → bit_or a 0 ≡ a
or-zero_fuel n zero h = bit_or-bitwise 0 0
or-zero_fuel zero (suc a) h = absurd (omega arith)
or-zero_fuel (suc n) (suc a) h =
    omega (arith, bit_or_step (suc a) 0, or-zero_fuel n (suc a / 2) (omega arith))

-- A number shifted left takes the low digits of another.
pub bit_or_shifted : (k q r : ℕ) → r < 2 ^ k → bit_or (q * 2 ^ k) r ≡ q * 2 ^ k + r
bit_or_shifted zero q r h =
    let e : r ≡ 0 = omega arith in rw e (omega (arith, or-zero_fuel (q * 1) (q * 1) (omega arith)))
bit_or_shifted (suc k) q r h =
    ground
      (arith, bit_or_step (q * 2 ^ suc k) r, wider k q, pow-suc 2 k, bit_or_shifted k q (r / 2))

bit_and_step : (x y : ℕ) → bit_and x y ≡ min (x % 2) (y % 2) + bit_and (x / 2) (y / 2) * 2
bit_and_step zero y = omega (arith, bit_and-bitwise 0 (y / 2), bit_and-bitwise 0 y)
bit_and_step (suc x) y = omega (
  arith,
  low_digit (λ _. zero) min x (y / 2),
  bit_and-bitwise (suc x / 2) (y / 2),
  bit_and-bitwise (suc x) y,
)

and-zero_fuel : (n a : ℕ) → a ≤ n → bit_and a 0 ≡ 0
and-zero_fuel n zero h = bit_and-bitwise 0 0
and-zero_fuel zero (suc a) h = absurd (omega arith)
and-zero_fuel (suc n) (suc a) h =
    omega (arith, bit_and_step (suc a) 0, and-zero_fuel n (suc a / 2) (omega arith))

and_fifteen : (a : ℕ) → bit_and a 15 ≡ a % 16
and_fifteen a = omega (
  arith,
  bit_and_step a 15,
  bit_and_step (a / 2) 7,
  bit_and_step (a / 2 / 2) 3,
  bit_and_step (a / 2 / 2 / 2) 1,
  and-zero_fuel (a / 2 / 2 / 2 / 2) (a / 2 / 2 / 2 / 2) (omega arith),
)

-- The lowest byte.
pub bit_and_byte : (a : ℕ) → bit_and a 0xff ≡ a % 256
bit_and_byte a = omega (
  arith,
  bit_and_step a 255,
  bit_and_step (a / 2) 127,
  bit_and_step (a / 2 / 2) 63,
  bit_and_step (a / 2 / 2 / 2) 31,
  and_fifteen (a / 2 / 2 / 2 / 2),
)

-- Masking twice with the same key gives the number back.
xor_twice_below : (k a b : ℕ) → a < 2 ^ k → b < 2 ^ k → bit_xor (bit_xor a b) b ≡ a
xor_twice_below zero a b ha hb =
    let ea : a ≡ 0 = omega arith in let eb : b ≡ 0 = omega arith in rw (ea, eb)
xor_twice_below (suc k) a b ha hb = ground (
  arith,
  bit_xor_step a b,
  bit_xor_step (bit_xor a b) b,
  differ_twice (a % 2) (b % 2),
  pow-suc 2 k,
  xor_twice_below k (a / 2) (b / 2),
)

pub bit_xor_twice : (a b : ℕ) → a < 256 → b < 256 → bit_xor (bit_xor a b) b ≡ a
bit_xor_twice a b = xor_twice_below 8 a b

pub bit_xor-lt_byte : (a b : ℕ) → a < 256 → b < 256 → bit_xor a b < 256
bit_xor-lt_byte a b = bit_xor-lt 8 a b

xor-zero_fuel : (n a : ℕ) → a ≤ n → bit_xor a 0 ≡ a
xor-zero_fuel n zero h = bit_xor-bitwise 0 0
xor-zero_fuel zero (suc a) h = absurd (omega arith)
xor-zero_fuel (suc n) (suc a) h = omega (
  arith,
  bit_xor_step (suc a) 0,
  differ_zero (suc a % 2),
  xor-zero_fuel n (suc a / 2) (omega arith),
)

pub bit_xor-zero : (a : ℕ) → bit_xor a 0 ≡ a
bit_xor-zero a = xor-zero_fuel a a (omega arith)

-- Over a byte a fact is checked at every value.
checked : (ℕ → Bool) → ℕ → Bool
checked test zero = true
checked test (suc n) = checked test n && test n

checked_at : (test : ℕ → Bool) (n : ℕ) → checked test n ≡ true → (x : ℕ) → x < n → test x ≡ true
unfolding checked
checked_at test zero all x h = absurd (omega arith)
checked_at test (suc n) all x h = grind (arith, checked_at test n)

-- What the masks of a frame header select of a byte.
masks_table :
    checked
      (λ x.
        (bit_and x 0x0f == x % 16)
        && (bit_and x 0x7f == x % 128)
        && (bit_and x 0x70 == x % 128 / 16 * 16)
        && (bit_and x 0x80 == x / 128 * 128))
      256
    ≡ true
unfolding checked
masks_table = refl

pub byte_masks :
    (x : ℕ)
    → x < 256
    → (bit_and x 0x0f ≡ x % 16)
      × (bit_and x 0x7f ≡ x % 128)
      × (bit_and x 0x70 ≡ x % 128 / 16 * 16)
      × (bit_and x 0x80 ≡ x / 128 * 128)
byte_masks x h = ground (arith, checked_at _ 256 masks_table x h)

-- The low four bits.
pub bit_and_nibble : (a : ℕ) → bit_and a 0x0f ≡ a % 16
bit_and_nibble a = and_fifteen a

-- The highest bit of a byte, set.
pub bit_or_top : (a : ℕ) → a < 128 → bit_or a 0x80 ≡ 128 + a
bit_or_top a h = ground (arith, checked_at _ 128 top_table a h)
  where
    top_table : checked (λ x. bit_or x 0x80 == 128 + x) 128 ≡ true
    top_table = unfold checked in refl
