-- ===== src/Bits.antt =====
-- `|` of two numbers that share no set bit, for the page-table entries: it is their sum.
use Prim.Native.Nat.{max, digits, bit_or-bitwise}
use native.Mathlib.Nat.{pow-suc}
use tuix_os.Base.{ℕ, zero, suc, ◌+◌, ◌*◌, ◌/◌, ◌%◌, ◌^◌, ◌≤◌, ◌<◌, ◌≡◌, refl, arith, ap, ◌∙◌}
pub use Prim.Native.Nat.{bit_or}

abbrev or_digits : (fuel a b : ℕ) → ℕ
or_digits fuel a b = digits (λ c. c) max fuel a b

-- Any fuel from the first number on gives the same digits.
or_digits-eq : (j k a b : ℕ) → a ≤ j → a ≤ k → or_digits j a b ≡ or_digits k a b
or_digits-eq zero zero a b hj hk = refl
or_digits-eq zero (suc k) a b hj hk = let none_left : a ≡ 0 = omega arith in rw none_left
or_digits-eq (suc j) zero a b hj hk = let none_left : a ≡ 0 = omega arith in rw none_left
or_digits-eq (suc j) (suc k) zero b hj hk = refl
or_digits-eq (suc j) (suc k) (suc a) b hj hk =
    omega (arith, or_digits-eq j k (suc a / 2) (b / 2) (omega arith) (omega arith))

-- The lowest digit of `|`, and the rest.
pub bit_or-halves : (a b : ℕ) → bit_or a b ≡ bit_or (a / 2) (b / 2) * 2 + max (a % 2) (b % 2)
bit_or-halves zero b = omega (arith, bit_or-bitwise 0 b, bit_or-bitwise 0 (b / 2))
bit_or-halves (suc a) b = omega (
  arith,
  bit_or-bitwise (suc a) b,
  bit_or-bitwise (suc a / 2) (b / 2),
  or_digits-eq a (suc a / 2) (suc a / 2) (b / 2) (omega arith) (omega arith),
)

-- With nothing on the right `|` changes nothing.
pub or_nothing : (bound a : ℕ) → a ≤ bound → bit_or a 0 ≡ a
or_nothing bound zero h = refl
or_nothing zero (suc a) h = absurd (omega arith)
or_nothing (suc bound) (suc a) h =
    omega (arith, bit_or-halves (suc a) 0, or_nothing bound (suc a / 2) (omega arith))

-- The high part is a multiple of `2 ^ k`, and the low part has at most `k` bits.
pub bit_or-disjoint :
    (k high low : ℕ) → low < 2 ^ k → bit_or (high * 2 ^ k) low ≡ high * 2 ^ k + low
bit_or-disjoint zero high low h = ground (arith, or_nothing high high)
bit_or-disjoint (suc k) high low h = ground (
  arith,
  bit_or-halves (high * 2 ^ suc k) low,
  ap (λ (t : ℕ). high * t) (pow-suc 2 k),
  bit_or-disjoint k high (low / 2),
)

zero-or : (b : ℕ) → bit_or 0 b ≡ b
zero-or b = omega (arith, bit_or-bitwise 0 b)

-- The same with the low part on the left.
pub bit_or-disjoint_left :
    (k low high : ℕ) → low < 2 ^ k → bit_or low (high * 2 ^ k) ≡ low + high * 2 ^ k
bit_or-disjoint_left zero low high h =
    let z : low ≡ 0 = omega arith in rw z (zero-or (high * 1) ∙ omega arith)
bit_or-disjoint_left (suc k) low high h = ground (
  arith,
  bit_or-halves low (high * 2 ^ suc k),
  ap (λ (t : ℕ). high * t) (pow-suc 2 k),
  bit_or-disjoint_left k (low / 2) high,
)
