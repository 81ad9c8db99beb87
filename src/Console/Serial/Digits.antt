-- ===== src/Console/Serial/Digits.antt =====
-- The decimal numbers that `serial_print_int` of kernel/drivers/serial.c sends.
use tuix_os.Base.{
  ℕ, zero, suc, ◌+◌, ◌-◌, ◌*◌, ◌/◌, ◌%◌, ◌^◌, ◌≤◌, ◌<◌, ◌≡◌, ◌≢◌, refl, ap, ◌∙◌, true, false, ◌||◌,
  leb, ◌==◌, if◌then◌else◌, dec_lt, ℕ_discrete, List, [], ◌∷◌, length, All, arith,
}
use tuix_os.Base.Outcome.{ok}
use tuix_os.Memory.{u32}
use tuix_os.Console.{is_negative, negated}
use tuix_os.Console.Serial.{digit_char, digit_loop, serial_print_int}

-- What a reader of decimal digits has, who has `v` before them.
unfoldable pub read_dec : (v : ℕ) → List ℕ → ℕ
read_dec v [] = v
read_dec v (c ∷ cs) = read_dec (v * 10 + (c - 0x30)) cs

-- A sign and digits, as an `int`.
unfoldable pub read_int : List ℕ → ℕ
unfolding read_dec
read_int [] = 0
read_int (c ∷ cs) = if c == 0x2D then u32 (2 ^ 32 - read_dec 0 cs) else read_dec 0 (c ∷ cs)

abbrev pub IsDigit : ℕ → Type 0
IsDigit c = (0x30 ≤ c) × (c ≤ 0x39)

abbrev first : List ℕ → ℕ
first [] = 0
first (c ∷ cs) = c

-- The text `cs` is the digits of `num` and then `buffer`, with `k` digits at most and no leading zero.
record Digits (num k : ℕ) (buffer cs : List ℕ) : Type 0 where
  read : read_dec 0 cs ≡ read_dec num buffer
  most : length cs ≤ k + length buffer
  digits : All IsDigit buffer → All IsDigit cs
  none_left : num ≡ 0 → cs ≡ buffer
  lead : num ≢ 0 → first cs ≢ 0x30

digit_char-IsDigit : (d : ℕ) → d < 10 → digit_char d ≡ 0x30 + d
digit_char-IsDigit d h = ground arith

digit_loop_lem :
    (fuel k num : ℕ) (buffer : List ℕ)
    → k < fuel
    → num < 10 ^ k
    → num < 2 ^ 31
    → (cs : List ℕ) × (digit_loop fuel num 10 buffer ≡ ok cs) × Digits num k buffer cs
unfolding digit_loop read_dec
digit_loop_lem zero k num buffer enough h small = absurd (omega arith)
digit_loop_lem (suc fuel) zero num buffer enough h small =
    let e : num ≡ 0 = omega arith in
    (
      buffer,
      rw e refl,
      record {
        read = rw e refl;
        most = omega arith;
        digits = λ a. a;
        none_left = λ z. refl;
        lead = λ ne. absurd (ne e);
      },
    )
digit_loop_lem (suc fuel) (suc k) num buffer enough h small = elim (ℕ_discrete num 0) [
  | yes e ↦ (
    buffer,
    rw e refl,
    record {
      read = rw e refl;
      most = omega arith;
      digits = λ a. a;
      none_left = λ z. refl;
      lead = λ ne. absurd (ne e);
    },
  )
  | no ne ↦
      let c = digit_char (num % 10) in
      let char : c ≡ 0x30 + num % 10 = digit_char-IsDigit (num % 10) (omega arith) in
      let (cs, ran, d) =
        digit_loop_lem fuel k (num / 10) (c ∷ buffer) (omega arith) (omega arith) (omega arith) in
      let test : ((num == 0) || is_negative num) ≡ false = ground arith in
      let same : num / 10 * 10 + (c - 0x30) ≡ num = omega arith in
      let more = d.most in
      (
        cs,
        rw (test, ran) refl,
        record {
          read = d.read ∙ ap (λ v. read_dec v buffer) same;
          most = omega arith;
          digits = λ a. d.digits ((omega arith, omega arith), a);
          none_left = λ z. absurd (ne z);
          lead = λ u. elim (ℕ_discrete (num / 10) 0) [
            | yes z ↦ rw (d.none_left z) (omega arith)
            | no w ↦ d.lead w
          ];
        },
      )
]

-- Digits alone read as themselves.
read_int-digits : (cs : List ℕ) → All IsDigit cs → read_int cs ≡ read_dec 0 cs
unfolding read_int read_dec
read_int-digits [] a = refl
read_int-digits (c ∷ cs) (l, a) = let no : (c == 0x2D) ≡ false = ground arith in rw no refl

-- Every `int` but the smallest is printed within the rounds that 10 digits need. Read back, the text is
-- the number again, and it has 11 bytes at most, which the buffer of 32 bytes holds.
pub serial_print_int_lem :
    (fuel n : ℕ)
    → 10 < fuel
    → n < 2 ^ 32
    → n ≢ 2 ^ 31
    → (cs : List ℕ) × (serial_print_int fuel n 10 ≡ ok cs) × (read_int cs ≡ n) × (length cs ≤ 11)
unfolding serial_print_int read_int
serial_print_int_lem fuel n enough h least = elim (ℕ_discrete n 0) [
  | yes z ↦ (0x30 ∷ [], rw z refl, rw z refl, omega arith)
  | no ne ↦
      let zero_test : (n == 0) ≡ false = ground arith in
      elim (dec_lt n (2 ^ 31)) [
        | yes small ↦
            let (cs, ran, d) = digit_loop_lem fuel 10 n [] enough (omega arith) small in
            let most = d.most in
            let sign : leb (2 ^ 31) n ≡ false = ground arith in
            (cs, rw (zero_test, sign) ran, read_int-digits cs (d.digits tt) ∙ d.read, omega arith)
        | no big ↦
            let (cs, ran, d) =
              digit_loop_lem fuel 10 (negated n) [] enough (omega arith) (omega arith) in
            let most = d.most in
            let sign : leb (2 ^ 31) n ≡ true = ground arith in
            (0x2D ∷ cs, rw (zero_test, sign, ran) refl, rw (d.read) (omega arith), omega arith)
      ]
]

-- The smallest `int` is printed as a sign without digits.
smallest : serial_print_int 11 (2 ^ 31) 10 ≡ ok (0x2D ∷ [])
unfolding serial_print_int digit_loop
smallest = refl
