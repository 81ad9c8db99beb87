-- ===== src/Console/Serial/Hex.antt =====
-- The hexadecimal numbers that `serial_print_hex` of kernel/drivers/serial.c sends.
use tuix_os.Base.{
  ℕ, ◌+◌, ◌-◌, ◌*◌, ◌/◌, ◌%◌, ◌^◌, ◌≤◌, ◌<◌, ◌≡◌, refl, sym, ◌∙◌, false, ltb, ◌==◌, if◌then◌else◌,
  Bool-cases, inl, inr, ℕ_discrete, List, [], ◌∷◌, length, map, arith,
}
use tuix_os.Console.Serial.{digit_char, hex_digit, skip_zeros, serial_print_hex}

-- What a reader of hexadecimal digits has, who has `v` before them.
unfoldable pub read_hex : (v : ℕ) → List ℕ → ℕ
read_hex v [] = v
read_hex v (c ∷ cs) = read_hex (v * 16 + (if ltb c 0x3A then c - 0x30 else c - 0x57)) cs

digit_value :
    (d : ℕ)
    → d < 16
    → (if ltb (digit_char d) 0x3A then digit_char d - 0x30 else digit_char d - 0x57) ≡ d
digit_value d h = ground arith

read_hex-skip_zeros : (cs : List ℕ) → read_hex 0 (skip_zeros cs) ≡ read_hex 0 cs
unfolding read_hex skip_zeros
read_hex-skip_zeros [] = refl
read_hex-skip_zeros (c ∷ []) = refl
read_hex-skip_zeros (c ∷ d ∷ cs) = elim (Bool-cases (c == 0x30)) [
  | inl z ↦ let e : c ≡ 0x30 = ground arith in rw z (read_hex-skip_zeros (d ∷ cs) ∙ rw e refl)
  | inr n ↦ rw n refl
]

length-skip_zeros : (cs : List ℕ) → length (skip_zeros cs) ≤ length cs
unfolding skip_zeros
length-skip_zeros [] = omega arith
length-skip_zeros (c ∷ []) = omega arith
length-skip_zeros (c ∷ d ∷ cs) = elim (Bool-cases (c == 0x30)) [
  | inl z ↦ rw z (omega (arith, length-skip_zeros (d ∷ cs)))
  | inr n ↦ rw n (omega arith)
]

abbrev all_digits : ℕ → List ℕ
all_digits num = map (hex_digit num) (7 ∷ 6 ∷ 5 ∷ 4 ∷ 3 ∷ 2 ∷ 1 ∷ 0 ∷ [])

read_hex-all_digits : (num : ℕ) → num < 2 ^ 32 → read_hex 0 (all_digits num) ≡ num
unfolding read_hex
read_hex-all_digits num h =
    rw
      (
        digit_value (num / 2 ^ 28 % 16) (omega arith),
        digit_value (num / 2 ^ 24 % 16) (omega arith),
        digit_value (num / 2 ^ 20 % 16) (omega arith),
        digit_value (num / 2 ^ 16 % 16) (omega arith),
        digit_value (num / 2 ^ 12 % 16) (omega arith),
        digit_value (num / 2 ^ 8 % 16) (omega arith),
        digit_value (num / 2 ^ 4 % 16) (omega arith),
        digit_value (num / 2 ^ 0 % 16) (omega arith),
      )
      (omega arith)

-- A word is sent as `0x` and digits, 8 at most, that read as the word.
pub serial_print_hex_lem :
    (num : ℕ)
    → num < 2 ^ 32
    → (cs : List ℕ) × (serial_print_hex num ≡ 0x30 ∷ 0x78 ∷ cs)
      × (read_hex 0 cs ≡ num)
      × (length cs ≤ 8)
unfolding serial_print_hex read_hex
serial_print_hex_lem num h = elim (ℕ_discrete num 0) [
  | yes z ↦ (0x30 ∷ [], rw z refl, sym z, omega arith)
  | no ne ↦
      let test : (num == 0) ≡ false = ground arith in
      (
        skip_zeros (all_digits num),
        rw test refl,
        read_hex-skip_zeros (all_digits num) ∙ read_hex-all_digits num h,
        length-skip_zeros (all_digits num),
      )
]
