-- ===== src/Console/Serial.antt =====
-- The serial line, kernel/drivers/serial.c. The functions that print give the bytes that they send, in
-- order; that each waits for the line is `serial_putchar`.
pub mod Digits
pub mod Hex
pub mod Format
pub mod Strings
use tuix_os.Base.{
  ℕ, zero, suc, ◌+◌, ◌-◌, ◌*◌, ◌/◌, ◌%◌, ◌^◌, Bool, true, false, not, ◌&&◌, ◌||◌, ltb, leb, ◌==◌,
  if◌then◌else◌, Option, none, some, List, [], ◌∷◌, ◌++◌, map,
}
use tuix_os.Base.Outcome.{Outcome, ok, out_of_fuel}
use tuix_os.Memory.{u8}
use tuix_os.Console.{is_negative, negated, Arg, word, text}

-- The bytes written to ports, the oldest first.
abbrev pub Writes : Type 0
Writes = List (ℕ × ℕ)

abbrev pub init_serial : Writes → Writes
init_serial w =
    w
    ++ ((0x3F8 + 2, 0x00)
        ∷ (0x3F8 + 1, 0x00)
        ∷ (0x3F8 + 3, 0x80)
        ∷ (0x3F8 + 0, 0x03)
        ∷ (0x3F8 + 1, 0x00)
        ∷ (0x3F8 + 3, 0x03)
        ∷ (0x3F8 + 4, 0x0B)
        ∷ [])

-- `inb(0x3F8 + 5)` gives the states of the line one by one; the states that are left come with the writes.
serial_putchar : (states : List ℕ) → (c : ℕ) → Writes → Outcome (List ℕ × Writes)
serial_putchar [] c w = out_of_fuel
serial_putchar (s ∷ states) c w =
    let rest = serial_putchar states c w in
    if s / 0x20 % 2 == 0 then rest else ok (states, w ++ ((0x3F8, c) ∷ []))

-- `(digit < 10) ? ('0' + digit) : ('a' + digit - 10)`
abbrev pub digit_char : ℕ → ℕ
digit_char d = if ltb d 10 then 0x30 + d else 0x61 + d - 10

-- `while (num > 0)`: the digits in `buffer`, of which the last one stored comes first.
unfoldable pub digit_loop : (fuel num base : ℕ) → (buffer : List ℕ) → Outcome (List ℕ)
digit_loop zero num base buffer = out_of_fuel
digit_loop (suc fuel) num base buffer =
    let rest = digit_loop fuel (num / base) base (digit_char (num % base) ∷ buffer) in
    if (num == 0) || is_negative num then ok buffer else rest

-- `*ptr++ = '-'`
abbrev pub signed : Outcome (List ℕ) → Outcome (List ℕ)
signed (ok buffer) = ok (0x2D ∷ buffer)
signed o = o

unfoldable pub serial_print_int : (fuel num base : ℕ) → Outcome (List ℕ)
unfolding digit_loop
serial_print_int fuel num base =
    if num == 0
    then ok (0x30 ∷ [])
    else if is_negative num && (base == 10)
    then signed (digit_loop fuel (negated num) base [])
    else digit_loop fuel num base []

-- `(num >> (i * 4)) & 0xF`
abbrev pub hex_digit : (num i : ℕ) → ℕ
hex_digit num i = digit_char (num / 2 ^ (i * 4) % 16)

-- `while (start < 7 && buffer[start] == '0')` on what is left of the buffer.
unfoldable pub skip_zeros : List ℕ → List ℕ
skip_zeros [] = []
skip_zeros (c ∷ []) = c ∷ []
skip_zeros (c ∷ d ∷ cs) = let rest = skip_zeros (d ∷ cs) in if c == 0x30 then rest else c ∷ d ∷ cs

unfoldable pub serial_print_hex : (num : ℕ) → List ℕ
unfolding skip_zeros
serial_print_hex num =
    0x30
    ∷ 0x78
    ∷ (if num == 0
        then 0x30 ∷ []
        else skip_zeros (map (hex_digit num) (7 ∷ 6 ∷ 5 ∷ 4 ∷ 3 ∷ 2 ∷ 1 ∷ 0 ∷ [])))

infixl 5 ◌>>=◌
abbrev pub ◌>>=◌ : {A B : Type 0} → Option A → (A → Option B) → Option B
none >>= f = none
some a >>= f = f a

-- `va_arg(args, int)`, `va_arg(args, char*)`: without an argument of the kind nothing is defined.
abbrev pub with_word : (ℕ → Option (List ℕ)) → List Arg → Option (List ℕ × List Arg)
with_word f [] = none
with_word f (text cs ∷ args) = none
with_word f (word n ∷ args) = do cs ← f n; some (cs, args)

abbrev with_text : List Arg → Option (List ℕ × List Arg)
with_text [] = none
with_text (text cs ∷ args) = some (cs, args)
with_text (word n ∷ args) = none

abbrev pub to_option : Outcome (List ℕ) → Option (List ℕ)
to_option (ok cs) = some cs
to_option o = none

-- The digits of an `int` fit into the 32 bytes of the buffer.
abbrev pub decimal : ℕ → Option (List ℕ)
decimal n = to_option (serial_print_int 32 n 10)

-- What the letter behind a `%` sends, and the arguments that are left.
unfoldable pub conversion : (c : ℕ) → List Arg → Option (List ℕ × List Arg)
unfolding serial_print_int serial_print_hex
conversion c args =
    if c == 0x73
    then with_text args
    else if c == 0x63
    then with_word (λ n. some (u8 n ∷ [])) args
    else if c == 0x64
    then with_word decimal args
    else if c == 0x78
    then with_word (λ n. some (serial_print_hex n)) args
    else if c == 0x70
    then with_word (λ n. some (0x30 ∷ 0x78 ∷ serial_print_hex n)) args
    else if c == 0x25
    then some (0x25 ∷ [], args)
    else some (0x25 ∷ c ∷ [], args)

-- The bytes that are sent, from a place in the format on; `percent` when a `%` stands before it. A format
-- that ends in a single `%` is read past its end, which is not defined.
unfoldable pub serial_printf_from :
    (percent : Bool) → (format : List ℕ) → List Arg → Option (List ℕ)
unfolding conversion
serial_printf_from false [] args = some []
serial_printf_from true [] args = none
serial_printf_from false (c ∷ cs) args = elim (c == 0x25) [
  | true ↦ serial_printf_from true cs args
  | false ↦ do sent ← serial_printf_from false cs args; some (c ∷ sent)
]
serial_printf_from true (c ∷ cs) args = do
  (sent, args) ← conversion c args
  rest ← serial_printf_from false cs args
  some (sent ++ rest)

unfoldable pub serial_printf : (format : List ℕ) → List Arg → Option (List ℕ)
unfolding serial_printf_from
serial_printf format args = serial_printf_from false format args
