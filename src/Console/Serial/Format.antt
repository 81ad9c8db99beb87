-- ===== src/Console/Serial/Format.antt =====
-- The formats of `serial_printf` of kernel/drivers/serial.c.
use tuix_os.Base.{
  ℕ, ◌^◌, ◌<◌, ◌≡◌, ◌≢◌, refl, ap, ◌∙◌, Bool, true, false, ◌==◌, Option, some, List, [], ◌∷◌, ◌++◌,
  All, arith,
}
use tuix_os.Console.{Arg, word}
use tuix_os.Console.Serial.{
  to_option, decimal, ◌>>=◌, conversion, serial_printf, serial_printf_from,
}
use tuix_os.Console.Serial.Digits.{read_int, serial_print_int_lem}

abbrev pub NoPercent : ℕ → Type 0
NoPercent c = c ≢ 0x25

-- What a character of the format does.
abbrev character : (c : ℕ) → List ℕ → List Arg → Bool → Option (List ℕ)
character c cs args percent = elim percent [
  | true ↦ serial_printf_from true cs args
  | false ↦ serial_printf_from false cs args >>= λ sent. some (c ∷ sent)
]

serial_printf-character :
    (c : ℕ) (cs : List ℕ) (args : List Arg) (percent : Bool)
    → (c == 0x25) ≡ percent
    → serial_printf (c ∷ cs) args ≡ character c cs args percent
unfolding serial_printf serial_printf_from
serial_printf-character c cs args percent e = ap (character c cs args) e

-- Text without a `%` is sent as it is, in front of the rest.
pub serial_printf-plain :
    (f g : List ℕ) (args : List Arg) (sent : List ℕ)
    → All NoPercent f
    → serial_printf g args ≡ some sent
    → serial_printf (f ++ g) args ≡ some (f ++ sent)
unfolding serial_printf
serial_printf-plain [] g args sent a h = h
serial_printf-plain (c ∷ f) g args sent (ne, a) h =
    serial_printf-character c (f ++ g) args false (ground arith)
    ∙ ap (λ o. o >>= λ sent. some (c ∷ sent)) (serial_printf-plain f g args sent a h)

conversion-decimal :
    (g : List ℕ) (n : ℕ) (args : List Arg) (cs sent : List ℕ)
    → decimal n ≡ some cs
    → serial_printf g args ≡ some sent
    → character 0x25 (0x64 ∷ g) (word n ∷ args) true ≡ some (cs ++ sent)
unfolding serial_printf serial_printf_from conversion
conversion-decimal g n args cs sent d h = rw (d, h) refl

-- Let a format have text without a `%`, then `%d`, then a format that sends `sent`. Given an `int` that is
-- not the smallest in front of the arguments, it sends the text, a number that reads as the `int`, and
-- `sent`.
pub serial_printf-decimal :
    (f g : List ℕ) (n : ℕ) (args : List Arg) (sent : List ℕ)
    → All NoPercent f
    → n < 2 ^ 32
    → n ≢ 2 ^ 31
    → serial_printf g args ≡ some sent
    → (cs : List ℕ) × (serial_printf (f ++ (0x25 ∷ 0x64 ∷ g)) (word n ∷ args)
        ≡ some (f ++ (cs ++ sent)))
      × (read_int cs ≡ n)
serial_printf-decimal f g n args sent a h least rest =
    let (cs, ran, read, most) = serial_print_int_lem 32 n (omega arith) h least in
    let sends : serial_printf (0x25 ∷ 0x64 ∷ g) (word n ∷ args) ≡ some (cs ++ sent) =
      serial_printf-character 0x25 (0x64 ∷ g) (word n ∷ args) true refl
      ∙ conversion-decimal g n args cs sent (ap to_option ran) rest in
    (cs, serial_printf-plain f (0x25 ∷ 0x64 ∷ g) (word n ∷ args) (cs ++ sent) a sends, read)
