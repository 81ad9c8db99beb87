-- ===== src/Tests/Texts.antt =====
-- The output of text on concrete numbers and formats.
use tuix_os.Base.{ℕ, ◌+◌, ◌<◌, ◌≤◌, ◌≡◌, ◌⊎◌, refl, some, List, [], ◌∷◌, ◌++◌, length, arith}
use tuix_os.Base.Outcome.{ok}
use tuix_os.Memory.{Mem, load8}
use tuix_os.Str.Chars.Laws.{IsString}
use tuix_os.Str.Numbers.{int_to_str}
use tuix_os.Console.Serial.Strings.{int_to_str_lem}
use tuix_os.Console.{word}
use tuix_os.Console.Serial.{serial_print_int, serial_printf}
use tuix_os.Console.Serial.Digits.{read_int}
use tuix_os.Console.Serial.Format.{serial_printf-decimal}
use tuix_os.Console.Screen.{kprintf_from}
use tuix_os.Console.Screen.Format.{kprintf_from_lem}

serial_printf_example :
    (cs : List ℕ) × (serial_printf (0x3D ∷ 0x25 ∷ 0x64 ∷ 0x0A ∷ []) (word 1042 ∷ [])
      ≡ some (0x3D ∷ (cs ++ (0x0A ∷ []))))
    × (read_int cs ≡ 1042)
unfolding serial_printf
serial_printf_example =
    serial_printf-decimal (0x3D ∷ []) (0x0A ∷ []) 1042 [] (0x0A ∷ []) (omega arith, tt)
      (omega arith) (omega arith) refl

abbrev shown : List ℕ
shown = 0x3D ∷ 0x34 ∷ 0x32 ∷ []

kprintf_example : length shown ≤ 127
unfolding kprintf_from
kprintf_example = kprintf_from_lem (0x3D ∷ 0x25 ∷ 0x64 ∷ []) (word 42 ∷ []) shown refl

int_to_str_example :
    (cs : List ℕ) × (m' : Mem) × (serial_print_int 12 0xFFFF_FFD6 10 ≡ ok cs)
    × (int_to_str 12 (λ b. 0) 0xFFFF_FFD6 100 ≡ some m')
    × (read_int cs ≡ 0xFFFF_FFD6)
    × IsString m' 100 cs
    × ((b : ℕ) → (b < 100) ⊎ (100 + 12 ≤ b) → load8 m' b ≡ load8 (λ b. 0) b)
int_to_str_example =
    int_to_str_lem 12 (λ b. 0) 0xFFFF_FFD6 100 (omega arith) (omega arith) (omega arith)
