-- ===== src/Console.antt =====
-- The output of text: kernel/drivers/serial.c and kernel/drivers/screen.c. A C string is the list of its
-- bytes before the zero, an `int` is a number below 2 ^ 32 in two's complement. What the arguments of a
-- format are is here; Console.Serial and Console.Screen are the drivers.
pub mod Serial
pub mod Screen
use tuix_os.Base.{ℕ, ◌+◌, ◌-◌, ◌^◌, Bool, leb, ltb, if◌then◌else◌, List}
use tuix_os.Memory.{u32}

-- `x < 0` for an `int`, and `-x`, which wraps at the smallest one.
abbrev pub is_negative : ℕ → Bool
is_negative x = leb (2 ^ 31) x

abbrev pub negated : ℕ → ℕ
negated x = u32 (2 ^ 32 - x)

-- An argument behind the format: a word, or the address of a string, which is not null.
pub data Arg : Type 0 where
  word : ℕ → Arg
  text : List ℕ → Arg
