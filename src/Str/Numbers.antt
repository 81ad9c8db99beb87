-- ===== src/Str/Numbers.antt =====
-- `int_to_str` of lib/string.c. An `int` is its bit pattern of 32 bits.
use tuix_os.Base.{
  ℕ, zero, suc, ◌+◌, ◌-◌, ◌/◌, ◌%◌, ◌^◌, Bool, ◌&&◌, ltb, leb, ◌==◌, if◌then◌else◌, Option, none,
  some,
}
use tuix_os.Memory.{Mem, u32, store8}
use tuix_os.Str.Chars.{reverse_str}

-- `while (num > 0) { buffer[i++] = '0' + (num % 10); num /= 10; }`, with the last `i`
unfoldable pub digits_loop : (fuel : ℕ) → Mem → (buffer i num : ℕ) → Option (ℕ × Mem)
digits_loop zero m buffer i num = none
digits_loop (suc fuel) m buffer i num =
    let rest =
      digits_loop fuel (store8 m (buffer + i) (0x30 + num % 10)) buffer (i + 1) (num / 10) in
    if ltb 0 num && ltb num (2 ^ 31) then rest else some (i, m)

-- The sign, the zero at the end, and the reversal.
unfoldable pub finish : (fuel : ℕ) → Bool → (buffer : ℕ) → ℕ × Mem → Option Mem
unfolding reverse_str
finish fuel is_negative buffer (i, m) =
    if is_negative
    then reverse_str fuel (store8 (store8 m (buffer + i) 0x2D) (buffer + (i + 1)) 0) buffer
    else reverse_str fuel (store8 m (buffer + i) 0) buffer

unfoldable pub int_to_str : (fuel : ℕ) → Mem → (num buffer : ℕ) → Option Mem
unfolding digits_loop finish
int_to_str fuel m num buffer =
    if num == 0
    then some (store8 (store8 m buffer 0x30) (buffer + 1) 0)
    else let is_negative = leb (2 ^ 31) num in
      elim (digits_loop fuel m buffer 0 (if is_negative then u32 (2 ^ 32 - num) else num)) [
        | none ↦ none
        | some r ↦ finish fuel is_negative buffer r
      ]
