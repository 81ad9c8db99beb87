-- ===== src/Console/Screen.antt =====
-- The text screen, kernel/drivers/screen.c. The video memory is a part of the flat memory. A row or a
-- column is an `int`. The buffer of `kprintf` is the list of the bytes stored so far, of which `pos` is
-- the length.
pub mod Cells
pub mod Format
use tuix_os.Base.{
  ℕ, zero, suc, ◌+◌, ◌-◌, ◌*◌, ◌/◌, ◌%◌, ◌^◌, Bool, true, false, not, ◌&&◌, ◌||◌, ltb, leb, ◌==◌,
  if◌then◌else◌, Option, none, some, List, [], ◌∷◌, ◌++◌, length, map,
}
use tuix_os.Memory.{Mem, u32, store8}
use tuix_os.Mmu.{p2v}
use tuix_os.Console.{is_negative, Arg, word, text}

unfoldable pub put_char : (c row col : ℕ) → Mem → Mem
put_char c row col m =
    if is_negative row || leb 25 row || is_negative col || leb 80 col
    then m
    else let video = p2v 0xB8000 + (row * 80 + col) * 2 in
      store8 (store8 m video c) (video + 1) 0x0E

-- `for (int i = 0; str[i] != '\0'; i++)` from `i` on.
unfoldable pub kprint_from : (i row col : ℕ) → (str : List ℕ) → Mem → Mem
unfolding put_char
kprint_from i row col [] m = m
kprint_from i row col (c ∷ str) m =
    kprint_from (i + 1) row col str (put_char c row (u32 (col + i)) m)

unfoldable pub kprint : (row col : ℕ) → (str : List ℕ) → Mem → Mem
unfolding kprint_from
kprint row col str m = kprint_from 0 row col str m

-- `for (int i = 0; i < 80 * 25 * 2; i += 2)` from `i` on.
unfoldable pub clear_from : (rounds i : ℕ) → Mem → Mem
clear_from zero i m = m
clear_from (suc rounds) i m =
    clear_from rounds (i + 2) (store8 (store8 m (0xB8000 + i) 0x20) (0xB8000 + i + 1) 0x07)

unfoldable pub clear_screen : Mem → Mem
unfolding clear_from
clear_screen m = clear_from (80 * 25) 0 m

-- Copies while `pos < 127`.
unfoldable pub copy_text : (str buffer : List ℕ) → List ℕ
copy_text [] buffer = buffer
copy_text (c ∷ str) buffer =
    let rest = copy_text str (buffer ++ (c ∷ [])) in
    if ltb (length buffer) 127 then rest else buffer

-- `while (num > 0 && j < 15)`, of which `room` rounds are left, with `num_buf` from its last byte on.
unfoldable pub number_loop : (room num : ℕ) → (num_buf : List ℕ) → List ℕ
number_loop zero num num_buf = num_buf
number_loop (suc room) num num_buf =
    let rest = number_loop room (num / 10) ((0x30 + num % 10) ∷ num_buf) in
    if (num == 0) || is_negative num then num_buf else rest

abbrev pub number_text : (num : ℕ) → List ℕ
number_text num = if num == 0 then 0x30 ∷ [] else number_loop 15 num []

abbrev pub upper_digit : (num j : ℕ) → ℕ
upper_digit num j =
    let digit = num / 2 ^ (j * 4) % 16 in if ltb digit 10 then 0x30 + digit else 0x41 + digit - 10

abbrev pub hex_buf : (num : ℕ) → List ℕ
hex_buf num = map (upper_digit num) (7 ∷ 6 ∷ 5 ∷ 4 ∷ 3 ∷ 2 ∷ 1 ∷ 0 ∷ [])

-- Which branch `fmt[i]` and `fmt[i + 1]` take.
pub data Directive : Type 0 where
  string : Directive
  decimal : Directive
  hex : Directive
  plain : Directive

abbrev pub directive : (c next : ℕ) → Directive
directive c next =
    if (c == 0x25) && (next == 0x73)
    then string
    else if (c == 0x25) && (next == 0x64)
    then decimal
    else if (c == 0x25) && (next == 0x78)
    then hex
    else plain

-- What a branch puts into the buffer, and the arguments that are left. A string may be the null pointer.
-- Without an argument of its kind nothing is defined.
unfoldable pub convert :
    Directive → (c : ℕ) → List Arg → (buffer : List ℕ) → Option (List ℕ × List Arg)
unfolding copy_text number_loop
convert plain c args buffer = some (buffer ++ (c ∷ []), args)
convert d c [] buffer = none
convert string c (text str ∷ args) buffer = some (copy_text str buffer, args)
convert string c (word p ∷ args) buffer = if p == 0 then some (buffer, args) else none
convert d c (text str ∷ args) buffer = none
convert decimal c (word num ∷ args) buffer = some (copy_text (number_text num) buffer, args)
convert hex c (word num ∷ args) buffer = some (copy_text (hex_buf num) buffer, args)

abbrev bind : Option (List ℕ × List Arg) → (List ℕ × List Arg → Option (List ℕ)) → Option (List ℕ)
bind none f = none
bind (some r) f = f r

-- `for (int i = 0; fmt[i] != '\0' && pos < 127; i++)` from a place in the format on. A conversion takes
-- two characters.
unfoldable pub kprintf_from : (fmt : List ℕ) → List Arg → (buffer : List ℕ) → Option (List ℕ)
unfolding convert
kprintf_from [] args buffer = some buffer
kprintf_from (c ∷ []) args buffer =
    if ltb (length buffer) 127 then some (buffer ++ (c ∷ [])) else some buffer
kprintf_from (c ∷ next ∷ fmt) args buffer = elim (ltb (length buffer) 127) [
  | true ↦ bind (convert (directive c next) c args buffer) (λ (buffer, args).
      elim (directive c next) [
        | plain ↦ kprintf_from (next ∷ fmt) args buffer
        | _ ↦ kprintf_from fmt args buffer
      ])
  | false ↦ some buffer
]

unfoldable pub kprintf : (row col : ℕ) → (fmt : List ℕ) → List Arg → Mem → Option Mem
unfolding kprintf_from kprint
kprintf row col fmt args m = elim (kprintf_from fmt args []) [
  | none ↦ none
  | some buffer ↦ some (kprint row col buffer m)
]
