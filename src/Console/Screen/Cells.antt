-- ===== src/Console/Screen/Cells.antt =====
-- What the functions of kernel/drivers/screen.c write into the video memory.
use tuix_os.Base.{
  ℕ, zero, suc, ◌+◌, ◌*◌, ◌^◌, ◌≤◌, ◌<◌, ◌≡◌, ◌⊎◌, inl, inr, refl, ap, ◌∙◌, true, false, ◌||◌, leb,
  dec_lt, List, [], ◌∷◌, length, get_elem?, some, arith,
}
use tuix_os.Memory.{Mem, u8, u32, load8, store8}
use tuix_os.Memory.Laws.{load8-store8_self, load8-store8_ne}
use tuix_os.Mmu.{p2v}
use tuix_os.Console.{is_negative}
use tuix_os.Console.Screen.{put_char, kprint_from, kprint, clear_from, clear_screen}

-- The address of a cell: its character, and behind it the colours.
abbrev pub video : ℕ
video = p2v 0xB8000

abbrev pub cell : (row col : ℕ) → ℕ
cell row col = video + (row * 80 + col) * 2

put_char-in :
    (c row col : ℕ) (m : Mem)
    → row < 25
    → col < 80
    → put_char c row col m ≡ store8 (store8 m (cell row col) c) (cell row col + 1) 0x0E
unfolding put_char
put_char-in c row col m h k =
    let test : (is_negative row || leb 25 row || is_negative col || leb 80 col) ≡ false =
      ground arith in
    rw test refl

put_char-out : (c row col : ℕ) (m : Mem) → (25 ≤ row) ⊎ (80 ≤ col) → put_char c row col m ≡ m
unfolding put_char
put_char-out c row col m h =
    let test : (is_negative row || leb 25 row || is_negative col || leb 80 col) ≡ true =
      ground arith in
    rw test refl

put_char_char :
    (c row col : ℕ) (m : Mem)
    → row < 25
    → col < 80
    → load8 (put_char c row col m) (cell row col) ≡ u8 c
put_char_char c row col m h k = rw (put_char-in c row col m h k) (
    load8-store8_ne (store8 m (cell row col) c) (cell row col + 1) 0x0E (cell row col) (omega arith)
    ∙ load8-store8_self m (cell row col) c)

put_char_other :
    (c row col : ℕ) (m : Mem) (x : ℕ)
    → row < 25
    → col < 80
    → (x < cell row col) ⊎ (cell row col + 2 ≤ x)
    → load8 (put_char c row col m) x ≡ load8 m x
put_char_other c row col m x h k u = rw (put_char-in c row col m h k) (
    load8-store8_ne (store8 m (cell row col) c) (cell row col + 1) 0x0E x (omega arith)
    ∙ load8-store8_ne m (cell row col) c x (omega arith))

-- Whatever the row and the column are, `put_char` writes no byte outside the 4000 of the video memory.
pub put_char_outside :
    (c row col : ℕ) (m : Mem) (x : ℕ)
    → (x < video) ⊎ (video + 4000 ≤ x)
    → load8 (put_char c row col m) x ≡ load8 m x
put_char_outside c row col m x u = elim (dec_lt row 25) [
  | yes h ↦ elim (dec_lt col 80) [
    | yes k ↦ put_char_other c row col m x h k (omega arith)
    | no k ↦ rw (put_char-out c row col m (inr (omega arith))) refl
  ]
  | no h ↦ rw (put_char-out c row col m (inl (omega arith))) refl
]

-- The bytes before the first character, behind the last one and behind the row are not written.
kprint_from_outside :
    (str : List ℕ) (i row col : ℕ) (m : Mem) (x : ℕ)
    → row < 25
    → col + i + length str < 2 ^ 32
    → (x < cell row (col + i)) ⊎ ((cell row 80 ≤ x) ⊎ (cell row (col + i + length str) ≤ x))
    → load8 (kprint_from i row col str m) x ≡ load8 m x
unfolding kprint_from
kprint_from_outside [] i row col m x h fits u = refl
kprint_from_outside (c ∷ str) i row col m x h fits u =
    let at : u32 (col + i) ≡ col + i = omega arith in
    kprint_from_outside str (i + 1) row col (put_char c row (u32 (col + i)) m) x h (omega arith)
      (ground arith)
    ∙ rw at (elim (dec_lt (col + i) 80) [
      | yes k ↦ put_char_other c row (col + i) m x h k (ground arith)
      | no k ↦ rw (put_char-out c row (col + i) m (inr (omega arith))) refl
    ])

kprint_from_char :
    (str : List ℕ) (i row col : ℕ) (m : Mem) (j c : ℕ)
    → row < 25
    → col + i + length str < 2 ^ 32
    → col + i + j < 80
    → get_elem? str j ≡ some c
    → load8 (kprint_from i row col str m) (cell row (col + i + j)) ≡ u8 c
unfolding kprint_from
kprint_from_char [] i row col m j c h fits l e = absurd (ground arith)
kprint_from_char (d ∷ str) i row col m zero c h fits l e =
    let at : u32 (col + i) ≡ col + i = omega arith in
    let same : d ≡ c = ground arith in
    let here : col + i + 0 ≡ col + i = omega arith in
    rw here (
      kprint_from_outside str (i + 1) row col (put_char d row (u32 (col + i)) m)
        (cell row (col + i)) h (omega arith) (inl (omega arith))
      ∙ rw at (put_char_char d row (col + i) m h (omega arith))
      ∙ ap u8 same)
kprint_from_char (d ∷ str) i row col m (suc j) c h fits l e =
    let next : col + i + suc j ≡ col + (i + 1) + j = omega arith in
    rw next (
      kprint_from_char str (i + 1) row col (put_char d row (u32 (col + i)) m) j c h (omega arith)
        (omega arith) e)

-- On a row of the screen, `kprint` puts the characters of the text one behind the other into the cells
-- from the column on, up to the end of the row. The rest of the memory is as before.
pub kprint_lem :
    (row col : ℕ) (str : List ℕ) (m : Mem)
    → row < 25
    → col + length str < 2 ^ 32
    → ((j c : ℕ)
        → get_elem? str j ≡ some c
        → col + j < 80
        → load8 (kprint row col str m) (cell row (col + j)) ≡ u8 c)
      × ((x : ℕ)
          → (x < cell row col) ⊎ ((cell row 80 ≤ x) ⊎ (cell row (col + length str) ≤ x))
          → load8 (kprint row col str m) x ≡ load8 m x)
unfolding kprint
kprint_lem row col str m h fits =
    let none_yet : col + 0 ≡ col = omega arith in
    (
      λ j c e l.
          let char = kprint_from_char str 0 row col m j c h (omega arith) (omega arith) e in
          rw none_yet at char,
      λ x u. kprint_from_outside str 0 row col m x h (omega arith) (ground arith),
    )

clear_from_outside :
    (rounds i : ℕ) (m : Mem) (x : ℕ)
    → (x < 0xB8000 + i) ⊎ (0xB8000 + i + 2 * rounds ≤ x)
    → load8 (clear_from rounds i m) x ≡ load8 m x
unfolding clear_from
clear_from_outside zero i m x u = refl
clear_from_outside (suc rounds) i m x u =
    let m1 = store8 m (0xB8000 + i) 0x20 in
    clear_from_outside rounds (i + 2) (store8 m1 (0xB8000 + i + 1) 0x07) x (ground arith)
    ∙ load8-store8_ne m1 (0xB8000 + i + 1) 0x07 x (ground arith)
    ∙ load8-store8_ne m (0xB8000 + i) 0x20 x (ground arith)

clear_from_cell :
    (rounds i j : ℕ) (m : Mem)
    → j < rounds
    → (load8 (clear_from rounds i m) (0xB8000 + i + 2 * j) ≡ 0x20)
      × (load8 (clear_from rounds i m) (0xB8000 + i + 2 * j + 1) ≡ 0x07)
unfolding clear_from
clear_from_cell zero i j m h = absurd (omega arith)
clear_from_cell (suc rounds) i zero m h =
    let m1 = store8 m (0xB8000 + i) 0x20 in
    let m2 = store8 m1 (0xB8000 + i + 1) 0x07 in
    let at : 0xB8000 + i + 2 * 0 ≡ 0xB8000 + i = omega arith in
    rw at (
      clear_from_outside rounds (i + 2) m2 (0xB8000 + i) (inl (omega arith))
          ∙ load8-store8_ne m1 (0xB8000 + i + 1) 0x07 (0xB8000 + i) (omega arith)
          ∙ load8-store8_self m (0xB8000 + i) 0x20,
      clear_from_outside rounds (i + 2) m2 (0xB8000 + i + 1) (inl (omega arith))
          ∙ load8-store8_self m1 (0xB8000 + i + 1) 0x07,
    )
clear_from_cell (suc rounds) i (suc j) m h =
    let at : 0xB8000 + i + 2 * suc j ≡ 0xB8000 + (i + 2) + 2 * j = omega arith in
    rw at (
      clear_from_cell rounds (i + 2) j (store8 (store8 m (0xB8000 + i) 0x20) (0xB8000 + i + 1) 0x07)
        (omega arith))

-- `clear_screen` makes each of the 2000 cells a blank in its colours, and writes nothing else.
pub clear_screen_lem :
    (m : Mem)
    → ((j : ℕ)
        → j < 2000
        → (load8 (clear_screen m) (0xB8000 + 2 * j) ≡ 0x20)
          × (load8 (clear_screen m) (0xB8000 + 2 * j + 1) ≡ 0x07))
      × ((x : ℕ) → (x < 0xB8000) ⊎ (0xB8000 + 4000 ≤ x) → load8 (clear_screen m) x ≡ load8 m x)
unfolding clear_screen
clear_screen_lem m =
    (λ j h. clear_from_cell 2000 0 j m h, λ x u. clear_from_outside 2000 0 m x (ground arith))
