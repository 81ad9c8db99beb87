-- ===== src/Main/Screen.antt =====
-- What `init_show` of init/main.c leaves as it was.
use tuix_os.Base.{ℕ, zero, suc, ◌+◌, ◌<◌, ◌≤◌, ◌≡◌, ◌⊎◌, refl, ◌∙◌, List, [], ◌∷◌}
use tuix_os.Memory.{Mem, u32, load8}
use tuix_os.Console.Screen.{put_char, kprint_from, kprint, clear_screen}
use tuix_os.Console.Screen.Cells.{video, put_char_outside, clear_screen_lem}
use tuix_os.Main.{
  logo, logo_text, version_text, done_text, print_lines, print_while, print_logo, init_show,
}

module _ (x : ℕ) (u : (x < video) ⊎ (video + 4000 ≤ x)) where
  kprint_from_off :
      (str : List ℕ) (i row col : ℕ) (m : Mem) → load8 (kprint_from i row col str m) x ≡ load8 m x
  unfolding kprint_from
  kprint_from_off [] i row col m = refl
  kprint_from_off (c ∷ str) i row col m =
      kprint_from_off str (i + 1) row col (put_char c row (u32 (col + i)) m)
      ∙ put_char_outside c row (u32 (col + i)) m x u

  pub kprint_off :
      (row col : ℕ) (str : List ℕ) (m : Mem) → load8 (kprint row col str m) x ≡ load8 m x
  unfolding kprint
  kprint_off row col str m = kprint_from_off str 0 row col m

  print_lines_off :
      (i : ℕ) (lines : List (List ℕ)) (m : Mem) → load8 (print_lines i lines m) x ≡ load8 m x
  unfolding print_lines
  print_lines_off i [] m = refl
  print_lines_off i (line ∷ lines) m =
      print_lines_off (i + 1) lines (kprint (9 + i) 21 line m) ∙ kprint_off (9 + i) 21 line m

  print_while_off : (c : ℕ) (m : Mem) → load8 (print_while c m) x ≡ load8 m x
  unfolding print_while
  print_while_off zero m = refl
  print_while_off (suc c) m =
      print_while_off c (kprint 0 0 logo_text m) ∙ kprint_off 0 0 logo_text m

  print_logo_off : (m : Mem) → load8 (print_logo m) x ≡ load8 m x
  unfolding print_logo
  print_logo_off m =
      let m1 = print_lines 0 logo m in
      let m2 = kprint 20 33 version_text m1 in
      kprint_off 0 0 done_text (print_while 500_000 m2)
      ∙ print_while_off 500_000 m2
      ∙ kprint_off 20 33 version_text m1
      ∙ print_lines_off 0 logo m

  -- Outside the video memory, at its physical and at its virtual address, `init_show` writes nothing.
  pub init_show_off :
      (m : Mem) → (x < 0xB8000) ⊎ (0xB8000 + 4000 ≤ x) → load8 (init_show m) x ≡ load8 m x
  unfolding init_show
  init_show_off m v = print_logo_off (clear_screen m) ∙ (clear_screen_lem m).1 x v
