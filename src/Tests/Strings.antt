-- ===== src/Tests/Strings.antt =====
-- The functions of lib/string.c on a small memory.
use tuix_os.Base.{ℕ, ◌+◌, ◌-◌, ◌<◌, ◌≡◌, ◌⊎◌, refl, some, ◌==◌, if◌then◌else◌, [], ◌∷◌, arith}
use tuix_os.Memory.{Mem, load8}
use tuix_os.Str.Blocks.{memmove}
use tuix_os.Str.Blocks.Laws.{in_block, memmove_lem}
use tuix_os.Str.Chars.{strcat, strstr}
use tuix_os.Str.Chars.Laws.{IsString}
use tuix_os.Str.Chars.Copy.{strcat_lem}
use tuix_os.Str.Chars.Search.{strstr_lem}

-- "ab" at 100, and "a" at 200.
abbrev bytes : Mem
bytes a = if a == 100 then 0x61 else if a == 101 then 0x62 else if a == 200 then 0x61 else 0

ab : IsString bytes 100 (0x61 ∷ 0x62 ∷ [])
unfolding load8
ab = (refl, omega arith, (refl, omega arith, refl))

a : IsString bytes 200 (0x61 ∷ [])
unfolding load8
a = (refl, omega arith, refl)

memmove_example :
    ((memmove bytes 101 100 2).0 ≡ 101)
    × (load8 (memmove bytes 101 100 2).1 102
        ≡ (if in_block 101 2 102 then load8 bytes (100 + (102 - 101)) else load8 bytes 102))
memmove_example = memmove_lem bytes 101 100 2 102 (omega arith) (omega arith)

strcat_example :
    (m' : Mem) × (strcat 3 bytes 100 200 ≡ some (100, m'))
    × IsString m' 100 (0x61 ∷ 0x62 ∷ 0x61 ∷ [])
    × ((b : ℕ) → (b < 100 + 2) ⊎ (100 + 2 + 1 < b) → load8 m' b ≡ load8 bytes b)
strcat_example =
    strcat_lem 3 bytes 100 200 (0x61 ∷ 0x62 ∷ []) (0x61 ∷ []) ab a (omega arith) (omega arith)
      (omega arith)

strstr_example : strstr 3 bytes 100 200 ≡ some 100
strstr_example =
    strstr_lem 3 bytes 100 200 (0x61 ∷ 0x62 ∷ []) (0x61 ∷ []) ab a (omega arith) (omega arith)
