-- ===== src/Str/Chars.antt =====
-- The functions on zero-ended strings of lib/string.c, and `strlen` of include/string.h. A loop that
-- runs to the end of a string has fuel, and gives none when it is short. A `char` is its bit pattern.
pub mod Laws
pub mod Reverse
pub mod Copy
pub mod Search
use tuix_os.Base.{
  ℕ, zero, suc, ◌+◌, ◌-◌, Bool, true, false, not, ◌&&◌, ◌||◌, ltb, ◌==◌, if◌then◌else◌, Option,
  none, some, ◌/◌,
}
use tuix_os.Base.Int.{ℤ, pos, sub_ℕ}
use tuix_os.Memory.{Mem, null, u8, load8, store8}

-- `while (str[len] != '\0') len++;`
strlen_loop : ℕ → Mem → (str len : ℕ) → Option ℕ
strlen_loop zero m str len = none
strlen_loop (suc fuel) m str len =
    let rest = strlen_loop fuel m str (len + 1) in
    if load8 m (str + len) == 0 then some len else rest

unfoldable pub strlen : (fuel : ℕ) → Mem → ℕ → Option ℕ
unfolding strlen_loop
strlen fuel m str = strlen_loop fuel m str 0

-- `while ((*dst++ = *src++) != 0);`
strcpy_loop : ℕ → Mem → (dst src : ℕ) → Option Mem
strcpy_loop zero m dst src = none
strcpy_loop (suc fuel) m dst src =
    let c = load8 m src in
    let m' = store8 m dst c in
    let rest = strcpy_loop fuel m' (dst + 1) (src + 1) in if c == 0 then some m' else rest

unfoldable pub strcpy : (fuel : ℕ) → Mem → (dst src : ℕ) → Option (ℕ × Mem)
unfolding strcpy_loop
strcpy fuel m dst src = elim (strcpy_loop fuel m dst src) [ none ↦ none | some m' ↦ some (dst, m') ]

-- The two loops of `strncpy`: the copy turns into the padding at the end of the source.
pad : ℕ → Mem → (d : ℕ) → Mem
pad zero m d = m
pad (suc n) m d = pad n (store8 m d 0) (d + 1)

strncpy_loop : ℕ → Mem → (d s : ℕ) → Mem
unfolding pad
strncpy_loop zero m d s = m
strncpy_loop (suc n) m d s =
    let rest = strncpy_loop n (store8 m d (load8 m s)) (d + 1) (s + 1) in
    if load8 m s == 0 then pad (suc n) m d else rest

unfoldable pub strncpy : Mem → (dst src n : ℕ) → ℕ × Mem
unfolding strncpy_loop
strncpy m dst src n = (dst, strncpy_loop n m dst src)

unfoldable pub strcat : (fuel : ℕ) → Mem → (dst src : ℕ) → Option (ℕ × Mem)
unfolding strlen strcpy_loop
strcat fuel m dst src = elim (strlen fuel m dst) [
  | none ↦ none
  | some len ↦ elim (strcpy_loop fuel m (dst + len) src) [ none ↦ none | some m' ↦ some (dst, m') ]
]

-- `while (n > 0 && (*dst++ = *src++) != '\0') n--;`, and the store of the zero behind it
strncat_loop : ℕ → Mem → (dst src : ℕ) → Mem
strncat_loop zero m dst src = store8 m dst 0
strncat_loop (suc n) m dst src =
    let c = load8 m src in
    let m' = store8 m dst c in
    let rest = strncat_loop n m' (dst + 1) (src + 1) in
    if c == 0 then store8 m' (dst + 1) 0 else rest

unfoldable pub strncat : (fuel : ℕ) → Mem → (dst src n : ℕ) → Option (ℕ × Mem)
unfolding strlen strncat_loop
strncat fuel m dst src n = elim (strlen fuel m dst) [
  | none ↦ none
  | some len ↦ some (dst, strncat_loop n m (dst + len) src)
]

unfoldable pub strcmp : (fuel : ℕ) → Mem → (s1 s2 : ℕ) → Option ℤ
strcmp zero m s1 s2 = none
strcmp (suc fuel) m s1 s2 =
    let rest = strcmp fuel m (s1 + 1) (s2 + 1) in
    if not (load8 m s1 == 0) && (load8 m s1 == load8 m s2)
    then rest
    else some (sub_ℕ (load8 m s1) (load8 m s2))

-- `n` is one less than the count of `strncmp`.
strncmp_loop : (n : ℕ) → Mem → (s1 s2 : ℕ) → ℤ
strncmp_loop zero m s1 s2 = sub_ℕ (load8 m s1) (load8 m s2)
strncmp_loop (suc n) m s1 s2 =
    let rest = strncmp_loop n m (s1 + 1) (s2 + 1) in
    if not (load8 m s1 == 0) && (load8 m s1 == load8 m s2)
    then rest
    else sub_ℕ (load8 m s1) (load8 m s2)

unfoldable pub strncmp : Mem → (s1 s2 n : ℕ) → ℤ
unfolding strncmp_loop
strncmp m s1 s2 zero = pos 0
strncmp m s1 s2 (suc n) = strncmp_loop n m s1 s2

unfoldable pub strchr : (fuel : ℕ) → Mem → (s c : ℕ) → Option ℕ
strchr zero m s c = none
strchr (suc fuel) m s c =
    let rest = strchr fuel m (s + 1) c in
    if load8 m s == 0
    then some (if load8 m s == u8 c then s else null)
    else if load8 m s == u8 c
    then some s
    else rest

strrchr_loop : ℕ → Mem → (s c last : ℕ) → Option ℕ
strrchr_loop zero m s c last = none
strrchr_loop (suc fuel) m s c last =
    let rest = strrchr_loop fuel m (s + 1) c (if load8 m s == u8 c then s else last) in
    if load8 m s == 0 then some (if load8 m s == u8 c then s else last) else rest

unfoldable pub strrchr : (fuel : ℕ) → Mem → (s c : ℕ) → Option ℕ
unfolding strrchr_loop
strrchr fuel m s c = strrchr_loop fuel m s c null

-- The inner loop of `strstr`: whether `needle` stands at `haystack`.
stands_at : (fuel : ℕ) → Mem → (h n : ℕ) → Option Bool
stands_at zero m h n = none
stands_at (suc fuel) m h n =
    let rest = stands_at fuel m (h + 1) (n + 1) in
    if not (load8 m h == 0) && not (load8 m n == 0) && (load8 m h == load8 m n)
    then rest
    else some (load8 m n == 0)

strstr_loop : (fuel rounds : ℕ) → Mem → (haystack needle : ℕ) → Option ℕ
unfolding stands_at
strstr_loop fuel zero m haystack needle = none
strstr_loop fuel (suc rounds) m haystack needle =
    let rest = strstr_loop fuel rounds m (haystack + 1) needle in
    if load8 m haystack == 0 then some null else elim (stands_at fuel m haystack needle) [
      | none ↦ none
      | some b ↦ if b then some haystack else rest
    ]

unfoldable pub strstr : (fuel : ℕ) → Mem → (haystack needle : ℕ) → Option ℕ
unfolding strstr_loop
strstr fuel m haystack needle =
    if load8 m needle == 0 then some haystack else strstr_loop fuel fuel m haystack needle

-- The second loop of `reverse_str`, from `i` on with `rounds` to go.
swap_ends : (rounds : ℕ) → Mem → (str i len : ℕ) → Mem
swap_ends zero m str i len = m
swap_ends (suc rounds) m str i len =
    let temp = load8 m (str + i) in
    let m' = store8 m (str + i) (load8 m (str + (len - 1 - i))) in
    swap_ends rounds (store8 m' (str + (len - 1 - i)) temp) str (i + 1) len

unfoldable pub reverse_str : (fuel : ℕ) → Mem → (str : ℕ) → Option Mem
unfolding strlen swap_ends
reverse_str fuel m str = elim (strlen fuel m str) [
  | none ↦ none
  | some len ↦ some (swap_ends (len / 2) m str 0 len)
]
