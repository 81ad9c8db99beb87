-- ===== src/Str/Blocks.antt =====
-- `memset`, `memcpy`, `memmove` and `memcmp` of lib/string.c.
pub mod Laws
use tuix_os.Base.{ℕ, zero, suc, ◌+◌, ◌-◌, Bool, ◌||◌, ltb, ◌==◌, if◌then◌else◌}
use tuix_os.Base.Int.{ℤ, pos, negsuc}
use tuix_os.Memory.{Mem, null, load8, store8}

-- `for (i = 0; i < count; i++) *temp++ = (char)val;`
memset_loop : ℕ → Mem → ℕ → ℕ → Mem
memset_loop zero m temp val = m
memset_loop (suc count) m temp val = memset_loop count (store8 m temp val) (temp + 1) val

-- `val` is the bit pattern of the `int`.
unfoldable pub memset : Mem → (dst val count : ℕ) → ℕ × Mem
unfolding memset_loop
memset m dst val count = if dst == null then (null, m) else (dst, memset_loop count m dst val)

-- `while (count--) *d++ = *s++;`
copy_up : ℕ → Mem → (d s : ℕ) → Mem
copy_up zero m d s = m
copy_up (suc count) m d s = copy_up count (store8 m d (load8 m s)) (d + 1) (s + 1)

-- `while (count--) *--d = *--s;`, from the ends `d` and `s`
copy_down : ℕ → Mem → (d s : ℕ) → Mem
copy_down zero m d s = m
copy_down (suc count) m d s = copy_down count (store8 m (d - 1) (load8 m (s - 1))) (d - 1) (s - 1)

unfoldable pub memcpy : Mem → (dst src count : ℕ) → ℕ × Mem
unfolding copy_up
memcpy m dst src count =
    if (dst == null) || (src == null)
    then (null, m)
    else if count == 0
    then (dst, m)
    else (dst, copy_up count m dst src)

unfoldable pub memmove : Mem → (dst src count : ℕ) → ℕ × Mem
unfolding copy_up copy_down
memmove m dst src count =
    if (dst == null) || (src == null)
    then (null, m)
    else if (count == 0) || (dst == src)
    then (dst, m)
    else if ltb dst src
    then (dst, copy_up count m dst src)
    else (dst, copy_down count m (dst + count) (src + count))

memcmp_loop : ℕ → Mem → (p1 p2 : ℕ) → ℤ
memcmp_loop zero m p1 p2 = pos 0
memcmp_loop (suc count) m p1 p2 =
    let rest = memcmp_loop count m (p1 + 1) (p2 + 1) in
    if load8 m p1 == load8 m p2
    then rest
    else if ltb (load8 m p1) (load8 m p2)
    then negsuc 0
    else pos 1

unfoldable pub memcmp : Mem → (ptr1 ptr2 count : ℕ) → ℤ
unfolding memcmp_loop
memcmp m ptr1 ptr2 count =
    if (ptr1 == null) || (ptr2 == null)
    then negsuc 0
    else if count == 0
    then pos 0
    else memcmp_loop count m ptr1 ptr2
