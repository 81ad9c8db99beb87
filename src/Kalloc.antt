-- ===== src/Kalloc.antt =====
-- The page-frame allocator, kernel/mm/kalloc.c: free pages are linked through their first word.
-- A pointer in the loop of `free_range` is not wrapped: the range ends below the top page.
pub mod Chain
pub mod Free
pub mod Range
pub mod Span
use tuix_os.Base.{ℕ, zero, suc, ◌+◌, ◌*◌, ◌/◌, Option, none, some, leb, ◌==◌, if◌then◌else◌}
use tuix_os.Memory.{Mem, null, u32, load32, store32}
use tuix_os.Mmu.{pgsize, free_str, pg_round_up}

-- The memory with the global `kmem`.
pub record Kmem : Type 0 where
  pub mem : Mem
  pub freelist : ℕ

-- `r->next` of a `struct run`
abbrev pub next : Mem → ℕ → ℕ
next m r = load32 m r

-- The result is the page, or null.
unfoldable pub kalloc : Kmem → ℕ × Kmem
kalloc s =
    if s.freelist == null
    then (null, s)
    else (s.freelist, record s { freelist = next s.mem s.freelist })

-- `for (i = 0; i < PGSIZE / sizeof(uint32_t); i++) p[i] = FREE_STR;` with `n` rounds left
fill : ℕ → Mem → (p : ℕ) → Mem
fill zero m p = m
fill (suc n) m p = fill n (store32 m p free_str) (p + 4)

unfoldable pub kfree : Kmem → ℕ → Kmem
unfolding fill
kfree s ptr = record { mem = store32 (fill (pgsize / 4) s.mem ptr) ptr s.freelist; freelist = ptr }

-- `for (; p + PGSIZE <= vend; p += PGSIZE) kfree(p);` with fuel. `none` means that it ran out.
free_range_loop : ℕ → Kmem → (p vend : ℕ) → Option Kmem
free_range_loop zero s p vend = none
free_range_loop (suc fuel) s p vend =
    let rest = free_range_loop fuel (kfree s p) (p + pgsize) vend in
    if leb (p + pgsize) vend then rest else some s

unfoldable pub free_range : (fuel : ℕ) → Kmem → (vstart vend : ℕ) → Option Kmem
unfolding free_range_loop
free_range fuel s vstart vend = free_range_loop fuel s (pg_round_up vstart) vend

unfoldable pub init_physical_memory : (fuel : ℕ) → Kmem → (vstart vend : ℕ) → Option Kmem
unfolding free_range
init_physical_memory fuel s vstart vend = free_range fuel s vstart vend

-- `while (r != NULL) { r = r->next; count++; }` with fuel
count_loop : ℕ → Mem → (r count : ℕ) → Option ℕ
count_loop zero m r count = none
count_loop (suc fuel) m r count =
    let rest = count_loop fuel m (next m r) (u32 (count + 1)) in
    if r == null then some count else rest

unfoldable pub kmem_size : (fuel : ℕ) → Kmem → Option ℕ
unfolding count_loop
kmem_size fuel s = elim (count_loop fuel s.mem s.freelist 0) [
  | none ↦ none
  | some c ↦ some (u32 (c * pgsize))
]
