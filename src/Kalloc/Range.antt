-- ===== src/Kalloc/Range.antt =====
-- `free_range` and `kmem_size` of kernel/mm/kalloc.c.
use tuix_os.Base.{
  ℕ, zero, suc, ◌+◌, ◌-◌, ◌*◌, ◌%◌, ◌/◌, ◌^◌, ◌≤◌, ◌<◌, ◌≡◌, ◌≢◌, refl, some, List, [], ◌∷◌, All,
  length, arith,
}
use tuix_os.Memory.{Mem, null, u32, load32}
use tuix_os.Mmu.{pgsize, pg_round_up}
use tuix_os.Kalloc.{Kmem, kfree, free_range_loop, free_range, count_loop, kmem_size}
use tuix_os.Kalloc.Chain.{IsPage, IsChain, IsFree}
use tuix_os.Kalloc.Free.{kfree_lem}

-- The pages `p`, `p + PGSIZE`, ... , `n` of them, in front of `xs`, the last one first.
unfoldable pub pages_onto : (n p : ℕ) → List ℕ → List ℕ
pages_onto zero p xs = xs
pages_onto (suc n) p xs = pages_onto n (p + pgsize) (p ∷ xs)

-- How many whole pages lie between `p` and `vend`.
abbrev pub page_count : (p vend : ℕ) → ℕ
page_count p vend = (vend - p) / pgsize

-- No free page lies at or above `p`.
abbrev pub AllBelow : (p : ℕ) → List ℕ → Type 0
AllBelow p xs = All (λ y. y < p) xs

pub AllBelow-ne : (p : ℕ) (xs : List ℕ) → AllBelow p xs → All (λ y. p ≢ y) xs
AllBelow-ne p [] h = tt
AllBelow-ne p (x ∷ xs) h = (omega arith, AllBelow-ne p xs h.1)

AllBelow-mono : (p q : ℕ) (xs : List ℕ) → p ≤ q → AllBelow p xs → AllBelow q xs
AllBelow-mono p q [] le h = tt
AllBelow-mono p q (x ∷ xs) le h = (omega arith, AllBelow-mono p q xs le h.1)

-- The loop frees the whole pages between `p` and `vend`, given one round more than there are.
free_range_loop_lem :
    (n fuel : ℕ) (s : Kmem) (p vend : ℕ) (xs : List ℕ)
    → n ≡ page_count p vend
    → n < fuel
    → p ≢ null
    → p % pgsize ≡ 0
    → vend < 2 ^ 32
    → IsFree s xs
    → AllBelow p xs
    → (s' : Kmem) × (free_range_loop fuel s p vend ≡ some s') × IsFree s' (pages_onto n p xs)
unfolding free_range_loop pages_onto
free_range_loop_lem n zero s p vend xs e k ne al fits v b = absurd (omega arith)
free_range_loop_lem zero (suc fuel) s p vend xs e k ne al fits v b = (s, ground arith, v)
free_range_loop_lem (suc n) (suc fuel) s p vend xs e k ne al fits v b =
    let page : IsPage p = record { set = ne; aligned = al; fits = omega arith } in
    let (s', done, v') =
      free_range_loop_lem n fuel (kfree s p) (p + pgsize) vend (p ∷ xs) (omega arith) (omega arith)
        (omega arith) (omega arith) fits ((kfree_lem s p xs v page (AllBelow-ne p xs b)).0)
        (omega arith, AllBelow-mono p (p + pgsize) xs (omega arith) b) in
    (s', ground (arith, done), v')

-- With enough fuel `free_range` ends, and the whole pages between the rounded start and the end
-- are then free, the highest first, in front of those that were free before.
pub free_range_lem :
    (fuel : ℕ) (s : Kmem) (vstart vend : ℕ) (xs : List ℕ)
    → page_count (pg_round_up vstart) vend < fuel
    → pg_round_up vstart ≢ null
    → vend < 2 ^ 32
    → IsFree s xs
    → AllBelow (pg_round_up vstart) xs
    → (s' : Kmem) × (free_range fuel s vstart vend ≡ some s')
      × IsFree s' (pages_onto (page_count (pg_round_up vstart) vend) (pg_round_up vstart) xs)
unfolding free_range
free_range_lem fuel s vstart vend xs k ne fits v b =
    free_range_loop_lem (page_count (pg_round_up vstart) vend) fuel s (pg_round_up vstart) vend xs
      refl k ne (omega arith) fits v b

count_loop_lem :
    (fuel : ℕ) (m : Mem) (r c : ℕ) (xs : List ℕ)
    → IsChain m r xs
    → length xs < fuel
    → c < 2 ^ 32
    → count_loop fuel m r c ≡ some (u32 (c + length xs))
unfolding count_loop
count_loop_lem zero m r c xs v k h = absurd (omega arith)
count_loop_lem (suc fuel) m r c [] v k h = ground arith
count_loop_lem (suc fuel) m r c (x ∷ xs) v k h =
    let ih : count_loop fuel m (load32 m x) (u32 (c + 1)) ≡ some (u32 (u32 (c + 1) + length xs)) =
      count_loop_lem fuel m (load32 m x) (u32 (c + 1)) xs v.2 (omega arith) (omega arith) in
    rw v.0 (ground (arith, ih))

-- With more fuel than there are free pages `kmem_size` ends, with their size in bytes modulo
-- 2 ^ 32.
pub kmem_size_lem :
    (fuel : ℕ) (s : Kmem) (xs : List ℕ)
    → IsFree s xs
    → length xs < fuel
    → kmem_size fuel s ≡ some (u32 (length xs * pgsize))
unfolding kmem_size
kmem_size_lem fuel s xs v k = ground (arith, count_loop_lem fuel s.mem s.freelist 0 xs v.chain k)

pub length-pages_onto : (n p : ℕ) (xs : List ℕ) → length (pages_onto n p xs) ≡ n + length xs
unfolding pages_onto
length-pages_onto zero p xs = omega arith
length-pages_onto (suc n) p xs = omega (arith, length-pages_onto n (p + pgsize) (p ∷ xs))

-- From an empty free list, `free_range` and then `kmem_size`, with enough fuel, report the
-- size of the whole pages of the range.
pub kmem_size-free_range :
    (fuel : ℕ) (s : Kmem) (vstart vend : ℕ)
    → page_count (pg_round_up vstart) vend < fuel
    → pg_round_up vstart ≢ null
    → vend < 2 ^ 32
    → s.freelist ≡ null
    → (s' : Kmem) × (free_range fuel s vstart vend ≡ some s')
      × (kmem_size fuel s' ≡ some (page_count (pg_round_up vstart) vend * pgsize))
kmem_size-free_range fuel s vstart vend k ne fits e =
    let n : ℕ = page_count (pg_round_up vstart) vend in
    let none_free : IsFree s [] = record { chain = e; distinct = tt } in
    let (s', done, v) = free_range_lem fuel s vstart vend [] k ne fits none_free tt in
    let counted =
      kmem_size_lem fuel s' (pages_onto n (pg_round_up vstart) []) v
        (omega (arith, length-pages_onto n (pg_round_up vstart) [])) in
    (s', done, ground (arith, counted, length-pages_onto n (pg_round_up vstart) []))
