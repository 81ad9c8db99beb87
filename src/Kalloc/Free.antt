-- ===== src/Kalloc/Free.antt =====
-- `kalloc` and `kfree` of kernel/mm/kalloc.c on the list of free pages.
use tuix_os.Base.{
  ℕ, zero, suc, ◌+◌, ◌*◌, ◌/◌, ◌^◌, ◌≤◌, ◌<◌, ◌≡◌, ◌≢◌, refl, ◌⊎◌, List, [], ◌∷◌, All, arith, sym,
}
use mathlib.Core.Path.{subst}
use tuix_os.Memory.{Mem, null, load8, load32, store32}
use tuix_os.Memory.Laws.{load32-store32_self, load32-store32_ne, load8-store32_ne}
use tuix_os.Mmu.{pgsize, free_str}
use tuix_os.Kalloc.{Kmem, next, kalloc, fill, kfree}
use tuix_os.Kalloc.Chain.{IsPage, IsChain, IsFree, SameOff, IsChain-off}

fill-outside :
    (n : ℕ) (m : Mem) (p b : ℕ) → (b < p) ⊎ (p + 4 * n ≤ b) → load8 (fill n m p) b ≡ load8 m b
unfolding fill
fill-outside zero m p b h = refl
fill-outside (suc n) m p b h =
    ground (arith, fill-outside n (store32 m p free_str) (p + 4) b, load8-store32_ne m p free_str b)

fill-below : (n : ℕ) (m : Mem) (p b : ℕ) → b + 4 ≤ p → load32 (fill n m p) b ≡ load32 m b
unfolding fill
fill-below zero m p b h = refl
fill-below (suc n) m p b h =
    ground (arith, fill-below n (store32 m p free_str) (p + 4) b, load32-store32_ne m p free_str b)

fill-inside : (n : ℕ) (m : Mem) (p i : ℕ) → i < n → load32 (fill n m p) (p + 4 * i) ≡ free_str
unfolding fill
fill-inside zero m p i h = absurd (omega arith)
fill-inside (suc n) m p zero h =
    ground
      (arith, fill-below n (store32 m p free_str) (p + 4) (p + 0), load32-store32_self m p free_str)
fill-inside (suc n) m p (suc i) h = ground (arith, fill-inside n (store32 m p free_str) (p + 4) i)

pub kfree-SameOff : (s : Kmem) (p : ℕ) → SameOff p s.mem (kfree s p).mem
unfolding kfree
kfree-SameOff s p b h =
    ground (arith, load8-store32_ne (fill 1024 s.mem p) p s.freelist b, fill-outside 1024 s.mem p b)

IsChain-lt : (m : Mem) (r : ℕ) (xs : List ℕ) → IsChain m r xs → r < 2 ^ 32
IsChain-lt m r [] c = omega arith
IsChain-lt m r (x ∷ xs) c = omega arith

kfree-next : (s : Kmem) (p : ℕ) (xs : List ℕ) → IsFree s xs → load32 (kfree s p).mem p ≡ s.freelist
unfolding kfree
kfree-next s p xs v = ground (
  arith,
  load32-store32_self (fill 1024 s.mem p) p s.freelist,
  IsChain-lt s.mem s.freelist xs v.chain,
)

kfree-freelist : (s : Kmem) (p : ℕ) → (kfree s p).freelist ≡ p
unfolding kfree
kfree-freelist s p = refl

-- Freeing a page that is not in the free list puts it in front of the list, and writes no byte
-- outside that page.
pub kfree_lem :
    (s : Kmem) (p : ℕ) (xs : List ℕ)
    → IsFree s xs
    → IsPage p
    → All (λ y. p ≢ y) xs
    → IsFree (kfree s p) (p ∷ xs) × SameOff p s.mem (kfree s p).mem
kfree_lem s p xs v page out = (
  record {
    chain = (
      kfree-freelist s p,
      page,
      rw (kfree-next s p xs v) (
          IsChain-off p s.mem (kfree s p).mem s.freelist xs (kfree-SameOff s p) page.aligned out
            v.chain),
    );
    distinct = (out, v.distinct);
  },
  kfree-SameOff s p,
)

-- Behind its first word, which links it, a freed page is filled with 0xdeadbeef to its end.
pub kfree-fill :
    (s : Kmem) (p i : ℕ) → 0 < i → i < pgsize / 4 → load32 (kfree s p).mem (p + 4 * i) ≡ free_str
unfolding kfree
kfree-fill s p i pos h = ground (
  arith,
  load32-store32_ne (fill 1024 s.mem p) p s.freelist (p + 4 * i),
  fill-inside 1024 s.mem p i,
)

-- What `kalloc` takes from the free pages, and what it leaves.
abbrev pub first : List ℕ → ℕ
first [] = null
first (x ∷ xs) = x

abbrev pub rest : List ℕ → List ℕ
rest [] = []
rest (x ∷ xs) = xs

pub kalloc-nil : (s : Kmem) → s.freelist ≡ null → kalloc s ≡ (null, s)
unfolding kalloc
kalloc-nil s e = ground arith

pub kalloc-cons :
    (s : Kmem)
    → s.freelist ≢ null
    → kalloc s ≡ (s.freelist, record s { freelist = next s.mem s.freelist })
unfolding kalloc
kalloc-cons s ne = ground arith

-- `kalloc` returns the first free page, or null where none is free, leaves the other pages free
-- in their order, and writes nothing to memory.
pub kalloc_lem :
    (s : Kmem) (xs : List ℕ)
    → IsFree s xs
    → ((kalloc s).0 ≡ first xs) × IsFree (kalloc s).1 (rest xs) × ((kalloc s).1.mem ≡ s.mem)
kalloc_lem s [] v = rw (kalloc-nil s v.chain) (refl, v, refl)
kalloc_lem s (x ∷ xs) v = rw (kalloc-cons s (ground (arith, v.chain))) (
  v.chain.0,
  record {
    chain = subst (λ y. IsChain s.mem (load32 s.mem y) xs) (sym v.chain.0) v.chain.2;
    distinct = v.distinct.1;
  },
  refl,
)

-- A page that is freed is the one that the next `kalloc` returns, and the list is then the one
-- from before.
pub kalloc-kfree :
    (s : Kmem) (p : ℕ) (xs : List ℕ)
    → IsFree s xs
    → p ≢ null
    → ((kalloc (kfree s p)).0 ≡ p) × ((kalloc (kfree s p)).1.freelist ≡ s.freelist)
unfolding kalloc
kalloc-kfree s p xs v ne = ground (arith, kfree-next s p xs v, kfree-freelist s p)
