-- ===== src/Kalloc/Chain.antt =====
-- Free pages in a chain.
use tuix_os.Base.{ℕ, ◌+◌, ◌%◌, ◌^◌, ◌≤◌, ◌<◌, ◌≡◌, ◌≢◌, ◌⊎◌, List, [], ◌∷◌, All, arith}
use tuix_os.Memory.{Mem, null, load8, load32}
use tuix_os.Memory.Laws.{load32_congr}
use tuix_os.Mmu.{pgsize}
use tuix_os.Kalloc.{Kmem}

-- A page that lies in the address space and is not at the null pointer.
pub record IsPage (p : ℕ) : Type 0 where
  pub set : p ≢ null
  pub aligned : p % pgsize ≡ 0
  pub fits : p < 2 ^ 32

-- No page is twice in the list.
abbrev pub Distinct : List ℕ → Type 0
Distinct [] = Unit
Distinct (x ∷ xs) = All (λ y. x ≢ y) xs × Distinct xs

-- From `p` the first words lead through the pages `xs` to the null pointer.
abbrev pub IsChain : Mem → ℕ → List ℕ → Type 0
IsChain m p [] = p ≡ null
IsChain m p (x ∷ xs) = (p ≡ x) × IsPage x × IsChain m (load32 m x) xs

-- The pages `xs` are free, in the order in which they will be handed out.
pub record IsFree (s : Kmem) (xs : List ℕ) : Type 0 where
  pub chain : IsChain s.mem s.freelist xs
  pub distinct : Distinct xs

-- Two memories have the same bytes but perhaps in the page at `p`.
abbrev pub SameOff : (p : ℕ) → Mem → Mem → Type 0
SameOff p m m' = (b : ℕ) → (b < p) ⊎ (p + pgsize ≤ b) → load8 m' b ≡ load8 m b

-- A word of another page is the same in both.
pub load32_off :
    (p x : ℕ) (m m' : Mem)
    → SameOff p m m'
    → p % pgsize ≡ 0
    → x % 4 ≡ 0
    → (x + 4 ≤ p) ⊎ (p + pgsize ≤ x)
    → load32 m' x ≡ load32 m x
load32_off p x m m' same a b h = load32_congr m m' x (λ c k l. same c (omega arith))

-- A change within a page that is not in the chain keeps the chain.
pub IsChain-off :
    (p : ℕ) (m m' : Mem) (r : ℕ) (xs : List ℕ)
    → SameOff p m m'
    → p % pgsize ≡ 0
    → All (λ y. p ≢ y) xs
    → IsChain m r xs
    → IsChain m' r xs
IsChain-off p m m' r [] same a h c = c
IsChain-off p m m' r (x ∷ xs) same a h c = (
  c.0,
  c.1,
  rw (load32_off p x m m' same a (omega arith) (omega arith))
      (IsChain-off p m m' (load32 m x) xs same a h.1 c.2),
)

-- A change below every page of the chain keeps the chain.
pub IsChain-above :
    (lo : ℕ) (m m' : Mem) (r : ℕ) (xs : List ℕ)
    → ((b : ℕ) → lo ≤ b → load8 m' b ≡ load8 m b)
    → All (λ y. lo ≤ y) xs
    → IsChain m r xs
    → IsChain m' r xs
IsChain-above lo m m' r [] same h c = c
IsChain-above lo m m' r (x ∷ xs) same h c =
    let here = h.0 in
    (
      c.0,
      c.1,
      rw (load32_congr m m' x (λ b k l. same b (omega (arith, here))))
          (IsChain-above lo m m' (load32 m x) xs same h.1 c.2),
    )

-- A byte of a page that is not in the chain lies outside the chain's pages.
pub chain-outside :
    (m : Mem) (r p b : ℕ) (xs : List ℕ)
    → IsChain m r xs
    → p % pgsize ≡ 0
    → p ≤ b
    → b < p + pgsize
    → All (λ y. p ≢ y) xs
    → All (λ y. (b < y) ⊎ (y + pgsize ≤ b)) xs
chain-outside m r p b [] c al lo hi ne = tt
chain-outside m r p b (x ∷ xs) c al lo hi ne =
    let al' = c.1.aligned in
    let ne' = ne.0 in (omega arith, chain-outside m (load32 m x) p b xs c.2 al lo hi ne.1)
