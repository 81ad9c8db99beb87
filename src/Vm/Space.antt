-- ===== src/Vm/Space.antt =====
-- Address spaces of kernel/mm/vm.c: a page directory and its tables lie in pages of their own, off
-- the free list, and a store into one word changes one entry.
use tuix_os.Base.{
  ℕ, ◌+◌, ◌*◌, ◌/◌, ◌%◌, ◌^◌, ◌≤◌, ◌<◌, ◌≡◌, ◌≢◌, ◌⊎◌, true, List, All, arith, ◌==◌, if◌then◌else◌,
  ℕ_discrete, Bool-cases, inl, inr, ◌∙◌,
}
use mathlib.Core.Path.{ap₂}
use tuix_os.Memory.{Mem, u32, load8, load32, store32}
use tuix_os.Memory.Laws.{load32-store32_self, load32-store32_ne, load8-store32_ne}
use tuix_os.Mmu.{pgsize, pdx, ptx}
use tuix_os.Kalloc.{Kmem}
use tuix_os.Kalloc.Chain.{IsPage, IsFree, SameOff, load32_off, IsChain-off}
use tuix_os.Vm.{present}
use tuix_os.Vm.Entry.{pde_at, table_at, entry_at, entry}

-- The directory at `pgdir` has the `i`-th table.
abbrev pub HasTable : Mem → (pgdir i : ℕ) → Type 0
HasTable m pgdir i = present (pde_at m pgdir i) ≡ true

-- A page table lies at `t`: the page is neither the directory nor free.
pub record IsTable (t pgdir : ℕ) (xs : List ℕ) : Type 0 where
  pub page : IsPage t
  pub ne_pgdir : t ≢ pgdir
  pub used : All (λ y. t ≢ y) xs

-- The directory at `pgdir` with its tables, beside the free pages `xs`. Each word that links a table
-- has the bits for present, writable and user.
pub record IsSpace (s : Kmem) (pgdir : ℕ) (xs : List ℕ) : Type 0 where
  pub free : IsFree s xs
  pub page : IsPage pgdir
  pub used : All (λ y. pgdir ≢ y) xs
  pub table :
      (i : ℕ) → i < 1024 → HasTable s.mem pgdir i → IsTable (table_at s.mem pgdir i) pgdir xs
  pub apart :
      (i j : ℕ)
      → i < 1024
      → j < 1024
      → HasTable s.mem pgdir i
      → HasTable s.mem pgdir j
      → table_at s.mem pgdir i ≡ table_at s.mem pgdir j
      → i ≡ j
  pub user : (i : ℕ) → i < 1024 → HasTable s.mem pgdir i → pde_at s.mem pgdir i % 8 ≡ 7

-- Every table of the directory has `Q`.
abbrev pub AllTables : (ℕ → Type 0) → Mem → (pgdir : ℕ) → Type 0
AllTables Q m pgdir = (i : ℕ) → i < 1024 → HasTable m pgdir i → Q (table_at m pgdir i)

-- The byte at `b` lies outside the page at `p`.
abbrev pub OffPage : (b p : ℕ) → Type 0
OffPage b p = (b < p) ⊎ (p + pgsize ≤ b)

-- A word store inside the page at `p`.
pub store32-SameOff :
    (m : Mem) (p a v : ℕ) → p ≤ a → a + 4 ≤ p + pgsize → SameOff p m (store32 m a v)
store32-SameOff m p a v lo hi b h = load8-store32_ne m a v b (omega arith)

-- Directory words stay where a change is off the directory's page.
pub pde_at-off :
    (p : ℕ) (m m' : Mem) (pgdir i : ℕ)
    → SameOff p m m'
    → p % pgsize ≡ 0
    → pgdir % pgsize ≡ 0
    → p ≢ pgdir
    → i < 1024
    → pde_at m' pgdir i ≡ pde_at m pgdir i
pde_at-off p m m' pgdir i same al al' ne h =
    load32_off p (pgdir + 4 * i) m m' same al (omega arith) (omega arith)

-- A change inside the page of a table keeps the address space: every other page that it is made
-- of is untouched.
module _ (s : Kmem) (m' : Mem) (pgdir p : ℕ) (xs : List ℕ) (v : IsSpace s pgdir xs)
    (same : SameOff p s.mem m') (aligned : p % pgsize ≡ 0) (off : p ≢ pgdir)
    (used : All (λ y. p ≢ y) xs) where
  pde_same : (i : ℕ) → i < 1024 → pde_at m' pgdir i ≡ pde_at s.mem pgdir i
  pde_same i h = pde_at-off p s.mem m' pgdir i same aligned v.page.aligned off h

  pub IsSpace-inside : IsSpace (record s { mem = m' }) pgdir xs
  IsSpace-inside = record {
    free = record {
      chain = IsChain-off p s.mem m' s.freelist xs same aligned used v.free.chain;
      distinct = v.free.distinct;
    };
    page = v.page;
    used = v.used;
    table = λ i h t. rw (pde_same i h) (v.table i h (rw (pde_same i h) at t));
    apart = λ i j hi hj ti tj e.
        v.apart i j hi hj (rw (pde_same i hi) at ti) (rw (pde_same j hj) at tj)
          (rw (pde_same i hi, pde_same j hj) at e);
    user = λ i h t. rw (pde_same i h) (v.user i h (rw (pde_same i h) at t));
  }

-- A write of the entry of `va`, where its table is there.
module _ (s : Kmem) (pgdir va w : ℕ) (xs : List ℕ) (v : IsSpace s pgdir xs)
    (has : HasTable s.mem pgdir (pdx va)) where
  abbrev slot : ℕ
  slot = table_at s.mem pgdir (pdx va) + 4 * ptx va

  abbrev written : Mem
  written = store32 s.mem slot w

  own : IsTable (table_at s.mem pgdir (pdx va)) pgdir xs
  own = v.table (pdx va) (omega arith) has

  same_off : SameOff (table_at s.mem pgdir (pdx va)) s.mem written
  same_off = store32-SameOff s.mem _ slot w (omega arith) (omega arith)

  pub write-IsSpace : IsSpace (record s { mem = written }) pgdir xs
  write-IsSpace =
      IsSpace-inside s written pgdir (table_at s.mem pgdir (pdx va)) xs v same_off own.page.aligned
        own.ne_pgdir own.used

  pub written_pde : (i : ℕ) → i < 1024 → pde_at written pgdir i ≡ pde_at s.mem pgdir i
  written_pde =
      pde_same s written pgdir (table_at s.mem pgdir (pdx va)) xs v same_off own.page.aligned
        own.ne_pgdir own.used

  pub write-AllTables : (Q : ℕ → Type 0) → AllTables Q s.mem pgdir → AllTables Q written pgdir
  write-AllTables Q all i h t = rw (written_pde i h) (all i h (rw (written_pde i h) at t))

  pub write-kept : (b : ℕ) → AllTables (OffPage b) s.mem pgdir → load8 written b ≡ load8 s.mem b
  write-kept b all = same_off b (all (pdx va) (omega arith) has)

  -- No other entry lies at the slot.
  slot_other :
      (i j : ℕ)
      → i < 1024
      → j < 1024
      → HasTable s.mem pgdir i
      → (i ≢ pdx va) ⊎ (j ≢ ptx va)
      → load32 written (table_at s.mem pgdir i + 4 * j)
        ≡ load32 s.mem (table_at s.mem pgdir i + 4 * j)
  slot_other i j hi hj t ne = elim (ℕ_discrete i (pdx va)) [
    | yes e ↦
        let same_table : table_at s.mem pgdir i ≡ table_at s.mem pgdir (pdx va) = rw e in
        load32-store32_ne s.mem slot w (table_at s.mem pgdir i + 4 * j) (omega arith)
    | no d ↦
        let other_table : table_at s.mem pgdir i ≢ table_at s.mem pgdir (pdx va) =
          λ e. d (v.apart i (pdx va) hi (omega arith) t has e) in
        let there = (v.table i hi t).page.aligned in
        let here = own.page.aligned in
        load32-store32_ne s.mem slot w (table_at s.mem pgdir i + 4 * j) (omega arith)
  ]

  entry-written_self : w < 2 ^ 32 → entry_at written pgdir (pdx va) (ptx va) ≡ w
  entry-written_self fits =
      rw (written_pde (pdx va) (omega arith), has)
        (load32-store32_self s.mem slot w ∙ (omega arith))

  entry-written_ne :
      (i j : ℕ)
      → i < 1024
      → j < 1024
      → (i ≢ pdx va) ⊎ (j ≢ ptx va)
      → entry_at written pgdir i j ≡ entry_at s.mem pgdir i j
  entry-written_ne i j hi hj ne =
      rw (written_pde i hi) (elim (Bool-cases (present (pde_at s.mem pgdir i))) [
        | inl t ↦ rw t (slot_other i j hi hj t ne)
        | inr t ↦ rw t
      ])

  -- The entry of `va` is the word, and the entries of all other pages are as before.
  pub write-entry :
      (va' : ℕ)
      → w < 2 ^ 32
      → entry written pgdir va'
        ≡ (if u32 va' / pgsize == u32 va / pgsize then w else entry s.mem pgdir va')
  unfolding entry
  write-entry va' fits = elim (Bool-cases (u32 va' / pgsize == u32 va / pgsize)) [
    | inl e ↦
        let high : pdx va' ≡ pdx va = ground arith in
        let low : ptx va' ≡ ptx va = ground arith in
        rw e (ap₂ (entry_at written pgdir) high low ∙ entry-written_self fits)
    | inr d ↦ rw d (entry-written_ne (pdx va') (ptx va') (omega arith) (omega arith) (ground arith))
  ]
