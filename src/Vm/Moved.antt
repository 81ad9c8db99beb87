-- ===== src/Vm/Moved.antt =====
-- An address space of kernel/mm/vm.c stays as it is while memory changes outside its pages.
use tuix_os.Base.{ℕ, ◌+◌, ◌*◌, ◌≤◌, ◌<◌, ◌≡◌, ◌≢◌, List, All, arith, Bool-cases, inl, inr}
use tuix_os.Memory.{load8, load32}
use tuix_os.Memory.Laws.{load32_congr}
use tuix_os.Mmu.{pgsize, pdx, ptx}
use tuix_os.Kalloc.{Kmem}
use tuix_os.Kalloc.Chain.{IsFree}
use tuix_os.Vm.{present}
use tuix_os.Vm.Entry.{pde_at, table_at, entry_at, entry}
use tuix_os.Vm.Space.{IsSpace, AllTables}

-- The bytes of the page at `p` are the same in both states.
abbrev pub SamePage : (s s' : Kmem) (p : ℕ) → Type 0
SamePage s s' p = (b : ℕ) → p ≤ b → b < p + pgsize → load8 s'.mem b ≡ load8 s.mem b

pub SamePage-word :
    (s s' : Kmem) (p i : ℕ)
    → SamePage s s' p
    → i < 1024
    → load32 s'.mem (p + 4 * i) ≡ load32 s.mem (p + 4 * i)
SamePage-word s s' p i same h =
    load32_congr s.mem s'.mem (p + 4 * i) (λ b l u. same b (omega arith) (omega arith))

module _ (s s' : Kmem) (pgdir : ℕ) (xs ys : List ℕ) (v : IsSpace s pgdir xs)
    (dir : SamePage s s' pgdir) (tables : AllTables (SamePage s s') s.mem pgdir) where
  same_pde : (i : ℕ) → i < 1024 → pde_at s'.mem pgdir i ≡ pde_at s.mem pgdir i
  same_pde i h = SamePage-word s s' pgdir i dir h

  moved-entry_at :
      (i j : ℕ) → i < 1024 → j < 1024 → entry_at s'.mem pgdir i j ≡ entry_at s.mem pgdir i j
  moved-entry_at i j hi hj =
      rw (same_pde i hi) (elim (Bool-cases (present (pde_at s.mem pgdir i))) [
        | inl t ↦ rw t (SamePage-word s s' (table_at s.mem pgdir i) j (tables i hi t) hj)
        | inr t ↦ rw t
      ])

  pub moved-entry : (va : ℕ) → entry s'.mem pgdir va ≡ entry s.mem pgdir va
  unfolding entry
  moved-entry va = moved-entry_at (pdx va) (ptx va) (omega arith) (omega arith)

  pub moved-AllTables : (Q : ℕ → Type 0) → AllTables Q s.mem pgdir → AllTables Q s'.mem pgdir
  moved-AllTables Q all i h t = rw (same_pde i h) (all i h (rw (same_pde i h) at t))

  pub moved-IsSpace :
      IsFree s' ys
      → All (λ y. pgdir ≢ y) ys
      → AllTables (λ t. All (λ y. t ≢ y) ys) s.mem pgdir
      → IsSpace s' pgdir ys
  moved-IsSpace free used apart = record {
    free = free;
    page = v.page;
    used = used;
    table = λ i h t.
        let has = rw (same_pde i h) at t in
        let old = v.table i h has in
        rw (same_pde i h)
          (record { page = old.page; ne_pgdir = old.ne_pgdir; used = apart i h has });
    apart = λ i j hi hj ti tj e.
        v.apart i j hi hj (rw (same_pde i hi) at ti) (rw (same_pde j hj) at tj)
          (rw (same_pde i hi, same_pde j hj) at e);
    user = λ i h t. rw (same_pde i h) (v.user i h (rw (same_pde i h) at t));
  }
