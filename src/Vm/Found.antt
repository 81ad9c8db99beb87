-- ===== src/Vm/Found.antt =====
-- What `walk_pgdir` of kernel/mm/vm.c returns, on each of its branches.
use tuix_os.Base.{
  ℕ, ◌+◌, ◌*◌, ◌≤◌, ◌≡◌, refl, Bool, true, false, List, [], ◌∷◌, length, All, arith, if◌then◌else◌,
  ◌==◌, ◌⊎◌, inl, inr, Bool-cases,
}
use tuix_os.Memory.{null, load8}
use tuix_os.Mmu.{pdx, ptx}
use tuix_os.Kalloc.{Kmem}
use tuix_os.Kalloc.Free.{kalloc_lem, kalloc-nil}
use tuix_os.Vm.{present, walk_pgdir}
use tuix_os.Vm.Entry.{pde_at, table_at, entry}
use tuix_os.Vm.Space.{HasTable, IsSpace, AllTables, OffPage}
use tuix_os.Vm.Walk.{
  made, made-IsSpace, made-AllTables, made-kept, made-entry, linked_has, linked_table,
}

-- `p` is the address of the entry of `va` in its table, every entry reads as before the walk, and
-- the walk took a free page only where the table was missing. It writes only to the
-- directory, its tables and the pages that were free, which the new tables are taken from.
pub record Walked (s : Kmem) (pgdir va : ℕ) (xs : List ℕ) (p : ℕ) (s' : Kmem) : Type 1 where
  pub left : List ℕ
  pub space : IsSpace s' pgdir left
  pub has : HasTable s'.mem pgdir (pdx va)
  pub at : p ≡ table_at s'.mem pgdir (pdx va) + 4 * ptx va
  pub entries : (va' : ℕ) → entry s'.mem pgdir va' ≡ entry s.mem pgdir va'
  pub cost : length xs ≡ length left + (if present (pde_at s.mem pgdir (pdx va)) then 0 else 1)
  pub within :
      (Q : ℕ → Type 0) → All Q xs → AllTables Q s.mem pgdir → All Q left × AllTables Q s'.mem pgdir
  pub kept :
      (b : ℕ)
      → OffPage b pgdir
      → All (OffPage b) xs
      → AllTables (OffPage b) s.mem pgdir
      → load8 s'.mem b ≡ load8 s.mem b

module _ (s : Kmem) (pgdir va : ℕ) where
  walk-found :
      (alloc : Bool)
      → HasTable s.mem pgdir (pdx va)
      → walk_pgdir s pgdir va alloc ≡ (table_at s.mem pgdir (pdx va) + 4 * ptx va, s)
  unfolding walk_pgdir
  walk-found alloc t = rw t

  walk-refused :
      present (pde_at s.mem pgdir (pdx va)) ≡ false → walk_pgdir s pgdir va false ≡ (null, s)
  unfolding walk_pgdir
  walk-refused t = rw t

  walk-full :
      present (pde_at s.mem pgdir (pdx va)) ≡ false
      → s.freelist ≡ null
      → walk_pgdir s pgdir va true ≡ (null, s)
  unfolding walk_pgdir
  walk-full t e = rw (t, kalloc-nil s e)

  walk-made :
      (x : ℕ) (xs : List ℕ) (v : IsSpace s pgdir (x ∷ xs))
      (t : present (pde_at s.mem pgdir (pdx va)) ≡ false)
      → walk_pgdir s pgdir va true ≡ (x + 4 * ptx va, made s pgdir va x xs v t)
  unfolding walk_pgdir
  walk-made x xs v t =
      let (taken, _, kept) = kalloc_lem s (x ∷ xs) v.free in
      let set : (x == null) ≡ false = let ne = v.free.chain.1.set in ground arith in
      rw (t, taken, set, kept)

  Walked-found :
      (alloc : Bool) (xs : List ℕ)
      → IsSpace s pgdir xs
      → HasTable s.mem pgdir (pdx va)
      → Walked s pgdir va xs (walk_pgdir s pgdir va alloc).0 (walk_pgdir s pgdir va alloc).1
  Walked-found alloc xs v t = rw (walk-found alloc t) (record {
    left = xs;
    space = v;
    has = t;
    at = refl;
    entries = λ va'. refl;
    cost = rw t (omega arith);
    within = λ Q h all. (h, all);
    kept = λ b dir h all. refl;
  })

  Walked-made :
      (x : ℕ) (xs : List ℕ)
      → IsSpace s pgdir (x ∷ xs)
      → present (pde_at s.mem pgdir (pdx va)) ≡ false
      → Walked s pgdir va (x ∷ xs) (walk_pgdir s pgdir va true).0 (walk_pgdir s pgdir va true).1
  Walked-made x xs v t = rw (walk-made x xs v t) (record {
    left = xs;
    space = made-IsSpace s pgdir va x xs v t;
    has = linked_has s pgdir va x xs v t;
    at = rw (linked_table s pgdir va x xs v t);
    entries = made-entry s pgdir va x xs v t;
    cost = rw t (omega arith);
    within = λ Q h all. (h.1, made-AllTables s pgdir va x xs v t Q h.0 all);
    kept = λ b dir h all. made-kept s pgdir va x xs v t b dir h.0;
  })

  -- How many free pages the walk to `va` takes.
  abbrev pub price : ℕ
  price = if present (pde_at s.mem pgdir (pdx va)) then 0 else 1

  -- A walk that may allocate, with a free page if the table is missing, finds the place of the
  -- entry of `va`: it links a cleared page as the table where there was none, keeps the directory,
  -- its tables and the free pages apart, and leaves every entry reading as before.
  pub walk_lem :
      (xs : List ℕ)
      → IsSpace s pgdir xs
      → price ≤ length xs
      → Walked s pgdir va xs (walk_pgdir s pgdir va true).0 (walk_pgdir s pgdir va true).1
  walk_lem xs v h = elim (Bool-cases (present (pde_at s.mem pgdir (pdx va)))) [
    | inl t ↦ Walked-found true xs v t
    | inr t ↦ by_free xs v t (rw t at h)
  ]
    where
      by_free :
          (ys : List ℕ)
          → IsSpace s pgdir ys
          → present (pde_at s.mem pgdir (pdx va)) ≡ false
          → 1 ≤ length ys
          → Walked s pgdir va ys (walk_pgdir s pgdir va true).0 (walk_pgdir s pgdir va true).1
      by_free [] w t k = absurd (omega arith)
      by_free (x ∷ ys) w t k = Walked-made x ys w t

  -- Where the table is missing, a walk that may not allocate, or finds no free page, returns null
  -- and changes nothing.
  pub walk-null :
      (alloc : Bool)
      → present (pde_at s.mem pgdir (pdx va)) ≡ false
      → (alloc ≡ false) ⊎ (s.freelist ≡ null)
      → walk_pgdir s pgdir va alloc ≡ (null, s)
  walk-null false t h = walk-refused t
  walk-null true t (inl h) = cc
  walk-null true t (inr h) = walk-full t h
