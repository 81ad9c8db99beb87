-- ===== src/Vm/Walk.antt =====
-- `walk_pgdir` of kernel/mm/vm.c: the table of an address is found, or made.
use tuix_os.Base.{
  ℕ, ◌%◌, ◌+◌, ◌*◌, ◌<◌, ◌≡◌, ◌≢◌, false, List, ◌∷◌, arith, ℕ_discrete, Bool-cases, inl, inr, ◌∙◌,
  sym,
}
use tuix_os.Bits.{bit_or}
use tuix_os.Memory.{Mem, null, load8, load32, store32}
use tuix_os.Memory.Laws.{load32-store32_self, load32-store32_ne}
use tuix_os.Mmu.{pgsize, pdx, ptx, v2p, pte_p, pte_w, pte_u}
use tuix_os.Str.Blocks.{memset}
use tuix_os.Str.Blocks.Laws.{memset_lem}
use tuix_os.Kalloc.{Kmem, kalloc}
use tuix_os.Kalloc.Chain.{IsPage, IsFree, SameOff, load32_off, IsChain-off}
use tuix_os.Kalloc.Free.{kalloc_lem}
use tuix_os.Vm.{present}
use tuix_os.Vm.Entry.{pde_at, table_at, entry_at, entry, directory_word, table_word}
use tuix_os.Vm.Space.{HasTable, IsTable, IsSpace, AllTables, OffPage, store32-SameOff, pde_at-off}

-- A page that `memset` has cleared.
abbrev pub cleared : Mem → (page : ℕ) → Mem
cleared m page = (memset m page 0 pgsize).1

pub cleared-SameOff : (m : Mem) (page : ℕ) → page ≢ null → SameOff page m (cleared m page)
cleared-SameOff m page ne b h = ground (arith, memset_lem m page 0 pgsize b ne)

pub cleared-word :
    (m : Mem) (page j : ℕ) → page ≢ null → j < 1024 → load32 (cleared m page) (page + 4 * j) ≡ 0
unfolding load32
cleared-word m page j ne h = ground (
  arith,
  memset_lem m page 0 pgsize (page + 4 * j) ne,
  memset_lem m page 0 pgsize (page + 4 * j + 1) ne,
  memset_lem m page 0 pgsize (page + 4 * j + 2) ne,
  memset_lem m page 0 pgsize (page + 4 * j + 3) ne,
)

-- A missing table is made in the first free page.
module _ (s : Kmem) (pgdir va x : ℕ) (xs : List ℕ) (v : IsSpace s pgdir (x ∷ xs))
    (missing : present (pde_at s.mem pgdir (pdx va)) ≡ false) where
  abbrev pub word : ℕ
  word = bit_or (bit_or (bit_or (v2p x) pte_p) pte_w) pte_u

  abbrev pub zeroed : Mem
  zeroed = cleared s.mem x

  abbrev pub linked : Mem
  linked = store32 zeroed (pgdir + 4 * pdx va) word

  abbrev pub made : Kmem
  made = record { mem = linked; freelist = (kalloc s).1.freelist }

  pub x-IsPage : IsPage x
  x-IsPage = v.free.chain.1

  word-eq : word ≡ v2p x + 7
  word-eq = directory_word (v2p x) (let al = x-IsPage.aligned in omega arith)

  zeroed_off : SameOff x s.mem zeroed
  zeroed_off = cleared-SameOff s.mem x x-IsPage.set

  linked_off : SameOff pgdir zeroed linked
  linked_off = store32-SameOff zeroed pgdir (pgdir + 4 * pdx va) word (omega arith) (omega arith)

  x_ne_pgdir : x ≢ pgdir
  x_ne_pgdir e = v.used.0 (sym e)

  zeroed_pde : (i : ℕ) → i < 1024 → pde_at zeroed pgdir i ≡ pde_at s.mem pgdir i
  zeroed_pde i h =
      pde_at-off x s.mem zeroed pgdir i zeroed_off x-IsPage.aligned v.page.aligned x_ne_pgdir h

  linked_pde : pde_at linked pgdir (pdx va) ≡ v2p x + 7
  linked_pde =
      ground
        (arith, load32-store32_self zeroed (pgdir + 4 * pdx va) word, word-eq, x-IsPage.aligned)

  linked_pde_ne : (i : ℕ) → i < 1024 → i ≢ pdx va → pde_at linked pgdir i ≡ pde_at s.mem pgdir i
  linked_pde_ne i h ne =
      ground
        (arith, load32-store32_ne zeroed (pgdir + 4 * pdx va) word (pgdir + 4 * i), zeroed_pde i h)

  pub linked_table : table_at linked pgdir (pdx va) ≡ x
  linked_table = rw linked_pde (table_word x x-IsPage.aligned x-IsPage.fits)

  pub linked_has : HasTable linked pgdir (pdx va)
  linked_has = rw linked_pde (let al = x-IsPage.aligned in ground arith)

  -- A table that was there before is not at the new page.
  old_ne_new : (i : ℕ) → i < 1024 → HasTable s.mem pgdir i → table_at s.mem pgdir i ≢ x
  old_ne_new i h t = (v.table i h t).used.0

  old_has : (i : ℕ) → i < 1024 → i ≢ pdx va → HasTable linked pgdir i → HasTable s.mem pgdir i
  old_has i h ne t = rw (linked_pde_ne i h ne) at t

  old_table : (i : ℕ) → i < 1024 → i ≢ pdx va → table_at linked pgdir i ≡ table_at s.mem pgdir i
  old_table i h ne = rw (linked_pde_ne i h ne)

  made-IsFree : IsFree made xs
  made-IsFree = record {
    chain = IsChain-off pgdir zeroed linked _ xs linked_off v.page.aligned v.used.1 (
        IsChain-off x s.mem zeroed _ xs zeroed_off x-IsPage.aligned v.free.distinct.0
          (rw (taken.2) at taken.1.chain));
    distinct = v.free.distinct.1;
  }
    where
      taken : ((kalloc s).0 ≡ x) × IsFree (kalloc s).1 xs × ((kalloc s).1.mem ≡ s.mem)
      taken = kalloc_lem s (x ∷ xs) v.free

  made-IsTable :
      (i : ℕ) → i < 1024 → HasTable linked pgdir i → IsTable (table_at linked pgdir i) pgdir xs
  made-IsTable i h t = elim (ℕ_discrete i (pdx va)) [
    | yes e ↦
        rw (e, linked_table)
          (record { page = x-IsPage; ne_pgdir = x_ne_pgdir; used = v.free.distinct.0 })
    | no ne ↦
        let old = v.table i h (old_has i h ne t) in
        rw (old_table i h ne)
          (record { page = old.page; ne_pgdir = old.ne_pgdir; used = old.used.1 })
  ]

  made-apart :
      (i j : ℕ)
      → i < 1024
      → j < 1024
      → HasTable linked pgdir i
      → HasTable linked pgdir j
      → table_at linked pgdir i ≡ table_at linked pgdir j
      → i ≡ j
  made-apart i j hi hj ti tj e = elim (ℕ_discrete i (pdx va)) [
    | yes ei ↦ elim (ℕ_discrete j (pdx va)) [
      | yes ej ↦ ei ∙ sym ej
      | no nj ↦ absurd (
          old_ne_new j hj (old_has j hj nj tj)
            (sym (old_table j hj nj) ∙ sym e ∙ (rw ei linked_table)))
    ]
    | no ni ↦ elim (ℕ_discrete j (pdx va)) [
      | yes ej ↦ absurd (
          old_ne_new i hi (old_has i hi ni ti) (sym (old_table i hi ni) ∙ e ∙ (rw ej linked_table)))
      | no nj ↦
          v.apart i j hi hj (old_has i hi ni ti) (old_has j hj nj tj)
            (sym (old_table i hi ni) ∙ e ∙ old_table j hj nj)
    ]
  ]

  made_user : (i : ℕ) → i < 1024 → HasTable linked pgdir i → pde_at linked pgdir i % 8 ≡ 7
  made_user i h t = elim (ℕ_discrete i (pdx va)) [
    | yes e ↦ rw (e, linked_pde) (let al = x-IsPage.aligned in omega arith)
    | no ne ↦ rw (linked_pde_ne i h ne) (v.user i h (old_has i h ne t))
  ]

  pub made-IsSpace : IsSpace made pgdir xs
  made-IsSpace = record {
    free = made-IsFree;
    page = v.page;
    used = v.used.1;
    table = made-IsTable;
    apart = made-apart;
    user = made_user;
  }

  pub made-AllTables : (Q : ℕ → Type 0) → Q x → AllTables Q s.mem pgdir → AllTables Q linked pgdir
  made-AllTables Q new below i h t = elim (ℕ_discrete i (pdx va)) [
    | yes e ↦ rw (e, linked_table) new
    | no ne ↦ rw (old_table i h ne) (below i h (old_has i h ne t))
  ]

  pub made-kept : (b : ℕ) → OffPage b pgdir → OffPage b x → load8 linked b ≡ load8 s.mem b
  made-kept b dir new = linked_off b dir ∙ zeroed_off b new

  -- An entry of an old table lies neither in the new page nor in the directory.
  old_word :
      (i j : ℕ)
      → i < 1024
      → j < 1024
      → HasTable s.mem pgdir i
      → load32 linked (table_at s.mem pgdir i + 4 * j)
        ≡ load32 s.mem (table_at s.mem pgdir i + 4 * j)
  old_word i j hi hj t =
      let old = v.table i hi t in
      let old_al = old.page.aligned in
      let x_al = x-IsPage.aligned in
      let dir_al = v.page.aligned in
      let apart_x = old.used.0 in
      let apart_dir = old.ne_pgdir in
      load32_off pgdir _ zeroed linked linked_off dir_al (omega arith) (omega arith)
      ∙ load32_off x _ s.mem zeroed zeroed_off x_al (omega arith) (omega arith)

  new_word : (j : ℕ) → j < 1024 → load32 linked (x + 4 * j) ≡ 0
  new_word j h =
      let x_al = x-IsPage.aligned in
      let dir_al = v.page.aligned in
      let apart_dir = x_ne_pgdir in
      load32_off pgdir _ zeroed linked linked_off dir_al (omega arith) (omega arith)
      ∙ cleared-word s.mem x j x-IsPage.set h

  made-entry_at :
      (i j : ℕ) → i < 1024 → j < 1024 → entry_at linked pgdir i j ≡ entry_at s.mem pgdir i j
  made-entry_at i j hi hj = elim (ℕ_discrete i (pdx va)) [
    | yes e ↦ rw (e, missing, linked_has, linked_table) (new_word j hj)
    | no ne ↦ rw (linked_pde_ne i hi ne) (elim (Bool-cases (present (pde_at s.mem pgdir i))) [
      | inl t ↦ rw t (old_word i j hi hj t)
      | inr t ↦ rw t
    ])
  ]

  pub made-entry : (va' : ℕ) → entry linked pgdir va' ≡ entry s.mem pgdir va'
  unfolding entry
  made-entry va' = made-entry_at (pdx va') (ptx va') (omega arith) (omega arith)
