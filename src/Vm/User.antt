-- ===== src/Vm/User.antt =====
-- `init_uvm` of kernel/mm/vm.c: the page of the first process.
use tuix_os.Base.{
  ℕ, ◌+◌, ◌-◌, ◌/◌, ◌<◌, ◌≤◌, ◌≡◌, ◌≢◌, refl, false, List, ◌∷◌, All, length, arith, ltb, ◌==◌,
  if◌then◌else◌, sym, ◌∙◌, ◌%◌, Bool-cases, inl, inr,
}
use tuix_os.Base.Int.{pos}
use tuix_os.Base.Outcome.{ok}
use tuix_os.Memory.{null, u32, load8}
use tuix_os.Mmu.{pgsize, v2p}
use tuix_os.Str.Blocks.{memmove}
use tuix_os.Str.Blocks.Laws.{memset_lem, memmove_lem, in_block}
use tuix_os.Kalloc.{Kmem, kalloc}
use tuix_os.Kalloc.Chain.{IsPage, IsFree, IsChain-off, chain-outside}
use tuix_os.Kalloc.Free.{kalloc_lem}
use tuix_os.Vm.{present, map_pages, init_uvm}
use tuix_os.Vm.Entry.{pde_at, entry}
use tuix_os.Vm.Space.{IsSpace, AllTables, OffPage}
use tuix_os.Vm.Walk.{cleared, cleared-SameOff}
use tuix_os.Vm.Map.{MappedRange, map_pages_lem, price-le, IsUnmapped}
use tuix_os.Vm.Moved.{SamePage, moved-entry, moved-IsSpace, moved-AllTables}

-- The space at `pgdir` behind `init_uvm`, which took the page `x` in front of the free pages `xs`:
-- page 0 is mapped there, writable and for the user, in the table's entry and in the directory's word
-- (the bits 1, 2 and 4), every other page is mapped as before, and the
-- page holds the `size` bytes that stood at `init`, and zeros behind them.
pub record IsUser (s : Kmem) (pgdir init size x : ℕ) (xs : List ℕ) (s' : Kmem) : Type 1 where
  pub left : List ℕ
  pub space : IsSpace s' pgdir left
  pub table_user : pde_at s'.mem pgdir 0 % 8 ≡ 7
  pub cost : length xs ≤ length left + 1
  pub entries :
      (va : ℕ)
      → entry s'.mem pgdir va ≡ (if u32 va / pgsize == 0 then v2p x + 7 else entry s.mem pgdir va)
  pub code :
      (j : ℕ)
      → j < pgsize
      → load8 s'.mem (x + j) ≡ (if ltb j size then load8 s.mem (init + j) else 0)
  pub within :
      (Q : ℕ → Type 0) → All Q xs → AllTables Q s.mem pgdir → All Q left × AllTables Q s'.mem pgdir
  pub kept :
      (b : ℕ)
      → OffPage b x
      → OffPage b pgdir
      → All (OffPage b) xs
      → AllTables (OffPage b) s.mem pgdir
      → load8 s'.mem b ≡ load8 s.mem b

module _ (fuel : ℕ) (s : Kmem) (pgdir init size x : ℕ) (xs : List ℕ) (enough : 0 < fuel)
    (v : IsSpace s pgdir (x ∷ xs)) (room : 1 ≤ length xs) (fits : size ≤ pgsize)
    (unmapped : IsUnmapped s pgdir 0 0) (set : init ≢ null)
    (apart : (b : ℕ)
      → init ≤ b
      → b < init + size
      → OffPage b pgdir × All (OffPage b) (x ∷ xs) × AllTables (OffPage b) s.mem pgdir) where
  abbrev s1 : Kmem
  s1 = record { mem = cleared s.mem x; freelist = (kalloc s).1.freelist }

  xp : IsPage x
  xp = v.free.chain.1

  off_x : (b : ℕ) → OffPage b x → load8 s1.mem b ≡ load8 s.mem b
  off_x b h = cleared-SameOff s.mem x xp.set b h

  dir1 : SamePage s s1 pgdir
  dir1 b l u =
      let ne = v.used.0 in let al = v.page.aligned in let al' = xp.aligned in off_x b (omega arith)

  tables1 : AllTables (SamePage s s1) s.mem pgdir
  tables1 i h t b l u =
      let ne = (v.table i h t).used.0 in
      let al = (v.table i h t).page.aligned in let al' = xp.aligned in off_x b (omega arith)

  taken : ((kalloc s).0 ≡ x) × IsFree (kalloc s).1 xs × ((kalloc s).1.mem ≡ s.mem)
  taken = kalloc_lem s (x ∷ xs) v.free

  v1 : IsSpace s1 pgdir xs
  v1 =
      moved-IsSpace s s1 pgdir (x ∷ xs) xs v dir1 tables1
        (record {
          chain =
              IsChain-off x s.mem s1.mem _ xs (cleared-SameOff s.mem x xp.set) xp.aligned
                v.free.distinct.0 (rw (taken.2) at taken.1.chain);
          distinct = v.free.distinct.1;
        })
        v.used.1 (λ i h t. (v.table i h t).used.1)

  entry1 : (va : ℕ) → entry s1.mem pgdir va ≡ entry s.mem pgdir va
  entry1 va = moved-entry s s1 pgdir (x ∷ xs) xs v dir1 tables1 va

  mapped :
      (s2 : Kmem) × (map_pages fuel s1 pgdir 0 pgsize (v2p x) 6 ≡ ok (pos 0, s2))
      × MappedRange s1 pgdir 0 0 (v2p x) 6 xs s2
  mapped =
      map_pages_lem pgdir 6 (record { even = refl; small = omega arith }) fuel s1 0 pgsize (v2p x)
        xs v1 (omega arith) (omega arith) (let al = xp.aligned in omega arith) (omega arith)
        (let small = price-le s1 pgdir 0 in omega arith)
        (λ va l u. rw (entry1 va) (unmapped va l u))

  abbrev s2 : Kmem
  s2 = mapped.0

  r : MappedRange s1 pgdir 0 0 (v2p x) 6 xs s2
  r = mapped.2

  abbrev s3 : Kmem
  s3 = record s2 { mem = (memmove s2.mem x init size).1 }

  tables_ne1 : AllTables (λ t. x ≢ t) s1.mem pgdir
  tables_ne1 =
      moved-AllTables s s1 pgdir (x ∷ xs) xs v dir1 tables1 (λ t. x ≢ t)
        (λ i h t e. (v.table i h t).used.0 (sym e))

  ne_left : All (λ y. x ≢ y) r.left × AllTables (λ t. x ≢ t) s2.mem pgdir
  ne_left = r.within (λ y. x ≢ y) v.free.distinct.0 tables_ne1

  byte3 :
      (b : ℕ)
      → load8 s3.mem b
        ≡ (if in_block x size b then load8 s2.mem (init + (b - x)) else load8 s2.mem b)
  byte3 b = (memmove_lem s2.mem x init size b xp.set set).1

  off_x3 : (b : ℕ) → OffPage b x → load8 s3.mem b ≡ load8 s2.mem b
  off_x3 b h = byte3 b ∙ ground arith

  dir3 : SamePage s2 s3 pgdir
  dir3 b l u =
      let ne = v.used.0 in let al = v.page.aligned in let al' = xp.aligned in off_x3 b (omega arith)

  tables3 : AllTables (SamePage s2 s3) s2.mem pgdir
  tables3 i h t b l u =
      let ne = ne_left.1 i h t in
      let al = (r.space.table i h t).page.aligned in let al' = xp.aligned in off_x3 b (omega arith)

  v3 : IsSpace s3 pgdir r.left
  v3 =
      moved-IsSpace s2 s3 pgdir r.left r.left r.space dir3 tables3
        (record {
          chain =
              IsChain-off x s2.mem s3.mem s2.freelist r.left off_x3 xp.aligned ne_left.0
                r.space.free.chain;
          distinct = r.space.free.distinct;
        })
        r.space.used (λ i h t. (r.space.table i h t).used)

  -- A byte that is off the directory, the tables and the free pages is the same up to `s2`, apart
  -- from the cleared page.
  kept2 :
      (b : ℕ)
      → OffPage b pgdir
      → All (OffPage b) xs
      → AllTables (OffPage b) s.mem pgdir
      → load8 s2.mem b ≡ load8 s1.mem b
  kept2 b dir rest tables =
      r.kept b dir rest (moved-AllTables s s1 pgdir (x ∷ xs) xs v dir1 tables1 (OffPage b) tables)

  x_off_rest :
      (b : ℕ)
      → x ≤ b
      → b < x + pgsize
      → OffPage b pgdir × All (OffPage b) xs × AllTables (OffPage b) s.mem pgdir
  x_off_rest b l u = (
    (let ne = v.used.0 in let al = v.page.aligned in let al' = xp.aligned in omega arith),
    chain-outside s1.mem s1.freelist x b xs v1.free.chain xp.aligned l u v.free.distinct.0,
    (λ i h t.
        let ne = (v.table i h t).used.0 in
        let al = (v.table i h t).page.aligned in let al' = xp.aligned in omega arith),
  )

  zero2 : (b : ℕ) → x ≤ b → b < x + pgsize → load8 s2.mem b ≡ 0
  zero2 b l u =
      let (dir, rest, tables) = x_off_rest b l u in
      kept2 b dir rest tables ∙ (memset_lem s.mem x 0 pgsize b xp.set).1 ∙ ground arith

  code2 : (b : ℕ) → init ≤ b → b < init + size → load8 s2.mem b ≡ load8 s.mem b
  code2 b l u = let (dir, rest, tables) = apart b l u in kept2 b dir rest.1 tables ∙ off_x b rest.0

  code3 :
      (j : ℕ)
      → j < pgsize
      → load8 s3.mem (x + j) ≡ (if ltb j size then load8 s.mem (init + j) else 0)
  code3 j h =
      byte3 (x + j)
      ∙ (let back : x + j - x ≡ j = omega arith in ground (arith, code2 (init + j), zero2 (x + j)))

  kept3 :
      (b : ℕ)
      → OffPage b x
      → OffPage b pgdir
      → All (OffPage b) xs
      → AllTables (OffPage b) s.mem pgdir
      → load8 s3.mem b ≡ load8 s.mem b
  kept3 b here dir rest tables = off_x3 b here ∙ kept2 b dir rest tables ∙ off_x b here

  within3 :
      (Q : ℕ → Type 0)
      → All Q xs
      → AllTables Q s.mem pgdir
      → All Q r.left × AllTables Q s3.mem pgdir
  within3 Q rest tables =
      let all = r.within Q rest (moved-AllTables s s1 pgdir (x ∷ xs) xs v dir1 tables1 Q tables) in
      (all.0, moved-AllTables s2 s3 pgdir r.left r.left r.space dir3 tables3 Q all.1)

  entry3 :
      (va : ℕ)
      → entry s3.mem pgdir va ≡ (if u32 va / pgsize == 0 then v2p x + 7 else entry s.mem pgdir va)
  entry3 va =
      moved-entry s2 s3 pgdir r.left r.left r.space dir3 tables3 va
      ∙ r.entries va
      ∙ ground (arith, entry1 va)

  -- The table of page 0 is there, since its entry is.
  table_user3 : pde_at s3.mem pgdir 0 % 8 ≡ 7
  unfolding entry
  table_user3 = elim (Bool-cases (present (pde_at s3.mem pgdir 0))) [
    | inl t ↦ v3.user 0 (omega arith) t
    | inr n ↦
        let none_there : entry s3.mem pgdir 0 ≡ 0 = rw n refl in
        let there : entry s3.mem pgdir 0 ≡ v2p x + 7 = entry3 0 in absurd (omega arith)
  ]

  r-cost : length xs ≤ length r.left + 1
  r-cost = omega (arith, r.cost, price-le s1 pgdir 0)

  taken-eq : kalloc s ≡ (x, record { mem = s.mem; freelist = (kalloc s).1.freelist })
  taken-eq = λ i. (taken.0 i, record { mem = taken.2 i; freelist = (kalloc s).1.freelist })

  init_uvm-ok : init_uvm fuel s pgdir init size ≡ ok s3
  unfolding init_uvm
  init_uvm-ok =
      let small : ltb pgsize size ≡ false = ground arith in rw (small, taken-eq, mapped.1) refl

  -- `init_uvm` with at most a page of code that lies outside the free pages and the page tables,
  -- page 0 unmapped, and two free pages, returns: page 0 is mapped to the first free page,
  -- writable and for the user, as the directory's word for its table also says, every other page is
  -- mapped as before, and the page holds the code and zeros behind it.
  pub init_uvm_lem :
      (s' : Kmem) × (init_uvm fuel s pgdir init size ≡ ok s') × IsUser s pgdir init size x xs s'
  init_uvm_lem = (
    s3,
    init_uvm-ok,
    record {
      left = r.left;
      space = v3;
      table_user = table_user3;
      cost = r-cost;
      entries = entry3;
      code = code3;
      within = within3;
      kept = kept3;
    },
  )
