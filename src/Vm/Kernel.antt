-- ===== src/Vm/Kernel.antt =====
-- `setup_kvm` of kernel/mm/vm.c: the address space that it builds.
use tuix_os.Base.{
  ℕ, ◌+◌, ◌-◌, ◌*◌, ◌/◌, ◌%◌, ◌^◌, ◌<◌, ◌≤◌, ◌≡◌, refl, true, false, List, ◌∷◌, All, length, arith,
  ltb, ◌==◌, if◌then◌else◌, sym, ap, ◌∙◌,
}
use mathlib.Core.Path.{subst₂}
use tuix_os.Base.Int.{pos}
use tuix_os.Base.Outcome.{ok}
use tuix_os.Memory.{null, u32, load8}
use tuix_os.Mmu.{
  pgsize, pdx, kernbase, kernlink, devspace, extmem, physstop, pg_round_down, v2p, pte_w,
}
use tuix_os.Kalloc.{Kmem, kalloc}
use tuix_os.Kalloc.Chain.{IsFree, IsChain-off}
use tuix_os.Kalloc.Free.{kalloc_lem, kalloc-nil}
use tuix_os.Vm.{map_pages, Kmap, k_maps, map_size, map_all, setup_at, setup_kvm}
use tuix_os.Vm.Entry.{pde_at, entry}
use tuix_os.Vm.Space.{IsSpace, HasTable, AllTables, OffPage}
use tuix_os.Vm.Walk.{cleared, cleared-SameOff, cleared-word}
use tuix_os.Vm.Map.{IsPerm, in_range, direct, MappedRange, map_pages_lem, price-le, IsUnmapped}

-- A cleared page from the allocator is an address space with nothing mapped.
module _ (s : Kmem) (x : ℕ) (xs : List ℕ) (v : IsFree s (x ∷ xs)) where
  abbrev fresh : Kmem
  fresh = record { mem = cleared s.mem x; freelist = (kalloc s).1.freelist }

  fresh_pde : (i : ℕ) → i < 1024 → pde_at fresh.mem x i ≡ 0
  fresh_pde i h = cleared-word s.mem x i v.chain.1.set h

  no_table : (i : ℕ) → i < 1024 → HasTable fresh.mem x i → ⊥
  no_table i h t = let t' : false ≡ true = rw (fresh_pde i h) at t in cc

  fresh-IsSpace : IsSpace fresh x xs
  fresh-IsSpace = record {
    free = record {
      chain =
          IsChain-off x s.mem fresh.mem _ xs (cleared-SameOff s.mem x v.chain.1.set)
            v.chain.1.aligned v.distinct.0 (rw (taken.2) at taken.1.chain);
      distinct = v.distinct.1;
    };
    page = v.chain.1;
    used = v.distinct.0;
    table = λ i h t. absurd (no_table i h t);
    apart = λ i j hi hj ti tj e. absurd (no_table i hi ti);
    user = λ i h t. absurd (no_table i h t);
  }
    where
      taken : ((kalloc s).0 ≡ x) × IsFree (kalloc s).1 xs × ((kalloc s).1.mem ≡ s.mem)
      taken = kalloc_lem s (x ∷ xs) v

  fresh-AllTables : (Q : ℕ → Type 0) → AllTables Q fresh.mem x
  fresh-AllTables Q i h t = absurd (no_table i h t)

  fresh-entry : (va : ℕ) → entry fresh.mem x va ≡ 0
  unfolding entry
  fresh-entry va = rw (fresh_pde (pdx va) (omega arith))

-- What the kernel's address space holds for the page of `va`: the I/O space, the kernel's code,
-- its data with the rest of memory, and the devices. Nothing else is mapped.
unfoldable pub kernel_entry : (kdata va : ℕ) → ℕ
kernel_entry kdata va =
    let page = u32 va / pgsize * pgsize in
    if ltb page kernbase
    then 0
    else if ltb page kernlink
    then page - kernbase + 3
    else if ltb page kdata
    then page - kernbase + 1
    else if ltb page (kernbase + physstop)
    then page - kernbase + 3
    else if ltb page devspace
    then 0
    else page + 3

-- The linker's address of the kernel's data: page-aligned, behind the kernel's code, in memory.
pub record IsData (kdata : ℕ) : Type 0 where
  pub aligned : kdata % pgsize ≡ 0
  pub behind : kernlink < kdata
  pub below : kdata < kernbase + physstop

module _ (fuel pgdir : ℕ) (enough : 2 ^ 20 < fuel) where
  -- One entry of the table, over pages from `start` to `last` that are unmapped.
  map_one :
      (k : Kmap) (start last : ℕ) (s : Kmem) (xs : List ℕ)
      → IsSpace s pgdir xs
      → IsPerm k.perm
      → pg_round_down k.virt ≡ start
      → pg_round_down (k.virt + map_size k + 2 ^ 32 - 1) ≡ last
      → start ≤ last
      → k.phys_start % pgsize ≡ 0
      → k.phys_start < 2 ^ 32
      → last / 2 ^ 22 - start / 2 ^ 22 + 1 ≤ length xs
      → IsUnmapped s pgdir start last
      → (s' : Kmem) × (map_pages fuel s pgdir k.virt (map_size k) k.phys_start k.perm
          ≡ ok (pos 0, s'))
        × MappedRange s pgdir start last k.phys_start k.perm xs s'
  map_one k start last s xs v flags es el le al fits room free =
      subst₂
        (λ a b.
          (s' : Kmem) × (map_pages fuel s pgdir k.virt (map_size k) k.phys_start k.perm
            ≡ ok (pos 0, s'))
          × MappedRange s pgdir a b k.phys_start k.perm xs s')
        es el
        (map_pages_lem pgdir k.perm flags fuel s k.virt (map_size k) k.phys_start xs v (omega arith)
          (omega arith) al fits (let small = price-le s pgdir (pg_round_down k.virt) in omega arith)
          (subst₂ (λ a b. IsUnmapped s pgdir a b) (sym es) (sym el) free))

-- The address space of the kernel at `pgdir`, its tables made of at most 66 of the pages `xs`.
-- Outside these pages the memory is that of `s0`.
pub record IsKernelSpace (kdata : ℕ) (pgdir : ℕ) (xs : List ℕ) (s0 s : Kmem) : Type 1 where
  pub left : List ℕ
  pub space : IsSpace s pgdir left
  pub cost : length xs ≤ length left + 66
  pub within : (Q : ℕ → Type 0) → All Q xs → All Q left × AllTables Q s.mem pgdir
  pub kept : (b : ℕ) → OffPage b pgdir → All (OffPage b) xs → load8 s.mem b ≡ load8 s0.mem b
  pub entries : (va : ℕ) → entry s.mem pgdir va ≡ kernel_entry kdata va

abbrev io : Kmap
io = record { virt = kernbase; phys_start = 0; phys_end = extmem; perm = pte_w }

abbrev code : (kdata : ℕ) → Kmap
code kdata = record { virt = kernlink; phys_start = v2p kernlink; phys_end = v2p kdata; perm = 0 }

abbrev ram : (kdata : ℕ) → Kmap
ram kdata = record { virt = kdata; phys_start = v2p kdata; phys_end = physstop; perm = pte_w }

abbrev devices : Kmap
devices = record { virt = devspace; phys_start = devspace; phys_end = 0; perm = pte_w }

module _ (fuel kdata : ℕ) (s : Kmem) (x : ℕ) (xs : List ℕ) (enough : 2 ^ 20 < fuel)
    (d : IsData kdata) (v : IsFree s (x ∷ xs)) (room : 66 ≤ length xs) where
  map_io :
      (s1 : Kmem) × (map_pages fuel (fresh s x xs v) x kernbase (map_size io) 0 pte_w
        ≡ ok (pos 0, s1))
      × MappedRange (fresh s x xs v) x kernbase (kernlink - pgsize) 0 pte_w xs s1
  map_io =
      map_one fuel x enough io kernbase (kernlink - pgsize) (fresh s x xs v) xs
        (fresh-IsSpace s x xs v) (record { even = refl; small = omega arith }) refl refl
        (omega arith) refl (omega arith) (omega arith)
        (λ va lo hi. ground (arith, fresh-entry s x xs v va))

  abbrev s1 : Kmem
  s1 = map_io.0

  r1 : MappedRange (fresh s x xs v) x kernbase (kernlink - pgsize) 0 pte_w xs s1
  r1 = map_io.2

  entry1 :
      (va : ℕ)
      → entry s1.mem x va
        ≡ (if in_range kernbase (kernlink - pgsize) va then direct kernbase 0 pte_w va else 0)
  entry1 va =
      r1.entries va
      ∙ ap (λ e. if in_range kernbase (kernlink - pgsize) va then direct kernbase 0 pte_w va else e)
          (fresh-entry s x xs v va)

  map_code :
      (s2 : Kmem) × (map_pages fuel s1 x kernlink (map_size (code kdata)) (v2p kernlink) 0
        ≡ ok (pos 0, s2))
      × MappedRange s1 x kernlink (kdata - pgsize) (v2p kernlink) 0 r1.left s2
  map_code =
      map_one fuel x enough (code kdata) kernlink (kdata - pgsize) s1 r1.left r1.space
        (record { even = refl; small = omega arith }) refl
        (let al = d.aligned in let lo = d.behind in let hi = d.below in omega arith)
        (let al = d.aligned in let lo = d.behind in omega arith) refl (omega arith)
        (let c = r1.cost in
          let p = price-le (fresh s x xs v) x kernbase in let hi = d.below in omega arith)
        (λ va lo hi. ground (arith, entry1 va))

  abbrev s2 : Kmem
  s2 = map_code.0

  r2 : MappedRange s1 x kernlink (kdata - pgsize) (v2p kernlink) 0 r1.left s2
  r2 = map_code.2

  abbrev ram_end : ℕ
  ram_end = kernbase + physstop - pgsize

  map_ram :
      (s3 : Kmem) × (map_pages fuel s2 x kdata (map_size (ram kdata)) (v2p kdata) pte_w
        ≡ ok (pos 0, s3))
      × MappedRange s2 x kdata ram_end (v2p kdata) pte_w r2.left s3
  map_ram =
      map_one fuel x enough (ram kdata) kdata ram_end s2 r2.left r2.space
        (record { even = refl; small = omega arith })
        (let al = d.aligned in let hi = d.below in omega arith)
        (let al = d.aligned in let lo = d.behind in let hi = d.below in omega arith)
        (let al = d.aligned in let hi = d.below in omega arith) (let al = d.aligned in omega arith)
        (omega arith)
        (let c = r1.cost in
          let p = price-le (fresh s x xs v) x kernbase in
          let c' = r2.cost in
          let p' = price-le s1 x kernlink in let lo = d.behind in let hi = d.below in omega arith)
        (λ va lo hi. let below = d.behind in ground (arith, entry1 va, r2.entries va))

  abbrev s3 : Kmem
  s3 = map_ram.0

  r3 : MappedRange s2 x kdata ram_end (v2p kdata) pte_w r2.left s3
  r3 = map_ram.2

  map_devices :
      (s4 : Kmem) × (map_pages fuel s3 x devspace (map_size devices) devspace pte_w
        ≡ ok (pos 0, s4))
      × MappedRange s3 x devspace 0xffff_f000 devspace pte_w r3.left s4
  map_devices =
      map_one fuel x enough devices devspace 0xffff_f000 s3 r3.left r3.space
        (record { even = refl; small = omega arith }) refl refl (omega arith) refl (omega arith)
        (let c = r1.cost in
          let p = price-le (fresh s x xs v) x kernbase in
          let c' = r2.cost in
          let p' = price-le s1 x kernlink in
          let c'' = r3.cost in
          let p'' = price-le s2 x kdata in
          let al = d.aligned in let lo = d.behind in let hi = d.below in omega arith)
        (λ va lo hi.
          let below = d.below in
          let behind = d.behind in ground (arith, entry1 va, r2.entries va, r3.entries va))

  abbrev s4 : Kmem
  s4 = map_devices.0

  r4 : MappedRange s3 x devspace 0xffff_f000 devspace pte_w r3.left s4
  r4 = map_devices.2

  entry4 : (va : ℕ) → entry s4.mem x va ≡ kernel_entry kdata va
  unfolding kernel_entry
  entry4 va =
      let below = d.below in
      let behind = d.behind in
      let al = d.aligned in ground (arith, entry1 va, r2.entries va, r3.entries va, r4.entries va)

  map_all-ok : map_all fuel x (k_maps kdata) (fresh s x xs v) ≡ ok s4
  unfolding map_all
  map_all-ok = rw (map_io.1, map_code.1, map_ram.1, map_devices.1)

  taken-fresh : kalloc s ≡ (x, record { mem = s.mem; freelist = (kalloc s).1.freelist })
  taken-fresh =
      let (taken, _, kept) = kalloc_lem s (x ∷ xs) v in
      λ i. (taken i, record { mem = kept i; freelist = (kalloc s).1.freelist })

  setup_kvm-ok : setup_kvm fuel kdata s ≡ ok (x, s4)
  unfolding setup_kvm
  setup_kvm-ok =
      let set : (x == null) ≡ false = let ne = v.chain.1.set in ground arith in
      ap (setup_at fuel kdata) taken-fresh ∙ (rw (set, map_all-ok))

  -- Directory and tables are made of the free pages, so they lie where those do.
  setup-within : (Q : ℕ → Type 0) → All Q xs → All Q r4.left × AllTables Q s4.mem x
  setup-within Q all =
      let (l1, t1) = r1.within Q all (fresh-AllTables s x xs v Q) in
      let (l2, t2) = r2.within Q l1 t1 in let (l3, t3) = r3.within Q l2 t2 in r4.within Q l3 t3

  setup-kept : (b : ℕ) → OffPage b x → All (OffPage b) xs → load8 s4.mem b ≡ load8 s.mem b
  setup-kept b dir all =
      let t0 = fresh-AllTables s x xs v (OffPage b) in
      let (l1, t1) = r1.within (OffPage b) all t0 in
      let (l2, t2) = r2.within (OffPage b) l1 t1 in
      let (l3, t3) = r3.within (OffPage b) l2 t2 in
      r4.kept b dir l3 t3
      ∙ r3.kept b dir l2 t2
      ∙ r2.kept b dir l1 t1
      ∙ r1.kept b dir all t0
      ∙ cleared-SameOff s.mem x v.chain.1.set b dir

  setup-cost : length xs ≤ length r4.left + 66
  setup-cost =
      let c = r1.cost in
      let p = price-le (fresh s x xs v) x kernbase in
      let c' = r2.cost in
      let p' = price-le s1 x kernlink in
      let c'' = r3.cost in
      let p'' = price-le s2 x kdata in
      let c''' = r4.cost in
      let p''' = price-le s3 x devspace in
      let al = d.aligned in let lo = d.behind in let hi = d.below in omega arith

  -- With 67 free pages and fuel for the 2 ^ 20 pages that there can be, `setup_kvm` returns the
  -- first free page as a directory that maps the I/O space, the kernel's code read-only, its data
  -- with the memory behind it, and the devices, each page to its own physical place and none for
  -- the user, and nothing else. It takes at most 66 more pages for tables.
  pub setup_kvm_lem :
      (s' : Kmem) × (setup_kvm fuel kdata s ≡ ok (x, s')) × IsKernelSpace kdata x xs s s'
  setup_kvm_lem = (
    s4,
    setup_kvm-ok,
    record {
      left = r4.left;
      space = r4.space;
      entries = entry4;
      within = setup-within;
      kept = setup-kept;
      cost = setup-cost;
    },
  )

-- With no free page `setup_kvm` returns null and changes nothing.
pub setup_kvm-null :
    (fuel kdata : ℕ) (s : Kmem) → s.freelist ≡ null → setup_kvm fuel kdata s ≡ ok (null, s)
unfolding setup_kvm
setup_kvm-null fuel kdata s e = rw (kalloc-nil s e)
