-- ===== src/Tests/Paging.antt =====
-- Page tables of kernel/mm/vm.c on small memories: a directory at 0x1000 with no tables, and the free
-- pages 0x2000 and 0x3000.
use tuix_os.Base.{
  ℕ, ◌+◌, ◌*◌, ◌^◌, ◌≡◌, ◌<◌, ◌≤◌, refl, sym, ◌∙◌, true, false, List, [], ◌∷◌, All, inr, ◌==◌,
  if◌then◌else◌, arith, length,
}
use tuix_os.Base.Int.{pos}
use tuix_os.Base.Outcome.{ok, panic}
use tuix_os.Memory.{load8, load32}
use tuix_os.Mmu.{pdx}
use tuix_os.Kalloc.{Kmem}
use tuix_os.Kalloc.Chain.{IsFree}
use tuix_os.Kalloc.Range.{pages_onto, free_range_lem}
use tuix_os.Vm.{present, walk_pgdir, map_pages, setup_kvm, init_uvm}
use tuix_os.Vm.Entry.{pde_at, entry}
use tuix_os.Vm.Space.{IsSpace, AllTables, OffPage}
use tuix_os.Vm.Found.{Walked, walk_lem}
use tuix_os.Vm.Map.{IsPerm, MappedRange, map_pages_lem, map_pages-panic, price-le}
use tuix_os.Vm.User.{IsUser, init_uvm_lem}
use tuix_os.Vm.Kernel.{IsData, IsKernelSpace, setup_kvm_lem}

abbrev two_free : Kmem
two_free = record { mem = λ a. if a == 0x2001 then 0x30 else 0; freelist = 0x2000 }

two_free-IsFree : IsFree two_free (0x2000 ∷ 0x3000 ∷ [])
unfolding load32 load8
two_free-IsFree = record {
  chain = (
    refl,
    record { set = omega arith; aligned = refl; fits = omega arith },
    (refl, record { set = omega arith; aligned = refl; fits = omega arith }, refl),
  );
  distinct = ((omega arith, tt), (tt, tt));
}

no_byte : (b : ℕ) → b < 0x2000 → load8 two_free.mem b ≡ 0
unfolding load8
no_byte b h = ground arith

no_word : (a : ℕ) → a + 4 ≤ 0x2000 → load32 two_free.mem a ≡ 0
unfolding load32
no_word a h =
    rw
      (
        no_byte a (omega arith),
        no_byte (a + 1) (omega arith),
        no_byte (a + 2) (omega arith),
        no_byte (a + 3) (omega arith),
      )
      refl

no_table : (i : ℕ) → i < 1024 → present (pde_at two_free.mem 0x1000 i) ≡ false
no_table i h = rw (no_word (0x1000 + 4 * i) (omega arith)) refl

no_entry : (va : ℕ) → present (entry two_free.mem 0x1000 va) ≡ false
unfolding entry
no_entry va = rw (no_table (pdx va) (omega arith))

two_free-IsSpace : IsSpace two_free 0x1000 (0x2000 ∷ 0x3000 ∷ [])
two_free-IsSpace = record {
  free = two_free-IsFree;
  page = record { set = omega arith; aligned = refl; fits = omega arith };
  used = (omega arith, (omega arith, tt));
  table = λ i h t. absurd (ground (arith, sym t ∙ no_table i h));
  apart = λ i j h k t u e. absurd (ground (arith, sym t ∙ no_table i h));
  user = λ i h t. absurd (ground (arith, sym t ∙ no_table i h));
}

walk_example :
    Walked two_free 0x1000 0x8000_0000
      (0x2000 ∷ 0x3000 ∷ [])
      (walk_pgdir two_free 0x1000 0x8000_0000 true).0
      (walk_pgdir two_free 0x1000 0x8000_0000 true).1
walk_example =
    walk_lem two_free 0x1000 0x8000_0000 (0x2000 ∷ 0x3000 ∷ []) two_free-IsSpace
      (omega (arith, price-le two_free 0x1000 0x8000_0000))

writable : IsPerm 2
writable = record { even = refl; small = omega arith }

map_pages_example :
    (s' : Kmem) × (map_pages 2 two_free 0x1000 0x8000_0000 0x1000 0 2 ≡ ok (pos 0, s'))
    × MappedRange two_free 0x1000 0x8000_0000 0x8000_0000 0 2 (0x2000 ∷ 0x3000 ∷ []) s'
map_pages_example =
    map_pages_lem 0x1000 2 writable 2 two_free 0x8000_0000 0x1000 0 (0x2000 ∷ 0x3000 ∷ [])
      two_free-IsSpace (omega arith) (omega arith) refl (omega arith)
      (omega (arith, price-le two_free 0x1000 0x8000_0000)) (λ va l u. no_entry va)

-- The memory with that page mapped.
abbrev mapped_once : Kmem
mapped_once = map_pages_example.0

map_pages-panic_example : map_pages 2 mapped_once 0x1000 0x8000_0000 0x1000 0 2 ≡ panic
map_pages-panic_example =
    map_pages-panic 0x1000 2 writable 0 2 mapped_once 0x8000_0000 0x1000 0 map_pages_example.2.left
      map_pages_example.2.space (omega arith) (omega arith) refl (omega arith)
      (let cost = map_pages_example.2.cost in
        omega
          (arith, price-le two_free 0x1000 0x8000_0000, price-le mapped_once 0x1000 0x8000_0000))
      (λ b l u. absurd (omega arith)) (rw (map_pages_example.2.entries 0x8000_0000) refl)

abbrev pool : List ℕ
pool = pages_onto 66 0x100000 []

abbrev pool_page : ℕ
pool_page = 0x142000

free_pool : (s : Kmem) × IsFree s (pool_page ∷ pool)
unfolding pages_onto
free_pool =
    let none_free : Kmem = record { mem = λ a. 0; freelist = 0 } in
    let r =
      free_range_lem 100 none_free 0xFF001 0x143234 [] (omega arith) (omega arith) (omega arith)
        (record { chain = refl; distinct = tt }) tt in
    (r.0, r.2)

linked-IsData : IsData 0x8020_0000
linked-IsData = record { aligned = refl; behind = omega arith; below = omega arith }

pool_size : 66 ≤ length pool
unfolding pages_onto
pool_size = omega arith

setup_kvm_example :
    (s' : Kmem) × (setup_kvm (2 ^ 20 + 1) 0x8020_0000 free_pool.0 ≡ ok (pool_page, s'))
    × IsKernelSpace 0x8020_0000 pool_page pool free_pool.0 s'
setup_kvm_example =
    setup_kvm_lem (2 ^ 20 + 1) 0x8020_0000 free_pool.0 pool_page pool (omega arith) linked-IsData
      free_pool.1 pool_size

-- The code of the first process lies at 0x8000.
code_apart :
    (b : ℕ)
    → 0x8000 ≤ b
    → b < 0x8000 + 44
    → OffPage b 0x1000
      × All (OffPage b) (0x2000 ∷ 0x3000 ∷ [])
      × AllTables (OffPage b) two_free.mem 0x1000
code_apart b l u = (
  inr (omega arith),
  (inr (omega arith), (inr (omega arith), tt)),
  (λ i h t. absurd (ground (arith, sym t ∙ no_table i h))),
)

init_uvm_example :
    (s' : Kmem) × (init_uvm 1 two_free 0x1000 0x8000 44 ≡ ok s')
    × IsUser two_free 0x1000 0x8000 44 0x2000 (0x3000 ∷ []) s'
init_uvm_example =
    init_uvm_lem 1 two_free 0x1000 0x8000 44 0x2000 (0x3000 ∷ []) (omega arith) two_free-IsSpace
      (omega arith) (omega arith) (λ va l u. no_entry va) (omega arith) code_apart
