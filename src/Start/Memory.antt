-- ===== src/Start/Memory.antt =====
-- The memory that `kernel_main` of init/main.c sets up: the page allocator and the kernel's address
-- space, one made out of the other.
use tuix_os.Base.{
  ℕ, suc, ◌+◌, ◌-◌, ◌*◌, ◌^◌, ◌≤◌, ◌<◌, ◌≡◌, ◌≢◌, refl, inl, some, List, [], ◌∷◌, All, length,
  arith, ap, ◌∙◌,
}
use mathlib.Core.Path.{subst}
use tuix_os.Base.Outcome.{ok}
use tuix_os.Memory.{null, load8}
use tuix_os.Mmu.{pgsize, kernlink, pg_round_up}
use tuix_os.Kalloc.{Kmem, free_range, init_physical_memory}
use tuix_os.Kalloc.Chain.{IsFree}
use tuix_os.Kalloc.Range.{pages_onto, page_count, free_range_lem, length-pages_onto}
use tuix_os.Kalloc.Span.{All-pages_onto, pages_onto-last, free_range-kept}
use tuix_os.Vm.{setup_kvm}
use tuix_os.Vm.Entry.{entry}
use tuix_os.Vm.Space.{IsSpace, AllTables, OffPage}
use tuix_os.Vm.Kernel.{IsData, IsKernelSpace, kernel_entry, setup_kvm_lem}
use tuix_os.Start.{Paging, init_kvm, first_end, memory_end, boot_memory}
use tuix_os.Vm.Moved.{SamePage, moved-entry, moved-IsSpace}

-- The page of the kernel's directory: the last one below 4 MB.
abbrev pub boot_directory : ℕ
boot_directory = first_end - pgsize

-- What the memory is behind `boot_memory`: all pages from 4 MB up to the end of memory are free,
-- the highest first, in front of those below 4 MB that the page tables have left, and the kernel's
-- directory maps what it should. Memory below the first of these pages is
-- as it was in `s`.
pub record IsBooted (kernel_end kdata : ℕ) (s : Kmem) (g : Paging) : Type 0 where
  pub left : List ℕ
  pub directory : g.kpgdir ≡ boot_directory
  pub loaded : g.cr3 ≡ 0x3f_f000
  pub space : IsSpace g.kmem boot_directory (pages_onto 56_320 first_end left)
  pub entries : (va : ℕ) → entry g.kmem.mem boot_directory va ≡ kernel_entry kdata va
  pub few : page_count (pg_round_up kernel_end) first_end ≤ length left + 67
  pub low : All (λ y. (pg_round_up kernel_end ≤ y) × (y < first_end)) left
  pub kept : (b : ℕ) → b < pg_round_up kernel_end → load8 g.kmem.mem b ≡ load8 s.mem b

module _ (fuel kernel_end kdata : ℕ) (s : Kmem) (enough : 2 ^ 20 < fuel) (d : IsData kdata)
    (behind : kernlink ≤ kernel_end) (room : kernel_end + 68 * pgsize ≤ first_end)
    (empty : s.freelist ≡ null) where
  abbrev p : ℕ
  p = pg_round_up kernel_end

  abbrev n : ℕ
  n = page_count p first_end - 1

  freed :
      (s1 : Kmem) × (free_range fuel s kernel_end first_end ≡ some s1)
      × IsFree s1 (boot_directory ∷ pages_onto n p [])
  freed =
      let r =
        free_range_lem fuel s kernel_end first_end [] (omega arith) (omega arith) (omega arith)
          (record { chain = empty; distinct = tt }) tt in
      let count : page_count p first_end ≡ suc n = omega arith in
      let top : p + n * pgsize ≡ boot_directory = omega arith in
      let list : pages_onto (page_count p first_end) p [] ≡ (boot_directory ∷ pages_onto n p []) =
        ap (λ k. pages_onto k p []) count
        ∙ pages_onto-last n p []
        ∙ ap (λ x. x ∷ pages_onto n p []) top in
      (r.0, r.1, subst (IsFree r.0) list r.2)

  built :
      (s2 : Kmem) × (setup_kvm fuel kdata freed.0 ≡ ok (boot_directory, s2))
      × IsKernelSpace kdata boot_directory (pages_onto n p []) freed.0 s2
  built =
      setup_kvm_lem fuel kdata freed.0 boot_directory (pages_onto n p []) enough d freed.2
        (let l = length-pages_onto n p [] in omega arith)

  abbrev k : IsKernelSpace kdata boot_directory (pages_onto n p []) freed.0 built.0
  k = built.2

  in_first : All (λ y. (p ≤ y) × (y < first_end)) (pages_onto n p [])
  in_first =
      All-pages_onto (λ y. (p ≤ y) × (y < first_end)) n p [] (λ j h. (omega arith, omega arith)) tt

  low_pages :
      All (λ y. (p ≤ y) × (y < first_end)) k.left
      × AllTables (λ y. (p ≤ y) × (y < first_end)) built.0.mem boot_directory
  low_pages = k.within (λ y. (p ≤ y) × (y < first_end)) in_first

  below_pages :
      All (λ y. y < first_end) k.left × AllTables (λ y. y < first_end) built.0.mem boot_directory
  below_pages =
      k.within (λ y. y < first_end)
        (All-pages_onto (λ y. y < first_end) n p [] (λ j h. omega arith) tt)

  more :
      (s3 : Kmem) × (free_range fuel built.0 first_end memory_end ≡ some s3)
      × IsFree s3 (pages_onto 56_320 first_end k.left)
  more =
      free_range_lem fuel built.0 first_end memory_end k.left (omega arith) (omega arith)
        (omega arith) k.space.free below_pages.0

  kept : (b : ℕ) → b < first_end → load8 more.0.mem b ≡ load8 built.0.mem b
  kept b h = free_range-kept fuel built.0 more.0 first_end memory_end b more.1 h

  kept_all : (b : ℕ) → b < p → load8 more.0.mem b ≡ load8 s.mem b
  kept_all b h =
      kept b (omega arith)
      ∙ k.kept b (inl (omega arith))
          (All-pages_onto (OffPage b) n p [] (λ j l. inl (omega arith)) tt)
      ∙ free_range-kept fuel s freed.0 kernel_end first_end b freed.1 h

  -- No page of the kernel's space is among those that are freed behind 4 MB.
  off_upper :
      (x : ℕ)
      → x < first_end
      → All (λ y. x ≢ y) k.left
      → All (λ y. x ≢ y) (pages_onto 56_320 first_end k.left)
  off_upper x h off = All-pages_onto (λ y. x ≢ y) 56_320 first_end k.left (λ j l. omega arith) off

  dir_same : SamePage built.0 more.0 boot_directory
  dir_same b l u = kept b (omega arith)

  tables_same : AllTables (SamePage built.0 more.0) built.0.mem boot_directory
  tables_same i h t b l u =
      let low = below_pages.1 i h t in
      let al = (k.space.table i h t).page.aligned in kept b (omega arith)

  abbrev booted : Paging
  booted = record { kpgdir = boot_directory; cr3 = 0x3f_f000; kmem = more.0 }

  -- From an empty free list, with room for 67 pages between the kernel and 4 MB and enough fuel,
  -- `boot_memory` returns. The kernel's directory, in the last page below 4 MB, is loaded and maps
  -- the I/O space, code, data and devices, and nothing else; the directory and its tables are off
  -- the free list, which holds every page from 4 MB to the end of memory, and those behind the
  -- kernel but for at most 67.
  pub boot_memory_lem :
      (g : Paging) × (boot_memory fuel kernel_end kdata s ≡ ok g) × IsBooted kernel_end kdata s g
  unfolding boot_memory init_physical_memory init_kvm
  boot_memory_lem = (
    booted,
    rw (freed.1, built.1, more.1),
    record {
      left = k.left;
      directory = refl;
      loaded = refl;
      space =
          moved-IsSpace built.0 more.0 boot_directory k.left (pages_onto 56_320 first_end k.left)
            k.space dir_same tables_same more.2
            (off_upper boot_directory (omega arith) k.space.used)
            (λ i h t. off_upper _ (below_pages.1 i h t) (k.space.table i h t).used);
      entries = λ va.
          moved-entry built.0 more.0 boot_directory k.left k.left k.space dir_same tables_same va
          ∙ k.entries va;
      few = let c = k.cost in let l = length-pages_onto n p [] in omega arith;
      low = low_pages.0;
      kept = kept_all;
    },
  )
