-- ===== src/Vm.antt =====
-- Page tables, kernel/mm/vm.c: the walk, the mapping of a range, and the kernel's address space.
-- A page directory and a page table are 1024 words each, in pages from the allocator.
pub mod Entry
pub mod Space
pub mod Walk
pub mod Found
pub mod Map
pub mod Kernel
pub mod Moved
pub mod User
use tuix_os.Base.{
  ℕ, zero, suc, ◌+◌, ◌-◌, ◌*◌, ◌/◌, ◌%◌, ◌^◌, Bool, true, false, List, [], ◌∷◌, ◌==◌, ltb,
  if◌then◌else◌,
}
use tuix_os.Base.Int.{ℤ, pos, negsuc}
use tuix_os.Base.Outcome.{Outcome, ok, panic, out_of_fuel, ◌>>=◌}
use tuix_os.Bits.{bit_or}
use tuix_os.Memory.{Mem, null, u32, load32, store32}
use tuix_os.Mmu.{
  pgsize, pte_p, pte_w, pte_u, kernbase, kernlink, devspace, extmem, physstop, pg_round_down, pdx,
  ptx, pte_addr, v2p, p2v,
}
use tuix_os.Str.Blocks.{memset, memmove}
use tuix_os.Kalloc.{Kmem, kalloc}

-- `entry & PTE_P`
abbrev pub present : ℕ → Bool
present entry = entry % 2 == 1

-- The branch of `walk_pgdir` for a missing page table: a new zeroed page, if there is one.
new_table : Kmem → (pde va : ℕ) → ℕ × Kmem
new_table s pde va =
    let (pgtab, s') = kalloc s in
    if pgtab == null then (null, s') else (
      pgtab + 4 * ptx va,
      record s' {
        mem =
            store32 (memset s'.mem pgtab 0 pgsize).1 pde
              (bit_or (bit_or (bit_or (v2p pgtab) pte_p) pte_w) pte_u);
      },
    )

-- The address of the page-table entry of `va`, or null.
unfoldable pub walk_pgdir : Kmem → (pgdir va : ℕ) → (alloc : Bool) → ℕ × Kmem
unfolding new_table
walk_pgdir s pgdir va alloc =
    let pde = pgdir + 4 * pdx va in
    if present (load32 s.mem pde)
    then (p2v (pte_addr (load32 s.mem pde)) + 4 * ptx va, s)
    else if alloc
    then new_table s pde va
    else (null, s)

-- One round of the loop of `map_pages`: -1 without a page table, a panic on a page that is mapped
-- already, else the entry is written.
map_page : Kmem → (pgdir start pa perm : ℕ) → Outcome (ℤ × Kmem)
map_page s pgdir start pa perm =
    let (pte, s') = walk_pgdir s pgdir start true in
    if pte == null
    then ok (negsuc 0, s')
    else if present (load32 s'.mem pte)
    then panic
    else ok (pos 0, record s' { mem = store32 s'.mem pte (bit_or (bit_or pa perm) pte_p) })

-- What follows a round: the end, or the next page.
continue : (ℕ → ℕ → Kmem → Outcome (ℤ × Kmem)) → (start last pa : ℕ) → ℤ × Kmem → Outcome (ℤ × Kmem)
continue again start last pa (negsuc n, s) = ok (negsuc n, s)
continue again start last pa (pos n, s) =
    if start == last then ok (pos 0, s) else again (u32 (start + pgsize)) (u32 (pa + pgsize)) s

map_pages_loop : (fuel : ℕ) → (pgdir last perm start pa : ℕ) → Kmem → Outcome (ℤ × Kmem)
map_pages_loop zero pgdir last perm start pa s = out_of_fuel
map_pages_loop (suc fuel) pgdir last perm start pa s =
    map_page s pgdir start pa perm >>= continue (map_pages_loop fuel pgdir last perm) start last pa

unfoldable pub map_pages : (fuel : ℕ) → Kmem → (pgdir va size pa perm : ℕ) → Outcome (ℤ × Kmem)
unfolding map_pages_loop map_page continue
map_pages fuel s pgdir va size pa perm =
    map_pages_loop fuel pgdir (pg_round_down (va + size + 2 ^ 32 - 1)) perm (pg_round_down va) pa s

-- `struct kmap`
pub record Kmap : Type 0 where
  pub virt : ℕ
  pub phys_start : ℕ
  pub phys_end : ℕ
  pub perm : ℕ

-- `k_maps`, for the linker's address of the kernel's data
abbrev pub k_maps : (kdata_start_addr : ℕ) → List Kmap
k_maps kdata =
    record { virt = kernbase; phys_start = 0; phys_end = extmem; perm = pte_w }
    ∷ record { virt = kernlink; phys_start = v2p kernlink; phys_end = v2p kdata; perm = 0 }
    ∷ record { virt = kdata; phys_start = v2p kdata; phys_end = physstop; perm = pte_w }
    ∷ record { virt = devspace; phys_start = devspace; phys_end = 0; perm = pte_w }
    ∷ []

-- `phys_end - phys_start`, in 32 bits
abbrev pub map_size : Kmap → ℕ
map_size k = u32 (k.phys_end + 2 ^ 32 - k.phys_start)

-- The loop of `setup_kvm` over the table.
map_all : (fuel : ℕ) → (pgdir : ℕ) → List Kmap → Kmem → Outcome Kmem
map_all fuel pgdir [] s = ok s
map_all fuel pgdir (k ∷ ks) s = do
  (result, s') ← map_pages fuel s pgdir k.virt (map_size k) k.phys_start k.perm
  elim result [ negsuc _ ↦ panic | pos _ ↦ map_all fuel pgdir ks s' ]

-- `setup_kvm` behind its `kalloc`.
setup_at : (fuel kdata_start_addr : ℕ) → ℕ × Kmem → Outcome (ℕ × Kmem)
setup_at fuel kdata (pgdir, s) = if pgdir == null then ok (null, s) else do
  s' ← map_all fuel pgdir (k_maps kdata) (record s { mem = (memset s.mem pgdir 0 pgsize).1 })
  ok (pgdir, s')

unfoldable pub setup_kvm : (fuel kdata_start_addr : ℕ) → Kmem → Outcome (ℕ × Kmem)
unfolding setup_at map_all
setup_kvm fuel kdata s = setup_at fuel kdata (kalloc s)

-- `kalloc` is not checked here: on null the `memset` and `memmove` write nothing, and page 0 is
-- mapped.
unfoldable pub init_uvm : (fuel : ℕ) → Kmem → (pgdir init size : ℕ) → Outcome Kmem
init_uvm fuel s pgdir init size =
    if ltb pgsize size
    then panic
    else let (page, s') = kalloc s in
      do
        (result, s'') ←
            map_pages fuel (record s' { mem = (memset s'.mem page 0 pgsize).1 }) pgdir 0 pgsize
              (v2p page) (bit_or pte_w pte_u)
        ok (record s'' { mem = (memmove s''.mem page init size).1 })
