-- ===== src/Vm/Entry.antt =====
-- The words of page directories and page tables in kernel/mm/vm.c, and what the processor reads
-- from them for an address.
use tuix_os.Base.{ℕ, ◌+◌, ◌*◌, ◌/◌, ◌%◌, ◌^◌, ◌<◌, ◌≡◌, arith, if◌then◌else◌}
use tuix_os.Bits.{bit_or, bit_or-halves, bit_or-disjoint}
use tuix_os.Memory.{Mem, load32}
use tuix_os.Mmu.{pgsize, pte_p, pte_w, pte_u, pdx, ptx, pte_addr, v2p, p2v}
use tuix_os.Vm.{present}

-- A page's address with its flags: the sum, where the address is aligned and the flags are even.
pub entry_word :
    (pa perm : ℕ)
    → pa % pgsize ≡ 0
    → perm % 2 ≡ 0
    → perm < pgsize
    → bit_or (bit_or pa perm) pte_p ≡ pa + perm + 1
entry_word pa perm al even small = ground (
  arith,
  bit_or-disjoint 12 (pa / pgsize) perm small,
  bit_or-disjoint 1 ((pa + perm) / 2) 1 (omega arith),
)

or_p : (pa : ℕ) → pa % 2 ≡ 0 → bit_or pa pte_p ≡ pa + 1
or_p pa al = ground (arith, bit_or-disjoint 1 (pa / 2) 1)

or_w : (pa : ℕ) → pa % 4 ≡ 0 → bit_or (pa + 1) pte_w ≡ pa + 3
or_w pa al =
    let half : (pa + 1) / 2 ≡ pa / 2 = omega arith in
    ground (arith, bit_or-halves (pa + 1) 2, or_p (pa / 2))

or_u : (pa : ℕ) → pa % 8 ≡ 0 → bit_or (pa + 3) pte_u ≡ pa + 7
or_u pa al =
    let half : (pa + 3) / 2 ≡ pa / 2 + 1 = omega arith in
    ground (arith, bit_or-halves (pa + 3) 4, or_w (pa / 2))

-- The word that links a page table into the directory.
pub directory_word :
    (pa : ℕ) → pa % pgsize ≡ 0 → bit_or (bit_or (bit_or pa pte_p) pte_w) pte_u ≡ pa + 7
directory_word pa al =
    ground (arith, or_p pa (omega arith), or_w pa (omega arith), or_u pa (omega arith))

-- The word of the directory for the `i`-th table.
abbrev pub pde_at : Mem → (pgdir i : ℕ) → ℕ
pde_at m pgdir i = load32 m (pgdir + 4 * i)

-- The kernel's address of the `i`-th table.
abbrev pub table_at : Mem → (pgdir i : ℕ) → ℕ
table_at m pgdir i = p2v (pte_addr (pde_at m pgdir i))

-- The `j`-th entry of the `i`-th table, or 0 where there is no such table.
abbrev pub entry_at : Mem → (pgdir i j : ℕ) → ℕ
entry_at m pgdir i j =
    if present (pde_at m pgdir i) then load32 m (table_at m pgdir i + 4 * j) else 0

-- The entry that the processor's walk finds for an address.
unfoldable pub entry : Mem → (pgdir va : ℕ) → ℕ
entry m pgdir va = entry_at m pgdir (pdx va) (ptx va)

-- A linked table is found again at its own address.
pub table_word :
    (page : ℕ) → page % pgsize ≡ 0 → page < 2 ^ 32 → p2v (pte_addr (v2p page + 7)) ≡ page
table_word page al fits = omega arith
