-- ===== src/Mmu.antt =====
-- The constants and macros of include/Tuix/mmu.h. An address mask is written as division and
-- multiplication by the page size, and `& 0x3FF` as the remainder by 1024.
use tuix_os.Base.{ℕ, ◌+◌, ◌-◌, ◌*◌, ◌/◌, ◌%◌, ◌^◌}
use tuix_os.Memory.{u32}

abbrev pub free_str : ℕ
free_str = 0xdead_beef

abbrev pub pgsize : ℕ
pgsize = 4096

abbrev pub pte_p : ℕ
pte_p = 1

abbrev pub pte_w : ℕ
pte_w = 2

abbrev pub pte_u : ℕ
pte_u = 4

abbrev pub kernbase : ℕ
kernbase = 0x8000_0000

abbrev pub extmem : ℕ
extmem = 0x10_0000

abbrev pub kernlink : ℕ
kernlink = kernbase + extmem

abbrev pub devspace : ℕ
devspace = 0xfe00_0000

abbrev pub physstop : ℕ
physstop = 0xe00_0000

abbrev pub pg_round_up : ℕ → ℕ
pg_round_up sz = u32 (sz + pgsize - 1) / pgsize * pgsize

abbrev pub pg_round_down : ℕ → ℕ
pg_round_down a = u32 a / pgsize * pgsize

abbrev pub pdx : ℕ → ℕ
pdx va = u32 va / 2 ^ 22 % 1024

abbrev pub ptx : ℕ → ℕ
ptx va = u32 va / 2 ^ 12 % 1024

abbrev pub pte_addr : ℕ → ℕ
pte_addr pte = u32 pte / pgsize * pgsize

-- Both wrap at 32 bits.
abbrev pub v2p : ℕ → ℕ
v2p a = u32 (a + 2 ^ 32 - kernbase)

abbrev pub p2v : ℕ → ℕ
p2v a = u32 (a + kernbase)
