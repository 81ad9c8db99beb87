-- ===== src/Gdt/Entry.antt =====
-- What the processor reads out of a descriptor of kernel/sys/gdt.c.
use tuix_os.Base.{ℕ, ◌+◌, ◌*◌, ◌/◌, ◌%◌, ◌^◌, ◌<◌, ◌≡◌, ◌≢◌, ◌-◌, true, ◌==◌, arith}
use tuix_os.Bits.{bit_or, bit_or-disjoint_left}
use tuix_os.Gdt.{GdtEntry, Gdt, init_gdt, set_tss_entry}

abbrev pub entry_base : GdtEntry → ℕ
entry_base e = e.base_low + e.base_middle * 2 ^ 16 + e.base_high * 2 ^ 24

abbrev pub entry_limit : GdtEntry → ℕ
entry_limit e = e.limit_low + e.granularity % 16 * 2 ^ 16

granularity_lem :
    (limit g : ℕ)
    → bit_or (limit / 2 ^ 16 % 16) (g / 16 % 16 * 16) ≡ limit / 2 ^ 16 % 16 + g / 16 % 16 * 16
granularity_lem limit g = bit_or-disjoint_left 4 (limit / 2 ^ 16 % 16) (g / 16 % 16) (omega arith)

-- `set_tss_entry` with a 32-bit base, a 20-bit limit and 8-bit flags: the descriptor at `num` has the
-- whole base, the whole limit, and the upper four flag bits, and every other descriptor is kept.
pub set_tss_entry_lem :
    (num base limit access granularity : ℕ) (t : Gdt)
    → base < 2 ^ 32
    → limit < 2 ^ 20
    → granularity < 2 ^ 8
    → (entry_base (set_tss_entry num base limit access granularity t num) ≡ base)
      × (entry_limit (set_tss_entry num base limit access granularity t num) ≡ limit)
      × ((set_tss_entry num base limit access granularity t num).granularity / 16
          ≡ granularity / 16)
      × ((k : ℕ) → k ≢ num → set_tss_entry num base limit access granularity t k ≡ t k)
unfolding set_tss_entry
set_tss_entry_lem num base limit access g t b l f =
    let here : (num == num) ≡ true = ground arith in
    (
      rw here (omega arith),
      rw (here, granularity_lem limit g) (omega arith),
      rw (here, granularity_lem limit g) (omega arith),
      λ k ne. ground arith,
    )

-- The four segments behind the null one cover the whole address space from 0: their limit is
-- 2 ^ 20 - 1 pages.
pub init_gdt_flat :
    (t : Gdt) (k : ℕ)
    → 0 < k
    → k < 5
    → (entry_base (init_gdt t k) ≡ 0) × (entry_limit (init_gdt t k) ≡ 2 ^ 20 - 1)
unfolding init_gdt
init_gdt_flat t k l u = (ground arith, ground arith)
