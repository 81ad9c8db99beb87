-- ===== src/Gdt.antt =====
-- The segment descriptors of kernel/sys/gdt.c and include/Tuix/gdt.h. The table is a function of the
-- index. Loading the table into the processor is assembly and left out.
pub mod Entry
use tuix_os.Base.{ℕ, ◌*◌, ◌/◌, ◌%◌, ◌^◌, ◌==◌, if◌then◌else◌}
use tuix_os.Bits.{bit_or}
use tuix_os.Memory.{u8}

-- `struct gdt_entry`
pub record GdtEntry : Type 0 where
  pub limit_low : ℕ
  pub base_low : ℕ
  pub base_middle : ℕ
  pub access : ℕ
  pub granularity : ℕ
  pub base_high : ℕ

abbrev pub Gdt : Type 0
Gdt = ℕ → GdtEntry

abbrev pub put : ℕ → GdtEntry → Gdt → Gdt
put num e t k = if k == num then e else t k

-- A segment of the flat model: the whole address space, in pages, with these access rights.
abbrev pub flat : (access : ℕ) → GdtEntry
flat access = record {
  limit_low = 0xFFFF;
  base_low = 0x0000;
  base_middle = 0x00;
  access = access;
  granularity = 0xCF;
  base_high = 0x00;
}

-- The null segment, the kernel's code and data, and the user's.
unfoldable pub init_gdt : Gdt → Gdt
init_gdt t =
    let empty : GdtEntry = record {
      limit_low = 0x0000;
      base_low = 0x0000;
      base_middle = 0x00;
      access = 0x00;
      granularity = 0x00;
      base_high = 0x00;
    } in
    put 4 (flat 0xF2) (put 3 (flat 0xFA) (put 2 (flat 0x92) (put 1 (flat 0x9A) (put 0 empty t))))

unfoldable pub set_tss_entry : (num base limit access granularity : ℕ) → Gdt → Gdt
set_tss_entry num base limit access granularity = put num (record {
  base_low = base % 2 ^ 16;
  base_middle = base / 2 ^ 16 % 2 ^ 8;
  base_high = base / 2 ^ 24 % 2 ^ 8;
  limit_low = limit % 2 ^ 16;
  granularity = bit_or (limit / 2 ^ 16 % 16) (granularity / 16 % 16 * 16);
  access = u8 access;
})
