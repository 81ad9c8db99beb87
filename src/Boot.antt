-- ===== src/Boot.antt =====
-- What the boot loader tells about the memory, kernel/sys/mulitiboot2.c, read from the flat memory. The
-- messages are left out. Writing past the 32 entries of `memory_map`, and a division by zero, are faults.
pub mod Entries
pub mod Tags
use tuix_os.Base.{
  ℕ, zero, suc, ◌+◌, ◌-◌, ◌*◌, ◌/◌, ◌%◌, ◌^◌, Bool, true, false, ◌&&◌, ◌||◌, not, ltb, leb, ◌==◌,
  if◌then◌else◌,
}
use tuix_os.Base.Outcome.{Outcome, ok, fault, out_of_fuel, ◌>>=◌}
use tuix_os.Memory.{Mem, u32, load32}

abbrev pub u64 : ℕ → ℕ
u64 n = n % 2 ^ 64

abbrev pub multiboot2_bootloader_magic : ℕ
multiboot2_bootloader_magic = 0x36D76289

abbrev pub tag_end : ℕ
tag_end = 0

abbrev pub tag_basic_meminfo : ℕ
tag_basic_meminfo = 4

abbrev pub tag_mmap : ℕ
tag_mmap = 6

-- `struct multiboot_mmap_entry`, and reading it.
pub record MmapEntry : Type 0 where
  pub addr : ℕ
  pub len : ℕ
  pub type : ℕ
  pub zero_word : ℕ

abbrev pub load64 : Mem → ℕ → ℕ
load64 m a = load32 m a + load32 m (a + 4) * 2 ^ 32

abbrev pub load_entry : Mem → ℕ → MmapEntry
load_entry m a = record {
  addr = load64 m a;
  len = load64 m (a + 8);
  type = load32 m (a + 16);
  zero_word = load32 m (a + 20);
}

-- The addresses that the linker gives.
pub record Sections : Type 0 where
  pub kernel_start : ℕ
  pub text_start : ℕ
  pub text_end : ℕ
  pub rodata_start : ℕ
  pub rodata_end : ℕ
  pub data_start : ℕ
  pub data_end : ℕ
  pub bss_start : ℕ
  pub bss_end : ℕ
  pub kernel_end : ℕ

-- `struct system_memory_info`
pub record SystemMemoryInfo : Type 0 where
  pub memory_map : ℕ → MmapEntry
  pub memory_map_count : ℕ
  pub total_physical_memory : ℕ
  pub total_available_memory : ℕ
  pub first_usable_addr : ℕ
  pub last_usable_addr : ℕ
  pub sections : Sections
  pub mem_lower : ℕ
  pub mem_upper : ℕ

-- `entry->type == 1`, and the test on the address below it.
abbrev pub is_available : MmapEntry → Bool
is_available e = e.type == 1

abbrev pub is_high : MmapEntry → Bool
is_high e = leb 0x100000 e.addr && ltb e.addr 0xFFFFFFFF

-- The two boundaries with a usable region.
unfoldable pub widen : MmapEntry → SystemMemoryInfo → SystemMemoryInfo
widen e info =
    let start_32 = u32 e.addr in
    let end_32 = u32 (u64 (e.addr + e.len)) in
    record info {
      first_usable_addr =
          if (info.first_usable_addr == 0) || ltb start_32 info.first_usable_addr
          then start_32
          else info.first_usable_addr;
      last_usable_addr = if ltb info.last_usable_addr end_32 then end_32 else info.last_usable_addr;
    }

-- The body of the loop on the `i`-th entry.
unfoldable pub account : (i : ℕ) → MmapEntry → SystemMemoryInfo → SystemMemoryInfo
unfolding widen
account i e info =
    let info = record info {
      memory_map = λ j. if j == i then e else info.memory_map j;
      total_physical_memory = u64 (info.total_physical_memory + e.len);
    } in
    if is_available e
    then (let info = record info {
      total_available_memory = u64 (info.total_available_memory + e.len);
    } in
        if is_high e then widen e info else info)
    else info

-- `for (uint32_t i = 0; i < entry_count; i++)` from `i` on.
unfoldable pub entry_loop :
    (rounds i : ℕ) → Mem → (entry size : ℕ) → SystemMemoryInfo → Outcome SystemMemoryInfo
unfolding account
entry_loop zero i m entry size info = ok info
entry_loop (suc rounds) i m entry size info =
    let rest =
      entry_loop rounds (i + 1) m (u32 (entry + size)) size (account i (load_entry m entry) info) in
    if ltb i 32 then rest else fault

-- The statistics at the start, for `entry_count` entries.
abbrev pub reset : (entry_count : ℕ) → SystemMemoryInfo → SystemMemoryInfo
reset entry_count info = record info {
  total_physical_memory = 0;
  total_available_memory = 0;
  first_usable_addr = 0;
  last_usable_addr = 0;
  memory_map_count = entry_count;
}

unfoldable pub parse_memory_map_entries :
    Mem → (mmap : ℕ) → SystemMemoryInfo → Outcome SystemMemoryInfo
unfolding entry_loop
parse_memory_map_entries m mmap info =
    let size = load32 m (mmap + 4) in
    let entry_size = load32 m (mmap + 8) in
    let entry_count = u32 (size + 2 ^ 32 - 16) / entry_size in
    if entry_size == 0
    then fault
    else entry_loop entry_count 0 m (u32 (mmap + 16)) entry_size (reset entry_count info)

-- `switch (tag->type)`
unfoldable pub parse_tag : Mem → (tag : ℕ) → SystemMemoryInfo → Outcome SystemMemoryInfo
unfolding parse_memory_map_entries
parse_tag m tag info =
    if load32 m tag == tag_basic_meminfo
    then ok (record info { mem_lower = load32 m (tag + 8); mem_upper = load32 m (tag + 12) })
    else if load32 m tag == tag_mmap
    then parse_memory_map_entries m tag info
    else ok info

-- The tag behind: `(uint8_t*)tag + ((tag->size + 7) & ~7)`.
abbrev pub next_tag : Mem → (tag : ℕ) → ℕ
next_tag m tag = u32 (tag + u32 (load32 m (tag + 4) + 7) / 8 * 8)

unfoldable pub tag_loop : (fuel : ℕ) → Mem → (tag : ℕ) → SystemMemoryInfo → Outcome SystemMemoryInfo
unfolding parse_tag
tag_loop zero m tag info = out_of_fuel
tag_loop (suc fuel) m tag info =
    let rest = parse_tag m tag info >>= tag_loop fuel m (next_tag m tag) in
    if load32 m tag == tag_end then ok info else rest

-- `parse_kernel_info`
abbrev pub parse_kernel_info : Sections → SystemMemoryInfo → SystemMemoryInfo
parse_kernel_info s info = record info { sections = s }

unfoldable pub parse_multiboot2_info :
    (fuel : ℕ) → Sections → Mem → (magic addr : ℕ) → SystemMemoryInfo → Outcome SystemMemoryInfo
unfolding tag_loop
parse_multiboot2_info fuel s m magic addr info =
    if not (magic == multiboot2_bootloader_magic)
    then ok info
    else tag_loop fuel m (u32 (addr + 8)) info >>= λ info. ok (parse_kernel_info s info)
