-- ===== src/Tests/Boots.antt =====
-- The boot information in a memory with one tag of one region, and in one that is clear but for a type.
use tuix_os.Base.{ℕ, ◌+◌, ◌≤◌, ◌≡◌, ◌≢◌, refl, some, ◌==◌, if◌then◌else◌, get_elem?, arith}
use tuix_os.Base.Outcome.{ok, out_of_fuel}
use tuix_os.Memory.{Mem, u32, load8, load32}
use tuix_os.Boot.{u64, MmapEntry, Sections, SystemMemoryInfo, parse_memory_map_entries, tag_loop}
use tuix_os.Boot.Entries.{
  physical, available, end_32, IsUsable, count_of, entries_of, parse_memory_map_entries_lem,
}
use tuix_os.Boot.Tags.{IsSane, Tags, last, more, tag_loop_ends, tag_loop_endless}

-- At 0x1000 a memory map of 40 bytes, with one available region of 2 MB from 1 MB on; behind it the end.
abbrev one_region : Mem
one_region a =
    if a == 0x1000
    then 6
    else if a == 0x1004
    then 40
    else if a == 0x1008
    then 24
    else if a == 0x1012
    then 0x10
    else if a == 0x101A
    then 0x20
    else if a == 0x1020
    then 1
    else 0

abbrev no_sections : Sections
no_sections = record {
  kernel_start = 0;
  text_start = 0;
  text_end = 0;
  rodata_start = 0;
  rodata_end = 0;
  data_start = 0;
  data_end = 0;
  bss_start = 0;
  bss_end = 0;
  kernel_end = 0;
}

abbrev no_info : SystemMemoryInfo
no_info = record {
  memory_map = λ i. record { addr = 0; len = 0; type = 0; zero_word = 0 };
  memory_map_count = 0;
  total_physical_memory = 0;
  total_available_memory = 0;
  first_usable_addr = 0;
  last_usable_addr = 0;
  sections = no_sections;
  mem_lower = 0;
  mem_upper = 0;
}

size_set : load32 one_region 0x1008 ≡ 24
unfolding load32 load8
size_set = refl

one_entry : count_of one_region 0x1000 ≡ 1
unfolding load32 load8
one_entry = refl

entries_example :
    (new : SystemMemoryInfo) × (parse_memory_map_entries one_region 0x1000 no_info ≡ ok new)
    × (new.memory_map_count ≡ count_of one_region 0x1000)
    × (new.total_physical_memory ≡ u64 (physical (entries_of one_region 0x1000)))
    × (new.total_available_memory ≡ u64 (available (entries_of one_region 0x1000)))
    × ((k : ℕ) (e : MmapEntry)
        → get_elem? (entries_of one_region 0x1000) k ≡ some e
        → (new.memory_map k ≡ e)
          × (IsUsable e → (new.first_usable_addr ≤ u32 e.addr) × (end_32 e ≤ new.last_usable_addr)))
entries_example =
    parse_memory_map_entries_lem one_region 0x1000 no_info (omega (arith, size_set))
      (omega (arith, one_entry))

type_set : load32 one_region 0x1000 ≡ 6
unfolding load32 load8
type_set = refl

length_set : load32 one_region (0x1000 + 4) ≡ 40
unfolding load32 load8
length_set = refl

end_behind : load32 one_region 0x1028 ≡ 0
unfolding load32 load8
end_behind = refl

two_tags : Tags one_region (IsSane one_region) 0x1000 1
two_tags =
    more 0x1028 (omega (arith, type_set)) (λ e. (omega (arith, size_set), omega (arith, one_entry)))
      refl (omega (arith, length_set)) (omega (arith, length_set)) refl (omega arith)
      (last end_behind)

ends_example : tag_loop 2 one_region 0x1000 no_info ≢ out_of_fuel
ends_example =
    tag_loop_ends 2 1 one_region (IsSane one_region) 0x1000 no_info two_tags (omega arith)

-- A tag of type 1 and of size 0.
abbrev no_size : Mem
no_size a = if a == 0x1000 then 1 else 0

no_size-type : load32 no_size 0x1000 ≡ 1
unfolding load32 load8
no_size-type = refl

no_size-size : load32 no_size (0x1000 + 4) ≡ 0
unfolding load32 load8
no_size-size = refl

endless_example : tag_loop 1000 no_size 0x1000 no_info ≡ out_of_fuel
endless_example =
    tag_loop_endless 1000 no_size 0x1000 no_info (omega arith) no_size-size
      (omega (arith, no_size-type)) (omega (arith, no_size-type))
