-- ===== src/Boot/Tags.antt =====
-- The walk over the tags of the boot information, kernel/sys/mulitiboot2.c.
use tuix_os.Base.{
  ℕ, ◌%◌, ◌≤◌, zero, suc, ◌+◌, ◌^◌, ◌<◌, ◌≡◌, ◌≢◌, refl, Bool, true, false, ltb, ◌==◌, Bool-cases,
  inl, inr, if◌then◌else◌, arith,
}
use tuix_os.Base.Outcome.{Outcome, ok, panic, hang, fault, out_of_fuel, ◌>>=◌}
use tuix_os.Memory.{Mem, u32, load32}
use tuix_os.Boot.Entries.{count_of, parse_memory_map_entries_lem}
use tuix_os.Boot.{
  SystemMemoryInfo, tag_end, tag_basic_meminfo, tag_mmap, next_tag, parse_tag, tag_loop, reset,
  account, load_entry, entry_loop, parse_memory_map_entries,
}

-- A list of tags as the boot loader lays it out, from the tag at `tag` on, with `n` tags in front of the one
-- that ends it. Each starts at a multiple of 8, the next at the first such address behind its `size` bytes,
-- and each in front of the last has `P`.
pub data Tags (m : Mem) (P : ℕ → Type 0) : (tag n : ℕ) → Type 0 where
  last : {tag : ℕ} → load32 m tag ≡ tag_end → Tags m P tag 0
  more :
      {tag n : ℕ} (behind : ℕ)
      → load32 m tag ≢ tag_end
      → P tag
      → behind % 8 ≡ 0
      → tag + load32 m (tag + 4) ≤ behind
      → behind < tag + load32 m (tag + 4) + 8
      → tag % 8 ≡ 0
      → behind < 2 ^ 32
      → Tags m P behind n
      → Tags m P tag (suc n)

next_tag-behind :
    (m : Mem) (tag behind : ℕ)
    → behind % 8 ≡ 0
    → tag + load32 m (tag + 4) ≤ behind
    → behind < tag + load32 m (tag + 4) + 8
    → tag % 8 ≡ 0
    → behind < 2 ^ 32
    → next_tag m tag ≡ behind
next_tag-behind m tag behind al lo hi al' fits = omega arith

-- The result is there, whichever it is.
abbrev Ends : {A : Type 0} → Outcome A → Type 0
Ends out_of_fuel = ⊥
Ends _ = Unit

Ends-if : {A : Type 0} (b : Bool) (o o' : Outcome A) → Ends o → Ends o' → Ends (if b then o else o')
Ends-if true o o' h h' = h
Ends-if false o o' h h' = h'

Ends-bind :
    {A B : Type 0} (o : Outcome A) (f : A → Outcome B)
    → Ends o
    → ((a : A) → Ends (f a))
    → Ends (o >>= f)
Ends-bind (ok a) f h each = each a
Ends-bind panic f h each = tt
Ends-bind hang f h each = tt
Ends-bind fault f h each = tt
Ends-bind out_of_fuel f h each = h

entry_loop-Ends :
    (n i : ℕ) (m : Mem) (entry size : ℕ) (info : SystemMemoryInfo)
    → Ends (entry_loop n i m entry size info)
unfolding entry_loop
entry_loop-Ends zero i m entry size info = tt
entry_loop-Ends (suc n) i m entry size info =
    Ends-if (ltb i 32) _ _
      (entry_loop-Ends n (i + 1) m (u32 (entry + size)) size (account i (load_entry m entry) info))
      tt

parse_tag-Ends : (m : Mem) (tag : ℕ) (info : SystemMemoryInfo) → Ends (parse_tag m tag info)
unfolding parse_tag parse_memory_map_entries
parse_tag-Ends m tag info = Ends-if (load32 m tag == tag_basic_meminfo) _ _ tt (
    Ends-if (load32 m tag == tag_mmap) _ _
      (Ends-if (load32 m (tag + 8) == 0) _ _ tt (
        entry_loop-Ends (count_of m tag) 0 m (u32 (tag + 16)) (load32 m (tag + 8))
          (reset (count_of m tag) info)))
      tt)

tag_loop-Ends :
    (fuel n : ℕ) (m : Mem) (P : ℕ → Type 0) (tag : ℕ) (info : SystemMemoryInfo)
    → Tags m P tag n
    → n < fuel
    → Ends (tag_loop fuel m tag info)
unfolding tag_loop
tag_loop-Ends zero n m P tag info v h = absurd (omega arith)
tag_loop-Ends (suc fuel) zero m P tag info (last e) h = rw e tt
tag_loop-Ends (suc fuel) (suc n) m P tag info (more behind ne good al lo hi al' fits v) h =
    Ends-if (load32 m tag == tag_end) _ _ tt (
      Ends-bind (parse_tag m tag info) _ (parse_tag-Ends m tag info) (λ new.
        rw (next_tag-behind m tag behind al lo hi al' fits)
          (tag_loop-Ends fuel n m P behind new v (omega arith))))

-- The walk over a list of `n` tags in front of the one that ends it has ended within `n + 1` rounds. Each
-- tag of the list starts at the first multiple of 8 behind the `size` bytes of the one before it.
pub tag_loop_ends :
    (fuel n : ℕ) (m : Mem) (P : ℕ → Type 0) (tag : ℕ) (info : SystemMemoryInfo)
    → Tags m P tag n
    → n < fuel
    → tag_loop fuel m tag info ≢ out_of_fuel
tag_loop_ends fuel n m P tag info v h u =
    let ends = tag_loop-Ends fuel n m P tag info v h in rw u at ends

-- A tag that `parse_tag` takes: a memory map has a size for its entries, and at most 32 of them.
abbrev pub IsSane : Mem → (tag : ℕ) → Type 0
IsSane m tag = load32 m tag ≡ tag_mmap → (load32 m (tag + 8) ≢ 0) × (count_of m tag ≤ 32)

parse_tag-sane :
    (m : Mem) (tag : ℕ) (info : SystemMemoryInfo)
    → IsSane m tag
    → (new : SystemMemoryInfo) × (parse_tag m tag info ≡ ok new)
unfolding parse_tag
parse_tag-sane m tag info sane = elim (Bool-cases (load32 m tag == tag_basic_meminfo)) [
  | inl b ↦
      (record info { mem_lower = load32 m (tag + 8); mem_upper = load32 m (tag + 12) }, rw b refl)
  | inr b ↦ elim (Bool-cases (load32 m tag == tag_mmap)) [
    | inl c ↦
        let (ne, room) = sane (ground arith) in
        let r = parse_memory_map_entries_lem m tag info ne room in (r.0, rw (b, c) r.1)
    | inr c ↦ (info, rw (b, c) refl)
  ]
]

-- Over tags that are sane the walk gives a result.
pub tag_loop_sane :
    (fuel n : ℕ) (m : Mem) (tag : ℕ) (info : SystemMemoryInfo)
    → Tags m (IsSane m) tag n
    → n < fuel
    → (new : SystemMemoryInfo) × (tag_loop fuel m tag info ≡ ok new)
unfolding tag_loop
tag_loop_sane zero n m tag info v h = absurd (omega arith)
tag_loop_sane (suc fuel) zero m tag info (last e) h = (info, rw e refl)
tag_loop_sane (suc fuel) (suc n) m tag info (more behind ne good al lo hi al' fits v) h =
    let (new, ran) = parse_tag-sane m tag info good in
    let (end, rest) = tag_loop_sane fuel n m behind new v (omega arith) in
    let test : (load32 m tag == tag_end) ≡ false = ground arith in
    (end, rw (test, ran, next_tag-behind m tag behind al lo hi al' fits) rest)

-- A tag with a size of 0 that is neither the end nor a memory map is its own successor: with any number of
-- rounds the walk has not ended.
pub tag_loop_endless :
    (fuel : ℕ) (m : Mem) (tag : ℕ) (info : SystemMemoryInfo)
    → tag < 2 ^ 32
    → load32 m (tag + 4) ≡ 0
    → load32 m tag ≢ tag_end
    → load32 m tag ≢ tag_mmap
    → tag_loop fuel m tag info ≡ out_of_fuel
unfolding tag_loop parse_tag
tag_loop_endless zero m tag info h z ne ne' = refl
tag_loop_endless (suc fuel) m tag info h z ne ne' =
    let stays : next_tag m tag ≡ tag = rw z (omega arith) in
    let test : (load32 m tag == tag_end) ≡ false = ground arith in
    let test' : (load32 m tag == tag_mmap) ≡ false = ground arith in
    elim (Bool-cases (load32 m tag == tag_basic_meminfo)) [
      | inl b ↦
          rw (test, b, stays)
            (tag_loop_endless fuel m tag
              (record info { mem_lower = load32 m (tag + 8); mem_upper = load32 m (tag + 12) }) h z
              ne ne')
      | inr b ↦ rw (test, b, test', stays) (tag_loop_endless fuel m tag info h z ne ne')
    ]
