-- ===== src/Boot/Entries.antt =====
-- What `parse_memory_map_entries` of kernel/sys/mulitiboot2.c makes of the entries.
use tuix_os.Base.{
  ℕ, zero, suc, ◌+◌, ◌-◌, ◌/◌, ◌^◌, ◌≤◌, ◌<◌, ◌≡◌, ◌≢◌, refl, sym, ap, ◌∙◌, true, false, ltb,
  lt→ltb, dec_lt, ◌==◌, if◌then◌else◌, some, List, [], ◌∷◌, get_elem?, arith,
}
use mathlib.Core.Option.{some-injective}
use tuix_os.Base.Outcome.{ok, fault}
use tuix_os.Memory.{Mem, u32, load32}
use tuix_os.Boot.{
  u64, MmapEntry, load_entry, SystemMemoryInfo, is_available, is_high, widen, reset, account,
  entry_loop, parse_memory_map_entries,
}

-- The entries in memory, and sums over them.
unfoldable pub entries : (n : ℕ) → Mem → (entry size : ℕ) → List MmapEntry
entries zero m entry size = []
entries (suc n) m entry size = load_entry m entry ∷ entries n m (u32 (entry + size)) size

unfoldable pub physical : List MmapEntry → ℕ
physical [] = 0
physical (e ∷ es) = e.len + physical es

unfoldable pub available : List MmapEntry → ℕ
available [] = 0
available (e ∷ es) = (if is_available e then e.len else 0) + available es

abbrev pub end_32 : MmapEntry → ℕ
end_32 e = u32 (u64 (e.addr + e.len))

-- A usable region above the first megabyte.
abbrev pub IsUsable : MmapEntry → Type 0
IsUsable e = (is_available e ≡ true) × (is_high e ≡ true)

module _ (i : ℕ) (e : MmapEntry) (info : SystemMemoryInfo) where
  abbrev info' : SystemMemoryInfo
  info' = account i e info

  account-physical : info'.total_physical_memory ≡ u64 (info.total_physical_memory + e.len)
  unfolding account widen
  account-physical = ground arith

  account-available :
      info.total_available_memory < 2 ^ 64
      → info'.total_available_memory
        ≡ u64 (info.total_available_memory + (if is_available e then e.len else 0))
  unfolding account widen
  account-available h = ground arith

  account-memory_map : (j : ℕ) → info'.memory_map j ≡ (if j == i then e else info.memory_map j)
  unfolding account widen
  account-memory_map j = ground arith

  account-usable :
      IsUsable e → (info'.first_usable_addr ≤ u32 e.addr) × (end_32 e ≤ info'.last_usable_addr)
  unfolding account widen
  account-usable (a, h) = ground arith

  account-bounds :
      (info.last_usable_addr ≤ info'.last_usable_addr)
      × (info.first_usable_addr ≢ 0 → info'.first_usable_addr ≤ info.first_usable_addr)
  unfolding account widen
  account-bounds = ground arith

  account-set : IsUsable e → info'.first_usable_addr ≢ 0
  unfolding account widen
  account-set (a, h) z = ground arith

  account-still_set : info.first_usable_addr ≢ 0 → info'.first_usable_addr ≢ 0
  unfolding account widen
  account-still_set ne z = ground arith

  account-count : info'.memory_map_count ≡ info.memory_map_count
  unfolding account widen
  account-count = ground arith

-- What the loop from the `i`-th entry on has made of `info`.
record Accounted (es : List MmapEntry) (i : ℕ) (info new : SystemMemoryInfo) : Type 0 where
  all : new.total_physical_memory ≡ u64 (info.total_physical_memory + physical es)
  free : new.total_available_memory ≡ u64 (info.total_available_memory + available es)
  saved : (k : ℕ) (e : MmapEntry) → get_elem? es k ≡ some e → new.memory_map (i + k) ≡ e
  kept : (j : ℕ) → j < i → new.memory_map j ≡ info.memory_map j
  usable :
      (k : ℕ) (e : MmapEntry)
      → get_elem? es k ≡ some e
      → IsUsable e
      → (new.first_usable_addr ≤ u32 e.addr) × (end_32 e ≤ new.last_usable_addr)
  lower : info.first_usable_addr ≢ 0 → new.first_usable_addr ≤ info.first_usable_addr
  upper : info.last_usable_addr ≤ new.last_usable_addr

Accounted-none :
    (i : ℕ) (info : SystemMemoryInfo)
    → info.total_physical_memory < 2 ^ 64
    → info.total_available_memory < 2 ^ 64
    → Accounted [] i info info
unfolding physical available
Accounted-none i info h h' = record {
  all = omega arith;
  free = omega arith;
  saved = λ k e u. cc;
  kept = λ j l. refl;
  usable = λ k e u. cc;
  lower = λ ne. omega arith;
  upper = omega arith;
}

module _ (es : List MmapEntry) (e : MmapEntry) (i : ℕ) (info new : SystemMemoryInfo)
    (small : info.total_available_memory < 2 ^ 64)
    (v : Accounted es (i + 1) (account i e info) new) where
  saved_more : (k : ℕ) (x : MmapEntry) → get_elem? (e ∷ es) k ≡ some x → new.memory_map (i + k) ≡ x
  saved_more zero x u =
      let z : i + 0 ≡ i = omega arith in
      rw z (
        v.kept i (omega arith)
        ∙ account-memory_map i e info i
        ∙ (ground arith)
        ∙ some-injective _ _ u)
  saved_more (suc k) x u =
      ap (λ n. new.memory_map n) (let z : i + suc k ≡ i + 1 + k = omega arith in z) ∙ v.saved k x u

  usable_more :
      (k : ℕ) (x : MmapEntry)
      → get_elem? (e ∷ es) k ≡ some x
      → IsUsable x
      → (new.first_usable_addr ≤ u32 x.addr) × (end_32 x ≤ new.last_usable_addr)
  usable_more zero x u w =
      let same : x ≡ e = sym (some-injective _ _ u) in
      let w' : IsUsable e = rw same at w in
      let (low, high) = account-usable i e info w' in
      let lower = v.lower (account-set i e info w') in
      let upper = v.upper in rw same (omega arith, omega arith)
  usable_more (suc k) x u w = v.usable k x u w

  Accounted-cons : Accounted (e ∷ es) i info new
  unfolding physical available
  Accounted-cons =
      let (up, low) = account-bounds i e info in
      let upper = v.upper in
      record {
        all = omega (arith, v.all, account-physical i e info);
        free = omega (arith, v.free, account-available i e info small);
        saved = saved_more;
        kept = λ j l. v.kept j (omega arith) ∙ account-memory_map i e info j ∙ (ground arith);
        usable = usable_more;
        lower = λ ne. omega (arith, v.lower (account-still_set i e info ne), low ne);
        upper = omega arith;
      }

entry_loop_lem :
    (n i : ℕ) (m : Mem) (entry size : ℕ) (info : SystemMemoryInfo)
    → i + n ≤ 32
    → info.total_physical_memory < 2 ^ 64
    → info.total_available_memory < 2 ^ 64
    → (new : SystemMemoryInfo) × (entry_loop n i m entry size info ≡ ok new)
      × (new.memory_map_count ≡ info.memory_map_count)
      × Accounted (entries n m entry size) i info new
unfolding entry_loop entries
entry_loop_lem zero i m entry size info room h h' = (info, refl, refl, Accounted-none i info h h')
entry_loop_lem (suc n) i m entry size info room h h' =
    let e = load_entry m entry in
    let all = account-physical i e info in
    let free = account-available i e info h' in
    let (new, ran, count, v) =
      entry_loop_lem n (i + 1) m (u32 (entry + size)) size (account i e info) (omega arith)
        (omega arith) (omega arith) in
    (
      new,
      rw (lt→ltb i 32 (omega arith)) ran,
      count ∙ account-count i e info,
      Accounted-cons (entries n m (u32 (entry + size)) size) e i info new h' v,
    )

-- More entries than the array has room for.
entry_loop-fault :
    (n i : ℕ) (m : Mem) (entry size : ℕ) (info : SystemMemoryInfo)
    → 32 < i + n
    → i ≤ 32
    → entry_loop n i m entry size info ≡ fault
unfolding entry_loop
entry_loop-fault zero i m entry size info h l = absurd (omega arith)
entry_loop-fault (suc n) i m entry size info h l = elim (dec_lt i 32) [
  | yes u ↦ rw (lt→ltb i 32 u) (
      entry_loop-fault n (i + 1) m (u32 (entry + size)) size (account i (load_entry m entry) info)
        (omega arith) (omega arith))
  | no u ↦ let full : ltb i 32 ≡ false = ground arith in rw full refl
]

-- How many entries the tag says that it has, and these.
abbrev pub count_of : Mem → (mmap : ℕ) → ℕ
count_of m mmap = u32 (load32 m (mmap + 4) + 2 ^ 32 - 16) / load32 m (mmap + 8)

abbrev pub entries_of : Mem → (mmap : ℕ) → List MmapEntry
entries_of m mmap = entries (count_of m mmap) m (u32 (mmap + 16)) (load32 m (mmap + 8))

from_zero : (n : ℕ) → 0 + n ≡ n
from_zero n = omega arith

-- With a size for its entries and no more than 32 of them, the tag is taken over: the totals are the sums
-- over all and over the available entries modulo 2 ^ 64, each entry is saved at its place, and for
-- each usable region that starts above the first megabyte and below the last byte of 4 GB, the lower boundary is
-- at most its start and the upper one at least its end modulo 2 ^ 32.
pub parse_memory_map_entries_lem :
    (m : Mem) (mmap : ℕ) (info : SystemMemoryInfo)
    → load32 m (mmap + 8) ≢ 0
    → count_of m mmap ≤ 32
    → (new : SystemMemoryInfo) × (parse_memory_map_entries m mmap info ≡ ok new)
      × (new.memory_map_count ≡ count_of m mmap)
      × (new.total_physical_memory ≡ u64 (physical (entries_of m mmap)))
      × (new.total_available_memory ≡ u64 (available (entries_of m mmap)))
      × ((k : ℕ) (e : MmapEntry)
          → get_elem? (entries_of m mmap) k ≡ some e
          → (new.memory_map k ≡ e)
            × (IsUsable e
                → (new.first_usable_addr ≤ u32 e.addr) × (end_32 e ≤ new.last_usable_addr)))
unfolding parse_memory_map_entries
parse_memory_map_entries_lem m mmap info ne room =
    let test : (load32 m (mmap + 8) == 0) ≡ false = ground arith in
    let cleared = reset (count_of m mmap) info in
    let (new, ran, count, v) =
      entry_loop_lem (count_of m mmap) 0 m (u32 (mmap + 16)) (load32 m (mmap + 8)) cleared
        (rw (from_zero (count_of m mmap)) room) (omega arith) (omega arith) in
    (
      new,
      rw test ran,
      count,
      v.all ∙ ap u64 (from_zero (physical (entries_of m mmap))),
      v.free ∙ ap u64 (from_zero (available (entries_of m mmap))),
      λ k e u. (ap new.memory_map (sym (from_zero k)) ∙ v.saved k e u, v.usable k e u),
    )

-- With more than 32 entries the loop writes past the end of `memory_map`.
pub parse_memory_map_entries-fault :
    (m : Mem) (mmap : ℕ) (info : SystemMemoryInfo)
    → load32 m (mmap + 8) ≢ 0
    → 32 < count_of m mmap
    → parse_memory_map_entries m mmap info ≡ fault
unfolding parse_memory_map_entries
parse_memory_map_entries-fault m mmap info ne many =
    let test : (load32 m (mmap + 8) == 0) ≡ false = ground arith in
    rw test (
      entry_loop-fault (count_of m mmap) 0 m (u32 (mmap + 16)) (load32 m (mmap + 8)) _
        (rw (from_zero (count_of m mmap)) many) (omega arith))
