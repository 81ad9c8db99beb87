-- ===== src/Vm/Map.antt =====
-- `map_pages` of kernel/mm/vm.c on a range of unmapped pages.
use tuix_os.Base.{
  ℕ, zero, suc, ◌+◌, ◌-◌, ◌*◌, ◌/◌, ◌%◌, ◌^◌, ◌<◌, ◌≤◌, ◌≡◌, ◌≢◌, Bool, true, false, ◌&&◌, List,
  length, All, arith, ltb, leb, ◌==◌, if◌then◌else◌, ℕ_discrete, ◌∙◌,
}
use tuix_os.Base.Int.{pos}
use tuix_os.Base.Outcome.{ok, panic}
use tuix_os.Bits.{bit_or}
use tuix_os.Memory.{null, u32, load8, load32, store32}
use tuix_os.Mmu.{pgsize, pdx, pte_p, pg_round_down}
use tuix_os.Kalloc.{Kmem}
use tuix_os.Vm.{present, walk_pgdir, map_page, continue, map_pages_loop, map_pages}
use tuix_os.Vm.Entry.{entry, entry_word}
use tuix_os.Vm.Space.{
  HasTable, IsSpace, AllTables, OffPage, write-IsSpace, write-AllTables, write-kept, write-entry,
  written_pde,
}
use tuix_os.Vm.Found.{Walked, walk_lem, price}

-- The page of `va` was mapped with the word `w`, and no other entry changed.
record Mapped (s : Kmem) (pgdir va w : ℕ) (xs : List ℕ) (s' : Kmem) : Type 1 where
  left : List ℕ
  space : IsSpace s' pgdir left
  has : HasTable s'.mem pgdir (pdx va)
  entries :
      (va' : ℕ)
      → entry s'.mem pgdir va'
        ≡ (if u32 va' / pgsize == u32 va / pgsize then w else entry s.mem pgdir va')
  cost : length xs ≡ length left + price s pgdir va
  within :
      (Q : ℕ → Type 0) → All Q xs → AllTables Q s.mem pgdir → All Q left × AllTables Q s'.mem pgdir
  kept :
      (b : ℕ)
      → OffPage b pgdir
      → All (OffPage b) xs
      → AllTables (OffPage b) s.mem pgdir
      → load8 s'.mem b ≡ load8 s.mem b

-- The permission bits of a mapping.
pub record IsPerm (perm : ℕ) : Type 0 where
  pub even : perm % 2 ≡ 0
  pub small : perm < pgsize

module _ (s : Kmem) (pgdir va pa perm : ℕ) (xs : List ℕ) (v : IsSpace s pgdir xs)
    (room : price s pgdir va ≤ length xs) (al : pa % pgsize ≡ 0) (fits : pa < 2 ^ 32)
    (flags : IsPerm perm) where
  abbrev place : ℕ
  place = (walk_pgdir s pgdir va true).0

  abbrev walked : Kmem
  walked = (walk_pgdir s pgdir va true).1

  abbrev w : ℕ
  w = bit_or (bit_or pa perm) pte_p

  found : Walked s pgdir va xs place walked
  found = walk_lem s pgdir va xs v room

  place_ne_null : place ≢ null
  place_ne_null =
      let at = found.at in
      let set = (found.space.table (pdx va) (omega arith) found.has).page.set in omega arith

  entry_at_place : load32 walked.mem place ≡ entry s.mem pgdir va
  unfolding entry
  entry_at_place = rw found.at (rw found.has at (found.entries va))

  map_page-unmapped :
      present (entry s.mem pgdir va) ≡ false
      → map_page s pgdir va pa perm ≡ ok (pos 0, record walked { mem = store32 walked.mem place w })
  unfolding map_page
  map_page-unmapped free =
      let set : (place == null) ≡ false = let ne = place_ne_null in ground arith in
      rw (set, entry_at_place, free)

  map_page-mapped : present (entry s.mem pgdir va) ≡ true → map_page s pgdir va pa perm ≡ panic
  unfolding map_page
  map_page-mapped taken =
      let set : (place == null) ≡ false = let ne = place_ne_null in ground arith in
      rw (set, entry_at_place, taken)

  Mapped-page :
      Mapped s pgdir va (pa + perm + 1) xs (record walked { mem = store32 walked.mem place w })
  Mapped-page =
      rw (found.at, entry_word pa perm al flags.even flags.small)
        (record {
          left = found.left;
          space = write-IsSpace walked pgdir va (pa + perm + 1) found.left found.space found.has;
          has =
              rw
                (written_pde walked pgdir va (pa + perm + 1) found.left found.space found.has
                  (pdx va) (omega arith))
                found.has;
          entries = λ va'. rw (← found.entries va') (
              write-entry walked pgdir va (pa + perm + 1) found.left found.space found.has va'
                (let even = flags.even in let small = flags.small in omega arith));
          cost = found.cost;
          within = λ Q h t.
              let (rest, tables) = found.within Q h t in
              (
                rest,
                write-AllTables walked pgdir va (pa + perm + 1) found.left found.space found.has Q
                    tables,
              );
          kept = λ b dir h t.
              write-kept walked pgdir va (pa + perm + 1) found.left found.space found.has b
                (found.within (OffPage b) h t).1
              ∙ found.kept b dir h t;
        })

-- The addresses of the pages from `start` to `last`.
abbrev pub in_range : (start last va : ℕ) → Bool
in_range start last va = leb start (u32 va) && ltb (u32 va) (last + pgsize)

-- The word that maps the page of `va`, where `start` is mapped to `pa`.
abbrev pub direct : (start pa perm va : ℕ) → ℕ
direct start pa perm va = u32 (pa + (u32 va / pgsize * pgsize - start)) + perm + 1

-- No page from `start` to `last` is mapped.
abbrev pub IsUnmapped : Kmem → (pgdir start last : ℕ) → Type 0
IsUnmapped s pgdir start last =
    (va : ℕ) → start ≤ va → va ≤ last → present (entry s.mem pgdir va) ≡ false

-- How many free pages suffice for the tables of the range.
abbrev pub tables_needed : Kmem → (pgdir start last : ℕ) → ℕ
tables_needed s pgdir start last = last / 2 ^ 22 - start / 2 ^ 22 + price s pgdir start

-- The pages from `start` to `last` are mapped to `pa` on, and no other entry changed. Only
-- the directory, its tables and the pages that were free are written, and the new tables are taken
-- from these.
pub record MappedRange (s : Kmem) (pgdir start last pa perm : ℕ) (xs : List ℕ) (s' : Kmem)
    : Type 1 where
  pub left : List ℕ
  pub space : IsSpace s' pgdir left
  pub cost : length xs ≤ length left + tables_needed s pgdir start last
  pub within :
      (Q : ℕ → Type 0) → All Q xs → AllTables Q s.mem pgdir → All Q left × AllTables Q s'.mem pgdir
  pub kept :
      (b : ℕ)
      → OffPage b pgdir
      → All (OffPage b) xs
      → AllTables (OffPage b) s.mem pgdir
      → load8 s'.mem b ≡ load8 s.mem b
  pub entries :
      (va : ℕ)
      → entry s'.mem pgdir va
        ≡ (if in_range start last va then direct start pa perm va else entry s.mem pgdir va)

-- The state after a round that maps `start`.
abbrev mapped : Kmem → (pgdir start pa perm : ℕ) → Kmem
mapped s pgdir start pa perm =
    let (place, walked) = walk_pgdir s pgdir start true in
    record walked { mem = store32 walked.mem place (bit_or (bit_or pa perm) pte_p) }

pub price-le : (s : Kmem) (pgdir va : ℕ) → price s pgdir va ≤ 1
price-le s pgdir va = ground arith

-- A round pays for its table: the next page needs no more than what is left.
next_needed :
    (s : Kmem) (pgdir start last word : ℕ) (xs : List ℕ) (s1 : Kmem)
    → Mapped s pgdir start word xs s1
    → start + pgsize ≤ last
    → last < 2 ^ 32
    → start % pgsize ≡ 0
    → tables_needed s1 pgdir (u32 (start + pgsize)) last + price s pgdir start
      ≤ tables_needed s pgdir start last
next_needed s pgdir start last word xs s1 m le top al =
    elim (ℕ_discrete (pdx (start + pgsize)) (pdx start)) [
      | yes e ↦
          let same : pdx (u32 (start + pgsize)) ≡ pdx start = omega arith in
          let nothing : price s1 pgdir (u32 (start + pgsize)) ≡ 0 = rw (same, m.has) in omega arith
      | no ne ↦ let small = price-le s1 pgdir (u32 (start + pgsize)) in omega arith
    ]

-- After a round the later pages are still unmapped.
later-IsUnmapped :
    (s : Kmem) (pgdir start last word : ℕ) (xs : List ℕ) (s1 : Kmem)
    → Mapped s pgdir start word xs s1
    → IsUnmapped s pgdir start last
    → start + pgsize ≤ last
    → last < 2 ^ 32
    → start % pgsize ≡ 0
    → IsUnmapped s1 pgdir (u32 (start + pgsize)) last
later-IsUnmapped s pgdir start last word xs s1 m free le top al va lo hi =
    let off : (u32 va / pgsize == u32 start / pgsize) ≡ false = ground arith in
    rw (m.entries va, off) (free va (omega arith) hi)

module _ (pgdir perm : ℕ) (flags : IsPerm perm) where
  loop-MappedRange :
      (n fuel : ℕ) (s : Kmem) (start last pa : ℕ) (xs : List ℕ)
      → IsSpace s pgdir xs
      → start % pgsize ≡ 0
      → last ≡ start + n * pgsize
      → last < 2 ^ 32
      → n < fuel
      → pa % pgsize ≡ 0
      → pa < 2 ^ 32
      → tables_needed s pgdir start last ≤ length xs
      → IsUnmapped s pgdir start last
      → (s' : Kmem) × (map_pages_loop fuel pgdir last perm start pa s ≡ ok (pos 0, s'))
        × MappedRange s pgdir start last pa perm xs s'
  unfolding map_pages_loop continue
  loop-MappedRange n zero s start last pa xs v al e top k pal pfits room free = absurd (omega arith)
  loop-MappedRange zero (suc fuel) s start last pa xs v al e top k pal pfits room free =
      let s1 : Kmem = mapped s pgdir start pa perm in
      let m : Mapped s pgdir start (pa + perm + 1) xs s1 =
        Mapped-page s pgdir start pa perm xs v (omega arith) pal pfits flags in
      let round : map_page s pgdir start pa perm ≡ ok (pos 0, s1) =
        map_page-unmapped s pgdir start pa perm xs v (omega arith) pal pfits flags
          (free start (omega arith) (omega arith)) in
      let over : (start == last) ≡ true = ground arith in
      (
        s1,
        rw (round, over),
        record {
          left = m.left;
          space = m.space;
          cost = let c = m.cost in omega arith;
          within = m.within;
          kept = m.kept;
          entries = λ va. ground (arith, m.entries va);
        },
      )
  loop-MappedRange (suc n) (suc fuel) s start last pa xs v al e top k pal pfits room free =
      let s1 : Kmem = mapped s pgdir start pa perm in
      let m : Mapped s pgdir start (pa + perm + 1) xs s1 =
        Mapped-page s pgdir start pa perm xs v (omega arith) pal pfits flags in
      let round : map_page s pgdir start pa perm ≡ ok (pos 0, s1) =
        map_page-unmapped s pgdir start pa perm xs v (omega arith) pal pfits flags
          (free start (omega arith) (omega arith)) in
      let more : (start == last) ≡ false = ground arith in
      let start' : ℕ = u32 (start + pgsize) in
      let pa' : ℕ = u32 (pa + pgsize) in
      let needed =
        next_needed s pgdir start last (pa + perm + 1) xs s1 m (omega arith) (omega arith) al in
      let (s', done, r) =
        loop-MappedRange n fuel s1 start' last pa' m.left m.space (omega arith) (omega arith) top
          (omega arith) (omega arith) (omega arith) (let c = m.cost in omega arith)
          (later-IsUnmapped s pgdir start last (pa + perm + 1) xs s1 m free (omega arith) top al) in
      (
        s',
        rw (round, more) done,
        record {
          left = r.left;
          space = r.space;
          cost = let c = m.cost in let d = r.cost in omega arith;
          within = λ Q h t. let (rest, tables) = m.within Q h t in r.within Q rest tables;
          kept = λ b dir h t.
              let (rest, tables) = m.within (OffPage b) h t in
              r.kept b dir rest tables ∙ m.kept b dir h t;
          entries = λ va. ground (arith, r.entries va, m.entries va);
        },
      )

  -- `map_pages` over unmapped pages, with a free page for each table that may be missing and fuel
  -- for one round more than there are pages, returns 0: each page of the range is mapped to its
  -- place from `pa` on with the permission and the present bit, every other entry is as before,
  -- and the directory, its tables and the free pages stay apart.
  pub map_pages_lem :
      (fuel : ℕ) (s : Kmem) (va size pa : ℕ) (xs : List ℕ)
      → IsSpace s pgdir xs
      → pg_round_down va ≤ pg_round_down (va + size + 2 ^ 32 - 1)
      → (pg_round_down (va + size + 2 ^ 32 - 1) - pg_round_down va) / pgsize < fuel
      → pa % pgsize ≡ 0
      → pa < 2 ^ 32
      → tables_needed s pgdir (pg_round_down va) (pg_round_down (va + size + 2 ^ 32 - 1))
        ≤ length xs
      → IsUnmapped s pgdir (pg_round_down va) (pg_round_down (va + size + 2 ^ 32 - 1))
      → (s' : Kmem) × (map_pages fuel s pgdir va size pa perm ≡ ok (pos 0, s'))
        × MappedRange s pgdir
            (pg_round_down va)
            (pg_round_down (va + size + 2 ^ 32 - 1))
            pa
            perm
            xs
            s'
  unfolding map_pages
  map_pages_lem fuel s va size pa xs v le k pal pfits room free =
      let start : ℕ = pg_round_down va in
      let last : ℕ = pg_round_down (va + size + 2 ^ 32 - 1) in
      loop-MappedRange ((last - start) / pgsize) fuel s start last pa xs v (omega arith)
        (omega arith) (omega arith) k pal pfits room free

  loop-panic :
      (n fuel : ℕ) (s : Kmem) (start last pa : ℕ) (xs : List ℕ)
      → IsSpace s pgdir xs
      → start % pgsize ≡ 0
      → start + n * pgsize ≤ last
      → last < 2 ^ 32
      → n < fuel
      → pa % pgsize ≡ 0
      → pa < 2 ^ 32
      → tables_needed s pgdir start last ≤ length xs
      → ((va : ℕ) → start ≤ va → va < start + n * pgsize → present (entry s.mem pgdir va) ≡ false)
      → present (entry s.mem pgdir (start + n * pgsize)) ≡ true
      → map_pages_loop fuel pgdir last perm start pa s ≡ panic
  unfolding map_pages_loop continue
  loop-panic n zero s start last pa xs v al le top k pal pfits room free taken =
      absurd (omega arith)
  loop-panic zero (suc fuel) s start last pa xs v al le top k pal pfits room free taken =
      let here : start + 0 * pgsize ≡ start = omega arith in
      rw (
        map_page-mapped s pgdir start pa perm xs v (omega arith) pal pfits flags (rw here at taken))
  loop-panic (suc n) (suc fuel) s start last pa xs v al le top k pal pfits room free taken =
      let s1 : Kmem = mapped s pgdir start pa perm in
      let m : Mapped s pgdir start (pa + perm + 1) xs s1 =
        Mapped-page s pgdir start pa perm xs v (omega arith) pal pfits flags in
      let round : map_page s pgdir start pa perm ≡ ok (pos 0, s1) =
        map_page-unmapped s pgdir start pa perm xs v (omega arith) pal pfits flags
          (free start (omega arith) (omega arith)) in
      let more : (start == last) ≡ false = ground arith in
      let needed =
        next_needed s pgdir start last (pa + perm + 1) xs s1 m (omega arith) (omega arith) al in
      let there : u32 (start + pgsize) + n * pgsize ≡ start + suc n * pgsize = omega arith in
      let off : (u32 (start + suc n * pgsize) / pgsize == u32 start / pgsize) ≡ false =
        ground arith in
      rw (round, more)
        (loop-panic n fuel s1 (u32 (start + pgsize)) last (u32 (pa + pgsize)) m.left m.space
          (omega arith) (omega arith) top (omega arith) (omega arith) (omega arith)
          (let c = m.cost in omega arith)
          (λ va lo hi.
            let apart : (u32 va / pgsize == u32 start / pgsize) ≡ false = ground arith in
            rw (m.entries va, apart) (free va (omega arith) (omega arith)))
          (rw (there, m.entries (start + suc n * pgsize), off) taken))

  -- `map_pages` panics where a page of the range is mapped already: here the `n`-th, the first
  -- that is.
  pub map_pages-panic :
      (n fuel : ℕ) (s : Kmem) (va size pa : ℕ) (xs : List ℕ)
      → IsSpace s pgdir xs
      → pg_round_down va + n * pgsize ≤ pg_round_down (va + size + 2 ^ 32 - 1)
      → n < fuel
      → pa % pgsize ≡ 0
      → pa < 2 ^ 32
      → tables_needed s pgdir (pg_round_down va) (pg_round_down (va + size + 2 ^ 32 - 1))
        ≤ length xs
      → ((b : ℕ)
          → pg_round_down va ≤ b
          → b < pg_round_down va + n * pgsize
          → present (entry s.mem pgdir b) ≡ false)
      → present (entry s.mem pgdir (pg_round_down va + n * pgsize)) ≡ true
      → map_pages fuel s pgdir va size pa perm ≡ panic
  unfolding map_pages
  map_pages-panic n fuel s va size pa xs v le k pal pfits room free taken =
      loop-panic n fuel s (pg_round_down va) (pg_round_down (va + size + 2 ^ 32 - 1)) pa xs v
        (omega arith) le (omega arith) k pal pfits room free taken
