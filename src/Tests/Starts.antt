-- ===== src/Tests/Starts.antt =====
-- The start of the kernel with an image up to 0x80300000, the code of the first process inside it, and a
-- process table with one unused entry.
use tuix_os.Base.{
  ℕ, ◌+◌, ◌^◌, ◌≡◌, ◌<◌, ◌≤◌, refl, false, none, inl, List, [], ◌∷◌, All, length, arith,
}
use tuix_os.Base.Outcome.{ok}
use tuix_os.Kalloc.{Kmem}
use tuix_os.Kalloc.Chain.{IsFree}
use tuix_os.Kalloc.Range.{pages_onto, free_range_lem}
use tuix_os.Kalloc.Span.{All-pages_onto}
use tuix_os.Vm.Space.{OffPage}
use tuix_os.Process.Table.{IsFirstUnused, find_unused_lem}
use tuix_os.Process.{Proc, Kernel, unused, find_unused}
use tuix_os.Vm.Kernel.{IsData}
use tuix_os.Start.{Paging, boot_memory, init_user}
use tuix_os.Start.Memory.{IsBooted, boot_memory_lem}
use tuix_os.Start.User.{IsFirst, init_user_lem}

abbrev nothing_free : Kmem
nothing_free = record { mem = λ a. 0x90; freelist = 0 }

linked-IsData : IsData 0x8020_0000
linked-IsData = record { aligned = refl; behind = omega arith; below = omega arith }

boot_memory_example :
    (g : Paging) × (boot_memory (2 ^ 20 + 1) 0x8030_0000 0x8020_0000 nothing_free ≡ ok g)
    × IsBooted 0x8030_0000 0x8020_0000 nothing_free g
boot_memory_example =
    boot_memory_lem (2 ^ 20 + 1) 0x8030_0000 0x8020_0000 nothing_free (omega arith) linked-IsData
      (omega arith) (omega arith) refl

abbrev blank : Proc
blank = record { pid = 0; state = unused; pgdir = 0; tf = 0; ctx = 0; kstack = 0; chan = 0 }

abbrev kernel : Kernel
kernel = record {
  cpu = record { id = 0; iflag = false; ncli = 0; intena = false };
  lock = record { locked = 0; cpu = none };
  procs = blank ∷ [];
  next_pid = 1;
  kmem = nothing_free;
  current = none;
}

-- 70 free pages from 0x100000 on.
abbrev pool : List ℕ
pool = pages_onto 68 0x100000 []

free_pool : (s : Kmem) × IsFree s (0x145000 ∷ 0x144000 ∷ pool)
unfolding pages_onto
free_pool =
    let r =
      free_range_lem 100 nothing_free 0xFF001 0x146000 [] (omega arith) (omega arith) (omega arith)
        (record { chain = refl; distinct = tt }) tt in
    (r.0, r.2)

pool_size : 68 ≤ length pool
unfolding pages_onto
pool_size = omega arith

abbrev ready : Kernel
ready = record kernel { kmem = free_pool.0 }

code_off : (b : ℕ) → 0x4000 ≤ b → b < 0x4000 + 44 → All (OffPage b) (0x145000 ∷ 0x144000 ∷ pool)
code_off b l u = (
  inl (omega arith),
  (inl (omega arith), All-pages_onto (OffPage b) 68 0x100000 [] (λ j h. inl (omega arith)) tt),
)

first_unused : IsFirstUnused kernel.procs 0
unfolding find_unused
first_unused = find_unused_lem kernel.procs 0 refl

init_user_example :
    (k' : Kernel) × (init_user (2 ^ 20 + 1) 0x8010_1000 0x8010_2000 0x8020_0000 0x4000 44 ready
      ≡ ok k')
    × IsFirst 0x8010_1000 0x8010_2000 0x8020_0000 0x4000 44 ready k' 0 blank 0x145000 0x144000 pool
init_user_example =
    init_user_lem (2 ^ 20 + 1) 0x8010_1000 0x8010_2000 0x8020_0000 0x4000 44 ready 0 blank 0x145000
      0x144000 pool (omega arith) linked-IsData first_unused refl free_pool.1 pool_size
      (omega arith) (omega arith) code_off
