-- ===== src/Start/Main.antt =====
-- `kernel_main` of init/main.c from the empty free list to the first process.
use tuix_os.Base.{
  ℕ, ◌+◌, ◌*◌, ◌^◌, ◌<◌, ◌≤◌, ◌≡◌, ◌≢◌, refl, inl, some, List, [], ◌∷◌, All, get_elem?, arith, ap,
  ◌∙◌,
}
use mathlib.Core.Path.{subst}
use tuix_os.Base.Outcome.{ok}
use tuix_os.Memory.{Mem, null, load8}
use tuix_os.Mmu.{pgsize, kernlink}
use tuix_os.Kalloc.Chain.{IsFree, IsChain-above}
use tuix_os.Kalloc.Range.{pages_onto, length-pages_onto}
use tuix_os.Kalloc.Span.{All-pages_onto, pages_onto-last}
use tuix_os.Process.Table.{IsFirstUnused}
use tuix_os.Process.{Proc, Kernel}
use tuix_os.Vm.Space.{OffPage}
use tuix_os.Vm.Kernel.{IsData}
use tuix_os.Start.{Paging, boot_memory, init_user, start_kernel, first_end}
use tuix_os.Start.Memory.{IsBooted, boot_memory_lem}
use tuix_os.Start.User.{IsFirst, init_user_lem}

-- What lies above a bound lies off the bytes below it.
off_above :
    (lo b : ℕ) (xs : List ℕ)
    → b < lo
    → All (λ y. (lo ≤ y) × (y < first_end)) xs
    → All (OffPage b) xs
off_above lo b [] h all = tt
off_above lo b (x ∷ xs) h all = (inl (omega (arith, all.0.0)), off_above lo b xs h all.1)

-- A list above one bound lies above a lower one.
above_low :
    (b lo : ℕ) (xs : List ℕ)
    → b ≤ lo
    → All (λ y. (lo ≤ y) × (y < first_end)) xs
    → All (λ y. b ≤ y) xs
above_low b lo [] h all = tt
above_low b lo (x ∷ xs) h all = (omega (arith, all.0.0), above_low b lo xs h all.1)

-- The two highest pages of memory.
abbrev pub top_page : ℕ
top_page = 0x8dff_f000

abbrev pub second_page : ℕ
second_page = 0x8dff_e000

top_pages :
    (left : List ℕ)
    → pages_onto 56_320 first_end left ≡ (top_page ∷ second_page ∷ pages_onto 56_318 first_end left)
top_pages left =
    pages_onto-last 56_319 first_end left
    ∙ ap (λ ys. top_page ∷ ys) (pages_onto-last 56_318 first_end left)

module _ (fuel kernel_end kdata trap_ret fork_ret init size : ℕ) (k : Kernel) (i : ℕ) (p : Proc)
    (enough : 2 ^ 20 < fuel) (d : IsData kdata) (behind : kernlink ≤ kernel_end)
    (room : kernel_end + 68 * pgsize ≤ first_end) (empty : k.kmem.freelist ≡ null)
    (search : IsFirstUnused k.procs i) (at : get_elem? k.procs i ≡ some p) (fits : size ≤ pgsize)
    (set : init ≢ null) (inside : init + size ≤ kernel_end) where
  pub booted :
      (g : Paging) × (boot_memory fuel kernel_end kdata k.kmem ≡ ok g)
      × IsBooted kernel_end kdata k.kmem g
  booted = boot_memory_lem fuel kernel_end kdata k.kmem enough d behind room empty

  abbrev pub g : Paging
  g = booted.0

  abbrev pub b : IsBooted kernel_end kdata k.kmem g
  b = booted.2

  free : IsFree g.kmem (top_page ∷ second_page ∷ pages_onto 56_318 first_end b.left)
  free = subst (IsFree g.kmem) (top_pages b.left) b.space.free

  -- The code of the first process lies below every free page.
  code_off :
      (c : ℕ)
      → init ≤ c
      → c < init + size
      → All (OffPage c) (top_page ∷ second_page ∷ pages_onto 56_318 first_end b.left)
  code_off c l u = subst (All (OffPage c)) (top_pages b.left) (
      All-pages_onto (OffPage c) 56_320 first_end b.left (λ j h. inl (omega arith))
        (off_above _ c b.left (omega arith) b.low))

  above : All (λ y. kernel_end ≤ y) (top_page ∷ second_page ∷ pages_onto 56_318 first_end b.left)
  above = subst (All (λ y. kernel_end ≤ y)) (top_pages b.left) (
      All-pages_onto (λ y. kernel_end ≤ y) 56_320 first_end b.left (λ j h. omega arith)
        (above_low kernel_end _ b.left (omega arith) b.low))

  -- Also when the memory below the kernel's end has changed since, the first process is made.
  pub init_user-booted :
      (m : Mem)
      → ((x : ℕ) → kernel_end ≤ x → load8 m x ≡ load8 g.kmem.mem x)
      → (k' : Kernel) × (init_user fuel trap_ret fork_ret kdata init size
            (record k { kmem = record (g.kmem) { mem = m } })
          ≡ ok k')
        × IsFirst trap_ret fork_ret kdata init size
            (record k { kmem = record (g.kmem) { mem = m } })
            k'
            i
            p
            top_page
            second_page
            (pages_onto 56_318 first_end b.left)
  init_user-booted m same =
      init_user_lem fuel trap_ret fork_ret kdata init size
        (record k { kmem = record (g.kmem) { mem = m } }) i p top_page second_page
        (pages_onto 56_318 first_end b.left) enough d search at
        (record {
          chain =
              IsChain-above kernel_end g.kmem.mem m g.kmem.freelist
                (top_page ∷ second_page ∷ pages_onto 56_318 first_end b.left) same above free.chain;
          distinct = free.distinct;
        })
        (let l = length-pages_onto 56_318 first_end b.left in omega arith) fits set code_off

  first :
      (k' : Kernel) × (init_user fuel trap_ret fork_ret kdata init size (record k { kmem = g.kmem })
        ≡ ok k')
      × IsFirst trap_ret fork_ret kdata init size
          (record k { kmem = g.kmem })
          k'
          i
          p
          top_page
          second_page
          (pages_onto 56_318 first_end b.left)
  first = init_user-booted g.kmem.mem (λ x h. refl)

  -- From an empty free list, an unused entry in the table, and the kernel's image with the code of
  -- the first process inside below 4 MB, `start_kernel` returns: the kernel's space is loaded and
  -- all memory is free or in use as `IsBooted` says, and the first process is ready to run, with
  -- its kernel stack in the highest page of memory and its page directory in the next.
  pub start_kernel_lem :
      (g : Paging) × (k' : Kernel) × (start_kernel fuel kernel_end kdata trap_ret fork_ret init size
          k
        ≡ ok (g, k'))
      × IsBooted kernel_end kdata k.kmem g
      × IsFirst trap_ret fork_ret kdata init size
          (record k { kmem = g.kmem })
          k'
          i
          p
          top_page
          second_page
          (pages_onto 56_318 first_end b.left)
  unfolding start_kernel
  start_kernel_lem = (g, first.0, rw (booted.1, first.1) refl, b, first.2)
