-- ===== src/Kalloc/Span.antt =====
-- The pages that `free_range` of kernel/mm/kalloc.c frees, and the memory below them.
use tuix_os.Base.{
  ℕ, zero, suc, ◌+◌, ◌*◌, ◌<◌, ◌≡◌, refl, inl, inr, some, List, ◌∷◌, All, arith, ◌∙◌, leb,
  Bool-cases,
}
use mathlib.Core.Option.{some-injective}
use tuix_os.Memory.{load8}
use tuix_os.Mmu.{pgsize, pg_round_up}
use tuix_os.Kalloc.{Kmem, kfree, free_range_loop, free_range}
use tuix_os.Kalloc.Free.{kfree-SameOff}
use tuix_os.Kalloc.Range.{pages_onto}

-- What the pages of the range and those behind them have.
pub All-pages_onto :
    (Q : ℕ → Type 0) (n p : ℕ) (xs : List ℕ)
    → ((j : ℕ) → j < n → Q (p + j * pgsize))
    → All Q xs
    → All Q (pages_onto n p xs)
unfolding pages_onto
All-pages_onto Q zero p xs h all = all
All-pages_onto Q (suc n) p xs h all =
    let front : p + zero * pgsize ≡ p = omega arith in
    All-pages_onto Q n (p + pgsize) (p ∷ xs)
      (λ j k.
        let there : p + suc j * pgsize ≡ p + pgsize + j * pgsize = omega arith in
        rw there at (h (suc j) (omega arith)))
      (rw front at (h 0 (omega arith)), all)

-- The highest page of the range comes first.
pub pages_onto-last :
    (n p : ℕ) (xs : List ℕ) → pages_onto (suc n) p xs ≡ ((p + n * pgsize) ∷ pages_onto n p xs)
unfolding pages_onto
pages_onto-last zero p xs = let front : p + zero * pgsize ≡ p = omega arith in rw front
pages_onto-last (suc n) p xs =
    let there : p + suc n * pgsize ≡ p + pgsize + n * pgsize = omega arith in
    rw there (pages_onto-last n (p + pgsize) (p ∷ xs))

loop-kept :
    (fuel : ℕ) (s s' : Kmem) (p vend b : ℕ)
    → free_range_loop fuel s p vend ≡ some s'
    → b < p
    → load8 s'.mem b ≡ load8 s.mem b
unfolding free_range_loop
loop-kept zero s s' p vend b e h = cc
loop-kept (suc fuel) s s' p vend b e h = elim (Bool-cases (leb (p + pgsize) vend)) [
  | inl t ↦
      loop-kept fuel (kfree s p) s' (p + pgsize) vend b (rw t at e) (omega arith)
      ∙ kfree-SameOff s p b (inl h)
  | inr t ↦ let same : s ≡ s' = some-injective _ _ (rw t at e) in rw (← same) refl
]

-- `free_range` writes no byte below its first page.
pub free_range-kept :
    (fuel : ℕ) (s s' : Kmem) (vstart vend b : ℕ)
    → free_range fuel s vstart vend ≡ some s'
    → b < pg_round_up vstart
    → load8 s'.mem b ≡ load8 s.mem b
unfolding free_range
free_range-kept fuel s s' vstart vend b e h = loop-kept fuel s s' (pg_round_up vstart) vend b e h
