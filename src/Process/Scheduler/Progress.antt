-- ===== src/Process/Scheduler/Progress.antt =====
-- The scheduler of kernel/sys/process.c gets to a process that can run.
use tuix_os.Base.{
  ℕ, zero, suc, ◌+◌, ◌-◌, ◌≤◌, ◌<◌, ◌≡◌, ◌≢◌, inl, inr, refl, sym, ap, ◌∙◌, true, false, ◌==◌,
  Bool-cases, Option-cases, none, some, List, [], ◌∷◌, get_elem?, arith,
}
use mathlib.Core.Option.{some-injective}
use tuix_os.Base.Outcome.{ok}
use tuix_os.Memory.{null}
use tuix_os.Process.{
  Kernel, Proc, runnable, running, state_eq, set_state, modify, max_proc, dispatch,
}
use tuix_os.Process.Table.{get_elem?-modify_self}
use tuix_os.Process.Scheduler.{looking, entered, next, scan, ◌⟶◌, found}

no_gap :
    (ps : List Proc) (l j : ℕ) (p : Proc) → l ≤ j → get_elem? ps j ≡ some p → get_elem? ps l ≢ none
no_gap [] l j p h e n = cc
no_gap (q ∷ ps) zero j p h e n = cc
no_gap (q ∷ ps) (suc l) zero p h e n = omega arith
no_gap (q ∷ ps) (suc l) (suc j) p h e n = no_gap ps l j p (omega arith) e n

-- Each runnable process has a kernel stack and a page directory.
abbrev pub IsReady : Kernel → Type 0
IsReady k =
    (i : ℕ) (p : Proc)
    → get_elem? k.procs i ≡ some p
    → state_eq p.state runnable ≡ true
    → (p.kstack ≢ null) × (p.pgdir ≢ null)

abbrev dispatched : Kernel → (i : ℕ) → Kernel
dispatched k i = record k { current = some i; procs = modify (set_state running) i k.procs }

dispatch-runnable :
    (k : Kernel) (i : ℕ) (p : Proc)
    → state_eq p.state runnable ≡ true
    → p.kstack ≢ null
    → p.pgdir ≢ null
    → dispatch k i p ≡ ok (some (dispatched k i))
unfolding dispatch
dispatch-runnable k i p r s d =
    let stack : (p.kstack == null) ≡ false = ground arith in
    let directory : (p.pgdir == null) ≡ false = ground arith in rw (r, stack, directory) refl

dispatch-passed :
    (k : Kernel) (i : ℕ) (p : Proc) → state_eq p.state runnable ≡ false → dispatch k i p ≡ ok none
unfolding dispatch
dispatch-passed k i p r = rw r refl

scan-entry :
    (rounds : ℕ) (k : Kernel) (i : ℕ) (p : Proc)
    → get_elem? k.procs i ≡ some p
    → scan (suc rounds) k i ≡ next (dispatch k i p) i (scan rounds k (i + 1))
unfolding scan
scan-entry rounds k i p e =
    ap (λ o. elim o [ none ↦ ok none | some q ↦ next (dispatch k i q) i (scan rounds k (i + 1)) ]) e

-- The scan from `i` on stops at a process, not behind `j`, which becomes current.
Stops : (rounds : ℕ) → Kernel → (i j : ℕ) → Type 0
Stops rounds k i j =
    (m : ℕ) × (scan rounds k i ≡ ok (some (m, dispatched k m)))
    × (i ≤ m)
    × (m ≤ j)
    × ((q : Proc) × (get_elem? k.procs m ≡ some q) × (state_eq q.state runnable ≡ true))

scan-Stops :
    (rounds : ℕ) (k : Kernel) (i j : ℕ) (p : Proc)
    → IsReady k
    → get_elem? k.procs j ≡ some p
    → state_eq p.state runnable ≡ true
    → i ≤ j
    → j < i + rounds
    → Stops rounds k i j
unfolding Stops
scan-Stops zero k i j p v e r l u = absurd (omega arith)
scan-Stops (suc rounds) k i j p v e r l u = elim (Option-cases (get_elem? k.procs i)) [
  | inl n ↦ absurd (no_gap k.procs i j p l e n)
  | inr (q, at) ↦ elim (Bool-cases (state_eq q.state runnable)) [
    | inl can ↦
        let (s, d) = v i q at can in
        (
          i,
          scan-entry rounds k i q at
              ∙ ap (λ o. next o i (scan rounds k (i + 1))) (dispatch-runnable k i q can s d),
          omega arith,
          l,
          (q, at, can),
        )
    | inr cannot ↦
        let apart : i ≢ j = λ same.
          let entries : q ≡ p = some-injective _ _ (sym at ∙ ap (get_elem? k.procs) same ∙ e) in
          let tests : false ≡ true = sym cannot ∙ ap (λ x. state_eq x.state runnable) entries ∙ r in
          ground arith in
        let (m, ran, low, high, entry) =
          scan-Stops rounds k (i + 1) j p v e r (omega arith) (omega arith) in
        (
          m,
          scan-entry rounds k i q at
              ∙ ap (λ o. next o i (scan rounds k (i + 1))) (dispatch-passed k i q cannot)
              ∙ ran,
          omega arith,
          high,
          entry,
        )
  ]
]

-- Let the scheduler be in its loop at `i`, and let a process `j` that can run be ahead, where each runnable
-- process has a kernel stack and a page directory. Then the scheduler's next step switches to a runnable
-- process `m` between the two, which is then current and running.
pub looking-progress :
    (k : Kernel) (i j : ℕ) (p : Proc)
    → IsReady k
    → get_elem? k.procs j ≡ some p
    → state_eq p.state runnable ≡ true
    → i ≤ j
    → j < max_proc
    → (m : ℕ) × (k' : Kernel) × ((looking i, k) ⟶ (entered m, k'))
      × (i ≤ m)
      × (m ≤ j)
      × (k'.current ≡ some m)
      × ((q : Proc) × (get_elem? k.procs m ≡ some q)
          × (state_eq q.state runnable ≡ true)
          × (get_elem? k'.procs m ≡ some (set_state running q)))
unfolding Stops
looking-progress k i j p v e r l u =
    let (m, ran, low, high, (q, at, can)) =
      scan-Stops (max_proc - i) k i j p v e r l (omega arith) in
    (
      m,
      dispatched k m,
      found ran,
      low,
      high,
      refl,
      (q, at, can, get_elem?-modify_self (set_state running) m k.procs q at),
    )
