-- ===== src/Process/Table.antt =====
-- The process table of kernel/sys/process.c: what a change of one entry, and the search for an
-- unused one, do.
use tuix_os.Base.{
  ℕ, zero, suc, ◌<◌, ◌≡◌, ◌≢◌, refl, ap, true, false, Option, none, some, List, [], ◌∷◌, get_elem?,
  map, arith, Bool-cases, inl, inr, sym, ◌∙◌,
}
use mathlib.Core.Option.{some-injective}
use tuix_os.Process.{Proc, unused, state_eq, modify, find_unused}

pub get_elem?-modify_self :
    (f : Proc → Proc) (i : ℕ) (ps : List Proc) (p : Proc)
    → get_elem? ps i ≡ some p
    → get_elem? (modify f i ps) i ≡ some (f p)
unfolding modify
get_elem?-modify_self f i [] p e = cc
get_elem?-modify_self f zero (q ∷ ps) p e = ap (λ o. some (f o)) (some-injective _ _ e)
get_elem?-modify_self f (suc i) (q ∷ ps) p e = get_elem?-modify_self f i ps p e

pub get_elem?-modify_ne :
    (f : Proc → Proc) (i j : ℕ) (ps : List Proc)
    → j ≢ i
    → get_elem? (modify f i ps) j ≡ get_elem? ps j
unfolding modify
get_elem?-modify_ne f i j [] ne = refl
get_elem?-modify_ne f zero zero (q ∷ ps) ne = absurd (ne refl)
get_elem?-modify_ne f zero (suc j) (q ∷ ps) ne = refl
get_elem?-modify_ne f (suc i) zero (q ∷ ps) ne = refl
get_elem?-modify_ne f (suc i) (suc j) (q ∷ ps) ne =
    get_elem?-modify_ne f i j ps (λ e. ne (ap suc e))

pub get_elem?-map :
    (f : Proc → Proc) (ps : List Proc) (i : ℕ) (p : Proc)
    → get_elem? ps i ≡ some p
    → get_elem? (map f ps) i ≡ some (f p)
get_elem?-map f [] i p e = cc
get_elem?-map f (q ∷ ps) zero p e = ap (λ o. some (f o)) (some-injective _ _ e)
get_elem?-map f (q ∷ ps) (suc i) p e = get_elem?-map f ps i p e

-- The entry at `i` is the first unused one.
pub record IsFirstUnused (ps : List Proc) (i : ℕ) : Type 0 where
  pub found : Proc
  pub at : get_elem? ps i ≡ some found
  pub is_unused : state_eq found.state unused ≡ true
  pub before :
      (j : ℕ) (p : Proc) → j < i → get_elem? ps j ≡ some p → state_eq p.state unused ≡ false

first_here : (q : Proc) (ps : List Proc) → state_eq q.state unused ≡ true → IsFirstUnused (q ∷ ps) 0
first_here q ps e = record {
  found = q;
  at = refl;
  is_unused = e;
  before = λ j p h. absurd (omega arith);
}

first_later :
    (q : Proc) (ps : List Proc) (i : ℕ)
    → state_eq q.state unused ≡ false
    → IsFirstUnused ps i
    → IsFirstUnused (q ∷ ps) (suc i)
first_later q ps i e v = record {
  found = v.found;
  at = v.at;
  is_unused = v.is_unused;
  before = elim [
    | zero ↦ λ p h g. ap (λ r. state_eq r.state unused) (some-injective _ _ (sym g)) ∙ e
    | suc j ↦ λ p h g. v.before j p (omega arith) g
  ];
}

found_later :
    (q : Proc) (ps : List Proc) (o : Option ℕ) (i : ℕ)
    → state_eq q.state unused ≡ false
    → ((j : ℕ) → o ≡ some j → IsFirstUnused ps j)
    → elim o [ none ↦ none | some j ↦ some (suc j) ] ≡ some i
    → IsFirstUnused (q ∷ ps) i
found_later q ps none i n h e = cc
found_later q ps (some j) zero n h e = absurd (omega (arith, some-injective _ _ e))
found_later q ps (some j) (suc i) n h e =
    let z : j ≡ i = omega (arith, some-injective _ _ e) in first_later q ps i n (h i (ap some z))

first_behind :
    (q : Proc) (ps : List Proc) (i : ℕ) → IsFirstUnused (q ∷ ps) (suc i) → IsFirstUnused ps i
first_behind q ps i v = record {
  found = v.found;
  at = v.at;
  is_unused = v.is_unused;
  before = λ j p h g. v.before (suc j) p (omega arith) g;
}

-- The first unused entry is what the search finds.
pub find_unused-first : (ps : List Proc) (i : ℕ) → IsFirstUnused ps i → find_unused ps ≡ some i
unfolding find_unused
find_unused-first [] i v = let at = v.at in cc
find_unused-first (q ∷ ps) zero v =
    let here : state_eq q.state unused ≡ true =
      ap (λ r. state_eq r.state unused) (some-injective _ _ v.at) ∙ v.is_unused in
    rw here refl
find_unused-first (q ∷ ps) (suc i) v =
    let later : state_eq q.state unused ≡ false = v.before 0 q (omega arith) refl in
    rw (later, find_unused-first ps i (first_behind q ps i v)) refl

-- The search for an unused entry finds the first one.
pub find_unused_lem : (ps : List Proc) (i : ℕ) → find_unused ps ≡ some i → IsFirstUnused ps i
unfolding find_unused
find_unused_lem [] i e = cc
find_unused_lem (q ∷ ps) i e = elim (Bool-cases (state_eq q.state unused)) [
  | inl y ↦ let z : i ≡ 0 = some-injective _ _ (sym e ∙ rw y) in rw z (first_here q ps y)
  | inr n ↦ found_later q ps (find_unused ps) i n (find_unused_lem ps) (rw n at e)
]
