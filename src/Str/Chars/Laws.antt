-- ===== src/Str/Chars/Laws.antt =====
-- What the functions on strings of lib/string.c compute, for strings given as lists of bytes.
use tuix_os.Base.{
  ℕ, zero, suc, ◌+◌, ◌<◌, ◌≡◌, ◌≢◌, ap, ◌∙◌, false, ◌==◌, if◌then◌else◌, some, List, [], ◌∷◌,
  length, Bool-cases, inl, inr, arith,
}
use tuix_os.Base.Int.{ℤ, pos, sub_ℕ}
use tuix_os.Memory.{Mem, null, u8, load8}
use tuix_os.Str.Chars.{strlen_loop, strlen, strcmp, strchr}

-- The bytes of `xs`, none of them 0, lie at `p`, with a 0 behind them.
abbrev pub IsString : Mem → (p : ℕ) → List ℕ → Type 0
IsString m p [] = load8 m p ≡ 0
IsString m p (x ∷ xs) = (load8 m p ≡ x) × (x ≢ 0) × IsString m (p + 1) xs

strlen_loop_lem :
    (fuel : ℕ) (m : Mem) (p n : ℕ) (xs : List ℕ)
    → IsString m (p + n) xs
    → length xs < fuel
    → strlen_loop fuel m p n ≡ some (n + length xs)
unfolding strlen_loop
strlen_loop_lem zero m p n xs v h = absurd (omega arith)
strlen_loop_lem (suc fuel) m p n [] v h = ground arith
strlen_loop_lem (suc fuel) m p n (x ∷ xs) (e, ne, v) h =
    let no : (x == 0) ≡ false = ground arith in
    let at : p + (n + 1) ≡ p + n + 1 = omega arith in
    let count : n + 1 + length xs ≡ n + suc (length xs) = omega arith in
    rw (e, no) (strlen_loop_lem fuel m p (n + 1) xs (rw at v) (omega arith) ∙ ap some count)

-- `strlen` is the number of bytes before the zero, with more fuel than bytes.
pub strlen_lem :
    (fuel : ℕ) (m : Mem) (p : ℕ) (xs : List ℕ)
    → IsString m p xs
    → length xs < fuel
    → strlen fuel m p ≡ some (length xs)
unfolding strlen
strlen_lem fuel m p xs v h =
    let at : p + 0 ≡ p = omega arith in
    strlen_loop_lem fuel m p 0 xs (rw at v) h ∙ ap some (omega arith)

-- The difference of the first bytes that differ, with a 0 behind each list.
abbrev pub difference : List ℕ → List ℕ → ℤ
difference [] [] = pos 0
difference [] (y ∷ ys) = sub_ℕ 0 y
difference (x ∷ xs) [] = sub_ℕ x 0
difference (x ∷ xs) (y ∷ ys) = if x == y then difference xs ys else sub_ℕ x y

-- `strcmp` gives the difference of the first bytes that differ, and 0 for equal strings, with more
-- fuel than bytes in the first string.
pub strcmp_lem :
    (fuel : ℕ) (m : Mem) (p q : ℕ) (xs ys : List ℕ)
    → IsString m p xs
    → IsString m q ys
    → length xs < fuel
    → strcmp fuel m p q ≡ some (difference xs ys)
unfolding strcmp
strcmp_lem zero m p q xs ys v w h = absurd (omega arith)
strcmp_lem (suc fuel) m p q [] [] v w h = rw (v, w)
strcmp_lem (suc fuel) m p q [] (y ∷ ys) v (e, ne, w) h = rw (v, e)
strcmp_lem (suc fuel) m p q (x ∷ xs) [] (e, ne, v) w h =
    let no : (x == 0) ≡ false = ground arith in rw (e, w, no)
strcmp_lem (suc fuel) m p q (x ∷ xs) (y ∷ ys) (e, ne, v) (e', ne', w) h =
    let no : (x == 0) ≡ false = ground arith in
    rw (e, e', no, strcmp_lem fuel m (p + 1) (q + 1) xs ys v w (omega arith))
      (elim (Bool-cases (x == y)) [ inl same ↦ rw same | inr apart ↦ rw apart ])

-- Where `c` first stands in a string at `p`, its zero included, or null.
abbrev pub first_place : (p c : ℕ) → List ℕ → ℕ
first_place p c [] = if 0 == c then p else null
first_place p c (x ∷ xs) = if x == c then p else first_place (p + 1) c xs

-- `strchr` finds the first place of the character, the zero at the end included, or gives null, with
-- more fuel than bytes.
pub strchr_lem :
    (fuel : ℕ) (m : Mem) (p c : ℕ) (xs : List ℕ)
    → IsString m p xs
    → length xs < fuel
    → strchr fuel m p c ≡ some (first_place p (u8 c) xs)
unfolding strchr
strchr_lem zero m p c xs v h = absurd (omega arith)
strchr_lem (suc fuel) m p c [] v h = rw v
strchr_lem (suc fuel) m p c (x ∷ xs) (e, ne, v) h =
    let no : (x == 0) ≡ false = ground arith in
    rw (e, no, strchr_lem fuel m (p + 1) c xs v (omega arith))
      (elim (Bool-cases (x == u8 c)) [ inl same ↦ rw same | inr apart ↦ rw apart ])
