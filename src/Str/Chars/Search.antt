-- ===== src/Str/Chars/Search.antt =====
-- `strstr` of lib/string.c against a search on lists.
use tuix_os.Base.{
  ℕ, zero, suc, ◌+◌, ◌<◌, ◌≡◌, refl, Bool, true, false, ◌&&◌, ◌==◌, if◌then◌else◌, Bool-cases, inl,
  inr, some, List, [], ◌∷◌, length, arith,
}
use tuix_os.Memory.{Mem, null}
use tuix_os.Str.Chars.{stands_at, strstr_loop, strstr}
use tuix_os.Str.Chars.Laws.{IsString}

-- The list `ys` is where `xs` begins.
abbrev pub is_prefix : (ys xs : List ℕ) → Bool
is_prefix [] xs = true
is_prefix (y ∷ ys) [] = false
is_prefix (y ∷ ys) (x ∷ xs) = (x == y) && is_prefix ys xs

-- The first place at which `ys` stands in `xs`, which starts at `p`, or null.
abbrev pub first_match : (p : ℕ) → (xs ys : List ℕ) → ℕ
first_match p [] [] = p
first_match p [] (y ∷ ys) = null
first_match p (x ∷ xs) ys = if is_prefix ys (x ∷ xs) then p else first_match (p + 1) xs ys

stands_at_lem :
    (fuel : ℕ) (m : Mem) (h n : ℕ) (xs ys : List ℕ)
    → IsString m h xs
    → IsString m n ys
    → length ys < fuel
    → stands_at fuel m h n ≡ some (is_prefix ys xs)
unfolding stands_at
stands_at_lem zero m h n xs ys v w k = absurd (omega arith)
stands_at_lem (suc fuel) m h n [] [] v w k = rw (v, w) refl
stands_at_lem (suc fuel) m h n (x ∷ xs) [] v w k =
    let no : (x == 0) ≡ false = let ne = v.1 in ground arith in rw (v.0, w, no) refl
stands_at_lem (suc fuel) m h n [] (y ∷ ys) v w k =
    let no : (y == 0) ≡ false = let ne = w.1 in ground arith in rw (v, w.0, no) refl
stands_at_lem (suc fuel) m h n (x ∷ xs) (y ∷ ys) v w k =
    let no : (x == 0) ≡ false = let ne = v.1 in ground arith in
    let no' : (y == 0) ≡ false = let ne = w.1 in ground arith in
    rw (v.0, w.0, no, no', stands_at_lem fuel m (h + 1) (n + 1) xs ys v.2 w.2 (omega arith))
      (elim (Bool-cases (x == y)) [ inl same ↦ rw same refl | inr apart ↦ rw apart refl ])

strstr_loop_lem :
    (fuel rounds : ℕ) (m : Mem) (h n : ℕ) (xs : List ℕ) (y : ℕ) (ys : List ℕ)
    → IsString m h xs
    → IsString m n (y ∷ ys)
    → length (y ∷ ys) < fuel
    → length xs < rounds
    → strstr_loop fuel rounds m h n ≡ some (first_match h xs (y ∷ ys))
unfolding strstr_loop
strstr_loop_lem fuel zero m h n xs y ys v w k r = absurd (omega arith)
strstr_loop_lem fuel (suc rounds) m h n [] y ys v w k r = rw v refl
strstr_loop_lem fuel (suc rounds) m h n (x ∷ xs) y ys v w k r =
    let no : (x == 0) ≡ false = let ne = v.1 in ground arith in
    rw
      (
        v.0,
        no,
        stands_at_lem fuel m h n (x ∷ xs) (y ∷ ys) v w k,
        strstr_loop_lem fuel rounds m (h + 1) n xs y ys v.2 w (omega arith) (omega arith),
      )
      (elim (Bool-cases (is_prefix (y ∷ ys) (x ∷ xs))) [ inl t ↦ rw t refl | inr t ↦ rw t refl ])

-- `strstr`, with more fuel than bytes in either string, gives the first place at which the second
-- string stands in the first, which for an empty one is its start, or null where there is none.
pub strstr_lem :
    (fuel : ℕ) (m : Mem) (h n : ℕ) (xs ys : List ℕ)
    → IsString m h xs
    → IsString m n ys
    → length xs < fuel
    → length ys < fuel
    → strstr fuel m h n ≡ some (first_match h xs ys)
unfolding strstr
strstr_lem fuel m h n [] [] v w k l = rw w refl
strstr_lem fuel m h n (x ∷ xs) [] v w k l = rw w refl
strstr_lem fuel m h n xs (y ∷ ys) v w k l =
    let no : (y == 0) ≡ false = let ne = w.1 in ground arith in
    rw (w.0, no) (strstr_loop_lem fuel fuel m h n xs y ys v w l k)
