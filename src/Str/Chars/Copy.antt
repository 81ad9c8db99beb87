-- ===== src/Str/Chars/Copy.antt =====
-- What `strcpy` and `strcat` of lib/string.c leave.
use tuix_os.Base.{
  ℕ, zero, suc, ◌+◌, ◌<◌, ◌≤◌, ◌≡◌, ◌⊎◌, inl, refl, ap, ◌∙◌, true, false, ◌==◌, none, some, List,
  [], ◌∷◌, ◌++◌, length, arith,
}
use tuix_os.Memory.{Mem, load8, store8}
use tuix_os.Memory.Laws.{load8-store8_self, load8-store8_ne}
use tuix_os.Str.Blocks.Laws.{u8-load8}
use tuix_os.Str.Chars.{strcpy_loop, strcpy, strcat}
use tuix_os.Str.Chars.Laws.{IsString, strlen_lem}

-- A string is the same where its bytes and its zero are.
IsString-kept :
    (m m' : Mem) (p : ℕ) (xs : List ℕ)
    → ((b : ℕ) → p ≤ b → b ≤ p + length xs → load8 m' b ≡ load8 m b)
    → IsString m p xs
    → IsString m' p xs
IsString-kept m m' p [] same v = same p (omega arith) (omega arith) ∙ v
IsString-kept m m' p (x ∷ xs) same v = (
  same p (omega arith) (omega arith) ∙ v.0,
  v.1,
  IsString-kept m m' (p + 1) xs (λ b l u. same b (omega arith) (omega arith)) v.2,
)

-- The copy `m'` of the string `ys` at `dst`.
abbrev pub IsCopied : (m m' : Mem) (dst : ℕ) (ys : List ℕ) → Type 0
IsCopied m m' dst ys =
    IsString m' dst ys × ((b : ℕ) → (b < dst) ⊎ (dst + length ys < b) → load8 m' b ≡ load8 m b)

strcpy_loop_lem :
    (fuel : ℕ) (m : Mem) (dst src : ℕ) (ys : List ℕ)
    → IsString m src ys
    → (dst ≤ src) ⊎ (src + length ys < dst)
    → length ys < fuel
    → (m' : Mem) × (strcpy_loop fuel m dst src ≡ some m') × IsCopied m m' dst ys
unfolding strcpy_loop
strcpy_loop_lem zero m dst src ys v apart h = absurd (omega arith)
strcpy_loop_lem (suc fuel) m dst src [] v apart h =
    let stop : (load8 m src == 0) ≡ true = ground arith in
    (
      store8 m dst (load8 m src),
      rw stop refl,
      (
        load8-store8_self m dst (load8 m src) ∙ u8-load8 m src ∙ v,
        λ b o. load8-store8_ne m dst (load8 m src) b (omega arith),
      ),
    )
strcpy_loop_lem (suc fuel) m dst src (y ∷ ys) v apart h =
    let ne = v.1 in
    let more : (load8 m src == 0) ≡ false = ground (arith, v.0) in
    let m1 = store8 m dst (load8 m src) in
    let (m', ran, copied) =
      strcpy_loop_lem fuel m1 (dst + 1) (src + 1) ys
        (IsString-kept m m1 (src + 1) ys
          (λ b l u. load8-store8_ne m dst (load8 m src) b (omega arith)) v.2)
        (omega arith) (omega arith) in
    (
      m',
      rw more ran,
      (
        (
          copied.1 dst (inl (omega arith))
              ∙ load8-store8_self m dst (load8 m src)
              ∙ u8-load8 m src
              ∙ v.0,
          ne,
          copied.0,
        ),
        λ b o. copied.1 b (omega arith) ∙ load8-store8_ne m dst (load8 m src) b (omega arith),
      ),
    )

-- `strcpy` copies a string with its zero, with more fuel than bytes, to a place below it or behind
-- it, returns that place, and leaves every other byte as it was.
pub strcpy_lem :
    (fuel : ℕ) (m : Mem) (dst src : ℕ) (ys : List ℕ)
    → IsString m src ys
    → (dst ≤ src) ⊎ (src + length ys < dst)
    → length ys < fuel
    → (m' : Mem) × (strcpy fuel m dst src ≡ some (dst, m')) × IsCopied m m' dst ys
unfolding strcpy
strcpy_lem fuel m dst src ys v apart h =
    let (m', ran, copied) = strcpy_loop_lem fuel m dst src ys v apart h in
    (m', ap (λ o. elim o [ none ↦ none | some r ↦ some (dst, r) ]) ran, copied)

-- A string that begins with the bytes of `xs` and goes on with a string `ys`.
IsString-append :
    (m m' : Mem) (p : ℕ) (xs ys : List ℕ)
    → IsString m p xs
    → ((b : ℕ) → p ≤ b → b < p + length xs → load8 m' b ≡ load8 m b)
    → IsString m' (p + length xs) ys
    → IsString m' p (xs ++ ys)
IsString-append m m' p [] ys v same w = let at : p + 0 ≡ p = omega arith in rw at at w
IsString-append m m' p (x ∷ xs) ys v same w =
    let at : p + suc (length xs) ≡ p + 1 + length xs = omega arith in
    (
      same p (omega arith) (omega arith) ∙ v.0,
      v.1,
      IsString-append m m' (p + 1) xs ys v.2 (λ b l u. same b (omega arith) (omega arith))
          (rw at at w),
    )

-- `strcat`, with more fuel than bytes in either string, puts the second string behind the first: at
-- `dst` is then the one followed by the other, where the second lies below the place of the first
-- one's zero by more than its length, or at or above that place, and every other byte is kept.
pub strcat_lem :
    (fuel : ℕ) (m : Mem) (dst src : ℕ) (xs ys : List ℕ)
    → IsString m dst xs
    → IsString m src ys
    → (dst + length xs ≤ src) ⊎ (src + length ys < dst + length xs)
    → length xs < fuel
    → length ys < fuel
    → (m' : Mem) × (strcat fuel m dst src ≡ some (dst, m'))
      × IsString m' dst (xs ++ ys)
      × ((b : ℕ)
          → (b < dst + length xs) ⊎ (dst + length xs + length ys < b)
          → load8 m' b ≡ load8 m b)
unfolding strcat
strcat_lem fuel m dst src xs ys v w apart h k =
    let (m', ran, copied) = strcpy_loop_lem fuel m (dst + length xs) src ys w apart k in
    (
      m',
      behind ran,
      IsString-append m m' dst xs ys v (λ b l u. copied.1 b (inl u)) copied.0,
      copied.1,
    )
  where
    behind :
        {m' : Mem}
        → strcpy_loop fuel m (dst + length xs) src ≡ some m'
        → strcat fuel m dst src ≡ some (dst, m')
    behind e =
        ap
          (λ o. elim o [
            | none ↦ none
            | some len ↦ elim (strcpy_loop fuel m (dst + len) src) [
              | none ↦ none
              | some r ↦ some (dst, r)
            ]
          ])
          (strlen_lem fuel m dst xs v h)
        ∙ ap (λ o. elim o [ none ↦ none | some r ↦ some (dst, r) ]) e
