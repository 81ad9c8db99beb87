-- ===== src/Str/Chars/Reverse.antt =====
-- What `reverse_str` of lib/string.c leaves.
use tuix_os.Base.{
  ℕ, zero, suc, ◌+◌, ◌-◌, ◌*◌, ◌/◌, ◌≤◌, ◌<◌, ◌≡◌, ◌≢◌, ◌⊎◌, inr, refl, Bool, ◌&&◌, ◌||◌, ltb, leb,
  ◌==◌, if◌then◌else◌, none, some, List, [], ◌∷◌, All, length, arith, ap, sym, ◌∙◌, ℕ_discrete,
  false,
}
use tuix_os.Memory.{Mem, load8, store8}
use tuix_os.Memory.Laws.{load8-store8_self, load8-store8_ne}
use tuix_os.Str.Blocks.Laws.{u8-load8}
use tuix_os.Str.Chars.{strlen_loop, strlen, swap_ends, reverse_str}
use tuix_os.Str.Chars.Laws.{IsString}

-- `k` is one of the places that the rounds from `i` on swap.
abbrev swapped : (rounds i len k : ℕ) → Bool
swapped rounds i len k =
    (leb i k && ltb k (i + rounds)) || (leb (len - (i + rounds)) k && ltb k (len - i))

-- Two bytes change places.
exchanged : (m : Mem) (a b : ℕ) → Mem
exchanged m a b = store8 (store8 m a (load8 m b)) b (load8 m a)

exchanged-load8 :
    (m : Mem) (a b x : ℕ)
    → load8 (exchanged m a b) x
      ≡ (if x == b then load8 m a else if x == a then load8 m b else load8 m x)
unfolding exchanged
exchanged-load8 m a b x = ground (
  arith,
  load8-store8_self (store8 m a (load8 m b)) b (load8 m a),
  load8-store8_ne (store8 m a (load8 m b)) b (load8 m a) x,
  load8-store8_self m a (load8 m b),
  load8-store8_ne m a (load8 m b) x,
  u8-load8 m a,
  u8-load8 m b,
)

swap_ends-zero : (m : Mem) (str i len b : ℕ) → load8 (swap_ends zero m str i len) b ≡ load8 m b
unfolding swap_ends
swap_ends-zero m str i len b = refl

swap_ends-suc :
    (rounds : ℕ) (m : Mem) (str i len : ℕ)
    → swap_ends (suc rounds) m str i len
      ≡ swap_ends rounds (exchanged m (str + i) (str + (len - 1 - i))) str (i + 1) len
unfolding swap_ends exchanged
swap_ends-suc rounds m str i len = refl

swap_ends_lem :
    (rounds : ℕ) (m : Mem) (str i len k : ℕ)
    → 2 * (i + rounds) ≤ len
    → k < len
    → load8 (swap_ends rounds m str i len) (str + k)
      ≡ (if swapped rounds i len k then load8 m (str + (len - 1 - k)) else load8 m (str + k))
swap_ends_lem zero m str i len k h l = swap_ends-zero m str i len (str + k) ∙ ground arith
swap_ends_lem (suc rounds) m str i len k h l =
    let m' = exchanged m (str + i) (str + (len - 1 - i)) in
    rw (swap_ends-suc rounds m str i len) (
      swap_ends_lem rounds m' str (i + 1) len k (omega arith) l
      ∙ ground (
        arith,
        exchanged-load8 m (str + i) (str + (len - 1 - i)) (str + k),
        exchanged-load8 m (str + i) (str + (len - 1 - i)) (str + (len - 1 - k)),
      ))

-- Bytes outside the string stay.
swap_ends-outside :
    (rounds : ℕ) (m : Mem) (str i len b : ℕ)
    → 2 * (i + rounds) ≤ len
    → (b < str) ⊎ (str + len ≤ b)
    → load8 (swap_ends rounds m str i len) b ≡ load8 m b
swap_ends-outside zero m str i len b h off = swap_ends-zero m str i len b
swap_ends-outside (suc rounds) m str i len b h off =
    let m' = exchanged m (str + i) (str + (len - 1 - i)) in
    rw (swap_ends-suc rounds m str i len) (
      swap_ends-outside rounds m' str (i + 1) len b (omega arith) off
      ∙ ground (arith, exchanged-load8 m (str + i) (str + (len - 1 - i)) b))

-- The bytes of `xs` from `str` on, the last one first.
abbrev pub IsReversed : Mem → (str : ℕ) → List ℕ → Type 0
IsReversed m str [] = Unit
IsReversed m str (x ∷ xs) = (load8 m (str + length xs) ≡ x) × IsReversed m str xs

abbrev pub NoZero : List ℕ → Type 0
NoZero xs = All (λ x. x ≢ 0) xs

IsReversed-nonzero :
    (m : Mem) (str : ℕ) (xs : List ℕ) (j : ℕ)
    → IsReversed m str xs
    → NoZero xs
    → j < length xs
    → load8 m (str + j) ≢ 0
IsReversed-nonzero m str [] j v ne h = absurd (omega arith)
IsReversed-nonzero m str (x ∷ xs) j v ne h = elim (ℕ_discrete j (length xs)) [
  | yes e ↦ λ z. ne.0 (sym v.0 ∙ ap (λ l. load8 m (str + l)) (sym e) ∙ z)
  | no d ↦ IsReversed-nonzero m str xs j v.1 ne.1 (omega arith)
]

strlen_loop-at :
    (fuel : ℕ) (m : Mem) (str i n : ℕ)
    → ((j : ℕ) → j < n → load8 m (str + j) ≢ 0)
    → load8 m (str + n) ≡ 0
    → i ≤ n
    → n < i + fuel
    → strlen_loop fuel m str i ≡ some n
unfolding strlen_loop
strlen_loop-at zero m str i n ne z le h = absurd (omega arith)
strlen_loop-at (suc fuel) m str i n ne z le h = elim (ℕ_discrete i n) [
  | yes e ↦ rw (e, z) refl
  | no d ↦
      let set : (load8 m (str + i) == 0) ≡ false = ground (arith, ne i) in
      rw set (strlen_loop-at fuel m str (i + 1) n ne z (omega arith) (omega arith))
]

module _ (m m' : Mem) (str len : ℕ)
    (turned : (k : ℕ) → k < len → load8 m' (str + k) ≡ load8 m (str + (len - 1 - k)))
    (zero_end : load8 m' (str + len) ≡ 0) where
  turned-IsString :
      (ys : List ℕ) (p : ℕ)
      → p + length ys ≡ str + len
      → length ys ≤ len
      → IsReversed m str ys
      → NoZero ys
      → IsString m' p ys
  turned-IsString [] p e le v ne = let there : p ≡ str + len = omega arith in rw there zero_end
  turned-IsString (y ∷ ys) p e le v ne =
      let k = len - suc (length ys) in
      let there : p ≡ str + k = omega arith in
      let back : len - 1 - k ≡ length ys = omega arith in
      (
        rw there (turned k (omega arith) ∙ (rw back (v.0))),
        ne.0,
        turned-IsString ys (p + 1) (omega arith) (omega arith) v.1 ne.1,
      )

-- `reverse_str`, with more fuel than bytes, turns the string whose last byte comes first in `xs`
-- into the string `xs`, and leaves every byte outside it as it was.
pub reverse_str_lem :
    (fuel : ℕ) (m : Mem) (str : ℕ) (xs : List ℕ)
    → IsReversed m str xs
    → NoZero xs
    → load8 m (str + length xs) ≡ 0
    → length xs < fuel
    → (m' : Mem) × (reverse_str fuel m str ≡ some m')
      × IsString m' str xs
      × ((b : ℕ) → (b < str) ⊎ (str + length xs ≤ b) → load8 m' b ≡ load8 m b)
unfolding reverse_str strlen
reverse_str_lem fuel m str xs v ne z h =
    let len = length xs in
    let m' = swap_ends (len / 2) m str 0 len in
    let found : strlen_loop fuel m str 0 ≡ some len =
      strlen_loop-at fuel m str 0 len (λ j. IsReversed-nonzero m str xs j v ne) z (omega arith)
        (omega arith) in
    let off : (b : ℕ) → (b < str) ⊎ (str + len ≤ b) → load8 m' b ≡ load8 m b =
      λ b o. swap_ends-outside (len / 2) m str 0 len b (omega arith) o in
    (
      m',
      ap (λ o. elim o [ none ↦ none | some n ↦ some (swap_ends (n / 2) m str 0 n) ]) found,
      turned-IsString m m' str len
          (λ k l. swap_ends_lem (len / 2) m str 0 len k (omega arith) l ∙ ground arith)
          (off (str + len) (inr (omega arith)) ∙ z) xs str refl (omega arith) v ne,
      off,
    )
