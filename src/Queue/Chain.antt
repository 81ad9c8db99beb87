-- ===== src/Queue/Chain.antt =====
-- Nodes linked by `next`, and how a chain outlives a store.
use tuix_os.Base.{ℕ, ◌+◌, ◌^◌, ◌≤◌, ◌<◌, ◌≡◌, ◌≢◌, refl, ◌⊎◌, List, [], ◌∷◌, ◌++◌, All, arith}
use tuix_os.Memory.{Mem, null, load32, store32}
use tuix_os.Memory.Laws.{load32-store32_self, load32-store32_ne}

-- Two blocks of eight bytes, nodes or the queue itself, share no byte.
abbrev pub Apart : ℕ → ℕ → Type 0
Apart a b = (a + 8 ≤ b) ⊎ (b + 8 ≤ a)

-- No two of the nodes share a byte.
abbrev pub Separate : List ℕ → Type 0
Separate [] = Unit
Separate (x ∷ xs) = All (Apart x) xs × Separate xs

-- An address that a pointer can hold, and not the null pointer.
abbrev pub IsNode : ℕ → Type 0
IsNode x = (x ≢ null) × (x < 2 ^ 32)

-- From `p` the `next` pointers lead through the nodes `xs` to the null pointer.
abbrev pub IsChain : Mem → ℕ → List ℕ → Type 0
IsChain m p [] = p ≡ null
IsChain m p (x ∷ xs) = (p ≡ x) × IsNode x × IsChain m (load32 m x) xs

-- The last of the nodes, or `d`.
abbrev pub last : ℕ → List ℕ → ℕ
last d [] = d
last d (x ∷ xs) = last x xs

pub IsChain-store :
    (m : Mem) (a v p : ℕ) (xs : List ℕ)
    → All (λ x. (x + 4 ≤ a) ⊎ (a + 4 ≤ x)) xs
    → IsChain m p xs
    → IsChain (store32 m a v) p xs
IsChain-store m a v p [] h c = c
IsChain-store m a v p (x ∷ xs) h c =
    (c.0, c.1, rw (load32-store32_ne m a v x h.0) (IsChain-store m a v (load32 m x) xs h.1 c.2))

-- A store to a place that shares no byte with the nodes keeps the chain.
pub IsChain-store-Apart :
    (m : Mem) (b a v p : ℕ) (xs : List ℕ)
    → b ≤ a
    → a + 4 ≤ b + 8
    → All (Apart b) xs
    → IsChain m p xs
    → IsChain (store32 m a v) p xs
IsChain-store-Apart m b a v p [] le le' h c = c
IsChain-store-Apart m b a v p (x ∷ xs) le le' h c = (
  c.0,
  c.1,
  rw (load32-store32_ne m a v x (ground arith))
      (IsChain-store-Apart m b a v (load32 m x) xs le le' h.1 c.2),
)

pub IsChain-IsNode : (m : Mem) (p : ℕ) (xs : List ℕ) → IsChain m p xs → All IsNode xs
IsChain-IsNode m p [] c = tt
IsChain-IsNode m p (x ∷ xs) c = (c.1, IsChain-IsNode m (load32 m x) xs c.2)

pub All-last {κ} : (P : ℕ → Type κ) (x : ℕ) (xs : List ℕ) → P x → All P xs → P (last x xs)
All-last P x [] h hs = h
All-last P x (y ∷ xs) h hs = All-last P y xs hs.0 hs.1

pub All-append {κ} : (P : ℕ → Type κ) (xs : List ℕ) (y : ℕ) → All P xs → P y → All P (xs ++ y ∷ [])
All-append P [] y hs h = (h, tt)
All-append P (x ∷ xs) y hs h = (hs.0, All-append P xs y hs.1 h)

-- Linking a null-ended node behind the last one makes it the new last.
pub IsChain-link :
    (m : Mem) (p x : ℕ) (xs : List ℕ) (node : ℕ)
    → IsChain m p (x ∷ xs)
    → Separate (x ∷ xs)
    → All (Apart node) (x ∷ xs)
    → IsNode node
    → load32 m node ≡ null
    → IsChain (store32 m (last x xs) node) p (x ∷ xs ++ node ∷ [])
IsChain-link m p x [] node c s a fits e = (
  c.0,
  c.1,
  (
    ground (arith, load32-store32_self m x node),
    fits,
    ground (arith, load32-store32_ne m x node node),
  ),
)
IsChain-link m p x (y ∷ ys) node c s a fits e = (
  c.0,
  c.1,
  rw (load32-store32_ne m (last y ys) node x (ground (arith, All-last (Apart x) y ys s.0.0 s.0.1)))
      (IsChain-link m (load32 m x) y ys node c.2 s.1 a.1 fits e),
)

pub Separate-append :
    (xs : List ℕ) (node : ℕ) → Separate xs → All (Apart node) xs → Separate (xs ++ node ∷ [])
Separate-append [] node s a = (tt, tt)
Separate-append (x ∷ xs) node s a =
    (All-append (Apart x) xs node s.0 (omega arith), Separate-append xs node s.1 a.1)

pub last-append : (d : ℕ) (xs : List ℕ) (node : ℕ) → last d (xs ++ node ∷ []) ≡ node
last-append d [] node = refl
last-append d (x ∷ xs) node = last-append x xs node
