-- ===== src/Console/Screen/Format.antt =====
-- How much `kprintf` of kernel/drivers/screen.c puts into its buffer.
use tuix_os.Base.{
  ℕ, zero, suc, ◌≤◌, ◌<◌, ◌≡◌, refl, Bool, true, false, ltb, ◌==◌, Bool-cases, inl, inr, Option,
  none, some, List, [], ◌∷◌, ◌++◌, length, length-append, arith,
}
use tuix_os.Console.{Arg, word, text}
use tuix_os.Console.Screen.{
  copy_text, number_text, hex_buf, Directive, string, decimal, hex, plain, directive, convert, bind,
  kprintf_from,
}

length-copy_text : (str buffer : List ℕ) → length buffer ≤ 127 → length (copy_text str buffer) ≤ 127
unfolding copy_text
length-copy_text [] buffer h = h
length-copy_text (c ∷ str) buffer h = elim (Bool-cases (ltb (length buffer) 127)) [
  | inl room ↦
      let below : length buffer < 127 = ground arith in
      let more = length-append buffer (c ∷ []) in
      rw room (length-copy_text str (buffer ++ (c ∷ [])) (omega arith))
  | inr full ↦ rw full h
]

-- The buffer that a branch gives, and the one at the end, has 127 bytes at most.
abbrev Fits : Option (List ℕ) → Type 0
Fits none = Unit
Fits (some buffer) = length buffer ≤ 127

abbrev ConvertFits : Option (List ℕ × List Arg) → Type 0
ConvertFits none = Unit
ConvertFits (some (buffer, args)) = length buffer ≤ 127

convert-ConvertFits :
    (d : Directive) (c : ℕ) (args : List Arg) (buffer : List ℕ)
    → length buffer < 127
    → ConvertFits (convert d c args buffer)
unfolding convert
convert-ConvertFits plain c args buffer h = omega (arith, length-append buffer (c ∷ []))
convert-ConvertFits string c [] buffer h = tt
convert-ConvertFits decimal c [] buffer h = tt
convert-ConvertFits hex c [] buffer h = tt
convert-ConvertFits string c (text str ∷ args) buffer h = length-copy_text str buffer (omega arith)
convert-ConvertFits string c (word zero ∷ args) buffer h = omega arith
convert-ConvertFits string c (word (suc p) ∷ args) buffer h =
    let no : (suc p == 0) ≡ false = ground arith in rw no tt
convert-ConvertFits decimal c (text str ∷ args) buffer h = tt
convert-ConvertFits hex c (text str ∷ args) buffer h = tt
convert-ConvertFits decimal c (word num ∷ args) buffer h =
    length-copy_text (number_text num) buffer (omega arith)
convert-ConvertFits hex c (word num ∷ args) buffer h =
    length-copy_text (hex_buf num) buffer (omega arith)

-- What follows a conversion, by its kind.
abbrev rest_from :
    (c next : ℕ) (fmt : List ℕ) (args : List Arg) (buffer : List ℕ) (room : Bool) (d : Directive)
    → Option (List ℕ)
rest_from c next fmt args buffer room d = elim room [
  | true ↦ bind (convert d c args buffer) (λ (buffer, args). elim d [
    | plain ↦ kprintf_from (next ∷ fmt) args buffer
    | _ ↦ kprintf_from fmt args buffer
  ])
  | false ↦ some buffer
]

bind-Fits :
    (o : Option (List ℕ × List Arg)) (f : List ℕ × List Arg → Option (List ℕ))
    → ConvertFits o
    → ((buffer : List ℕ) (args : List Arg) → length buffer ≤ 127 → Fits (f (buffer, args)))
    → Fits (bind o f)
bind-Fits none f h each = tt
bind-Fits (some (buffer, args)) f h each = each buffer args h

-- The rest fits when it fits from the next place and from the one behind it.
abbrev FitsFrom : (fmt : List ℕ) → Type 0
FitsFrom fmt =
    (args : List Arg) (buffer : List ℕ) → length buffer ≤ 127 → Fits (kprintf_from fmt args buffer)

rest_from-Fits :
    (c next : ℕ) (fmt : List ℕ) (args : List Arg) (buffer : List ℕ) (room : Bool) (d : Directive)
    → length buffer ≤ 127
    → (room ≡ true → length buffer < 127)
    → FitsFrom (next ∷ fmt)
    → FitsFrom fmt
    → Fits (rest_from c next fmt args buffer room d)
rest_from-Fits c next fmt args buffer false d h below one two = h
rest_from-Fits c next fmt args buffer true plain h below one two =
    bind-Fits (convert plain c args buffer) _ (convert-ConvertFits plain c args buffer (below refl))
      (λ b rest l. one rest b l)
rest_from-Fits c next fmt args buffer true string h below one two =
    bind-Fits (convert string c args buffer) _
      (convert-ConvertFits string c args buffer (below refl)) (λ b rest l. two rest b l)
rest_from-Fits c next fmt args buffer true decimal h below one two =
    bind-Fits (convert decimal c args buffer) _
      (convert-ConvertFits decimal c args buffer (below refl)) (λ b rest l. two rest b l)
rest_from-Fits c next fmt args buffer true hex h below one two =
    bind-Fits (convert hex c args buffer) _ (convert-ConvertFits hex c args buffer (below refl))
      (λ b rest l. two rest b l)

kprintf_from-Fits : (fmt : List ℕ) → FitsFrom fmt
unfolding kprintf_from
kprintf_from-Fits [] args buffer h = h
kprintf_from-Fits (c ∷ []) args buffer h = elim (Bool-cases (ltb (length buffer) 127)) [
  | inl room ↦
      let below : length buffer < 127 = ground arith in
      rw room (omega (arith, length-append buffer (c ∷ [])))
  | inr full ↦ rw full h
]
kprintf_from-Fits (c ∷ next ∷ fmt) args buffer h =
    rest_from-Fits c next fmt args buffer (ltb (length buffer) 127) (directive c next) h
      (λ room. ground arith) (kprintf_from-Fits (next ∷ fmt)) (kprintf_from-Fits fmt)

-- Whatever the format and the arguments are, the text that `kprintf` composes has 127 bytes at most, so
-- that it and the zero behind it are within the buffer of 128.
pub kprintf_from_lem :
    (fmt : List ℕ) (args : List Arg) (buffer : List ℕ)
    → kprintf_from fmt args [] ≡ some buffer
    → length buffer ≤ 127
kprintf_from_lem fmt args buffer e =
    let fits = kprintf_from-Fits fmt args [] (omega arith) in rw e at fits
