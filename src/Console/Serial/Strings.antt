-- ===== src/Console/Serial/Strings.antt =====
-- `int_to_str` of lib/string.c against `serial_print_int` of kernel/drivers/serial.c: two ways to write
-- an `int` in decimal, in memory and on the serial line.
use tuix_os.Base.{
  ℕ, zero, suc, ◌+◌, ◌/◌, ◌%◌, ◌^◌, ◌<◌, ◌≤◌, ◌≡◌, ◌≢◌, ◌⊎◌, inl, inr, refl, ap, ◌∙◌, true, false,
  ◌&&◌, ◌||◌, Bool-cases, ltb, leb, ◌==◌, Option, some, List, [], ◌∷◌, length, arith, ℕ_discrete,
  dec_lt,
}
use tuix_os.Base.Outcome.{Outcome, ok, panic, hang, fault, out_of_fuel}
use tuix_os.Memory.{Mem, load8, store8}
use tuix_os.Memory.Laws.{load8-store8_self, load8-store8_ne}
use tuix_os.Str.Chars.{reverse_str}
use tuix_os.Str.Chars.Laws.{IsString}
use tuix_os.Str.Chars.Reverse.{IsReversed, NoZero, reverse_str_lem}
use tuix_os.Str.Numbers.{digits_loop, finish, int_to_str}
use tuix_os.Console.{is_negative, negated}
use tuix_os.Console.Serial.{digit_char, digit_loop, serial_print_int}
use tuix_os.Console.Serial.Digits.{read_int, serial_print_int_lem}

-- A byte stored behind the text goes in front of the list.
IsReversed-store8 :
    (m : Mem) (p a c : ℕ) (xs : List ℕ)
    → p + length xs ≤ a
    → IsReversed m p xs
    → IsReversed (store8 m a c) p xs
IsReversed-store8 m p a c [] h v = tt
IsReversed-store8 m p a c (x ∷ xs) h v = (
  load8-store8_ne m a c (p + length xs) (omega arith) ∙ v.0,
  IsReversed-store8 m p a c xs (omega arith) v.1,
)

IsReversed-cons :
    (m : Mem) (p c : ℕ) (xs : List ℕ)
    → c < 256
    → IsReversed m p xs
    → IsReversed (store8 m (p + length xs) c) p (c ∷ xs)
IsReversed-cons m p c xs h v = (
  load8-store8_self m (p + length xs) c ∙ (omega arith),
  IsReversed-store8 m p (p + length xs) c xs (omega arith) v,
)

-- What `digits_loop` leaves where `digit_loop` gives `cs`.
record Stored (m : Mem) (buffer start : ℕ) (acc cs : List ℕ) (m' : Mem) : Type 0 where
  text : IsReversed m' buffer cs
  grows : length acc ≤ length cs
  nonzero : NoZero acc → NoZero cs
  kept : (b : ℕ) → (b < buffer + start) ⊎ (buffer + length cs ≤ b) → load8 m' b ≡ load8 m b

ok-injective : (xs ys : List ℕ) → ok xs ≡ ok ys → xs ≡ ys
ok-injective xs ys e = cc

digits_loop-Stored :
    (fuel : ℕ) (m : Mem) (buffer num : ℕ) (acc cs : List ℕ)
    → digit_loop fuel num 10 acc ≡ ok cs
    → IsReversed m buffer acc
    → (m' : Mem) × (digits_loop fuel m buffer (length acc) num ≡ some (length cs, m'))
      × Stored m buffer (length acc) acc cs m'
unfolding digit_loop digits_loop
digits_loop-Stored zero m buffer num acc cs e v = cc
digits_loop-Stored (suc fuel) m buffer num acc cs e v =
    elim (Bool-cases ((num == 0) || is_negative num)) [
      | inl t ↦
          let same : acc ≡ cs = ok-injective acc cs (rw t at e) in
          let stop : (ltb 0 num && ltb num (2 ^ 31)) ≡ false = ground arith in
          (
            m,
            rw (← same, stop) refl,
            rw (← same)
                (record { text = v; grows = omega arith; nonzero = λ a. a; kept = λ b o. refl }),
          )
      | inr t ↦
          let go : (ltb 0 num && ltb num (2 ^ 31)) ≡ true = ground arith in
          let c = digit_char (num % 10) in
          let char : c ≡ 0x30 + num % 10 = ground arith in
          let m1 = store8 m (buffer + length acc) c in
          let (m', ran, d) =
            digits_loop-Stored fuel m1 buffer (num / 10) (c ∷ acc) cs (rw t at e)
              (IsReversed-cons m buffer c acc (omega arith) v) in
          let at : length acc + 1 ≡ suc (length acc) = omega arith in
          let grown = d.grows in
          (
            m',
            rw (go, ← char, at) ran,
            record {
              text = d.text;
              grows = omega arith;
              nonzero = λ a. d.nonzero (omega arith, a);
              kept = λ b o.
                  d.kept b (omega arith)
                  ∙ load8-store8_ne m (buffer + length acc) c b (omega arith);
            },
          )
    ]

abbrev signed : Outcome (List ℕ) → Outcome (List ℕ)
signed (ok buffer) = ok (0x2D ∷ buffer)
signed o = o

-- What `int_to_str` leaves at `buffer`: the text `cs`, and the bytes outside 12 as they were.
abbrev IsText : (m : Mem) (buffer : ℕ) (cs : List ℕ) (m' : Mem) → Type 0
IsText m buffer cs m' =
    IsString m' buffer cs × ((b : ℕ) → (b < buffer) ⊎ (buffer + 12 ≤ b) → load8 m' b ≡ load8 m b)

-- The zero at the end and the reversal, behind the bytes of `cs`.
reversed-IsText :
    (fuel : ℕ) (m m1 : Mem) (buffer : ℕ) (cs : List ℕ)
    → IsReversed m1 buffer cs
    → NoZero cs
    → length cs ≤ 11
    → 11 < fuel
    → ((b : ℕ) → (b < buffer) ⊎ (buffer + 12 ≤ b) → load8 m1 b ≡ load8 m b)
    → (m' : Mem) × (reverse_str fuel (store8 m1 (buffer + length cs) 0) buffer ≡ some m')
      × IsText m buffer cs m'
reversed-IsText fuel m m1 buffer cs v ne short enough kept =
    let m2 = store8 m1 (buffer + length cs) 0 in
    let (m', ran, string, off) =
      reverse_str_lem fuel m2 buffer cs
        (IsReversed-store8 m1 buffer (buffer + length cs) 0 cs (omega arith) v) ne
        (load8-store8_self m1 (buffer + length cs) 0 ∙ refl) (omega arith) in
    (
      m',
      ran,
      (
        string,
        λ b o.
            off b (omega arith)
            ∙ load8-store8_ne m1 (buffer + length cs) 0 b (omega arith)
            ∙ kept b o,
      ),
    )

abbrev reverse_at : (fuel : ℕ) (m : Mem) (buffer i : ℕ) → Option Mem
reverse_at fuel m buffer i = reverse_str fuel (store8 m (buffer + i) 0) buffer

module _ (fuel : ℕ) (m : Mem) (n buffer : ℕ) (enough : 11 < fuel) (fits : n < 2 ^ 32) where
  zero-IsText :
      n ≡ 0 → (m' : Mem) × (int_to_str fuel m n buffer ≡ some m') × IsText m buffer (0x30 ∷ []) m'
  unfolding int_to_str
  zero-IsText z = (
    store8 (store8 m buffer 0x30) (buffer + 1) 0,
    rw z refl,
    (
      (
        load8-store8_ne (store8 m buffer 0x30) (buffer + 1) 0 buffer (omega arith)
            ∙ load8-store8_self m buffer 0x30
            ∙ refl,
        (omega arith),
        load8-store8_self (store8 m buffer 0x30) (buffer + 1) 0 ∙ refl,
      ),
      λ b o.
          load8-store8_ne (store8 m buffer 0x30) (buffer + 1) 0 b (omega arith)
          ∙ load8-store8_ne m buffer 0x30 b (omega arith),
    ),
  )

  int_to_str-positive :
      (i : ℕ) (m1 : Mem)
      → n ≢ 0
      → n < 2 ^ 31
      → digits_loop fuel m buffer 0 n ≡ some (i, m1)
      → int_to_str fuel m n buffer ≡ reverse_at fuel m1 buffer i
  unfolding int_to_str finish
  int_to_str-positive i m1 ne small ran =
      let no : (n == 0) ≡ false = ground arith in
      let sign : leb (2 ^ 31) n ≡ false = ground arith in rw (no, sign, ran, sign) refl

  int_to_str-negative :
      (i : ℕ) (m1 : Mem)
      → n ≢ 0
      → 2 ^ 31 ≤ n
      → digits_loop fuel m buffer 0 (negated n) ≡ some (i, m1)
      → int_to_str fuel m n buffer ≡ reverse_at fuel (store8 m1 (buffer + i) 0x2D) buffer (i + 1)
  unfolding int_to_str finish
  int_to_str-negative i m1 ne big ran =
      let no : (n == 0) ≡ false = ground arith in
      let sign : leb (2 ^ 31) n ≡ true = ground arith in rw (no, sign, ran, sign) refl

  positive-IsText :
      (cs : List ℕ)
      → n ≢ 0
      → n < 2 ^ 31
      → digit_loop fuel n 10 [] ≡ ok cs
      → length cs ≤ 11
      → (m' : Mem) × (int_to_str fuel m n buffer ≡ some m') × IsText m buffer cs m'
  positive-IsText cs ne small e short =
      let (m1, ran, d) = digits_loop-Stored fuel m buffer n [] cs e tt in
      let (m', ran', text) =
        reversed-IsText fuel m m1 buffer cs d.text (d.nonzero tt) short enough
          (λ b o. d.kept b (omega arith)) in
      (m', int_to_str-positive (length cs) m1 ne small ran ∙ ran', text)

  negative-IsText :
      (cs : List ℕ)
      → n ≢ 0
      → 2 ^ 31 ≤ n
      → digit_loop fuel (negated n) 10 [] ≡ ok cs
      → length cs ≤ 10
      → (m' : Mem) × (int_to_str fuel m n buffer ≡ some m') × IsText m buffer (0x2D ∷ cs) m'
  negative-IsText cs ne big e short =
      let (m1, ran, d) = digits_loop-Stored fuel m buffer (negated n) [] cs e tt in
      let m2 = store8 m1 (buffer + length cs) 0x2D in
      let (m', ran', text) =
        reversed-IsText fuel m m2 buffer (0x2D ∷ cs)
          (IsReversed-cons m1 buffer 0x2D cs (omega arith) d.text) (omega arith, d.nonzero tt)
          (omega arith) enough
          (λ b o.
            load8-store8_ne m1 (buffer + length cs) 0x2D b (omega arith)
            ∙ d.kept b (omega arith)) in
      let next : length cs + 1 ≡ suc (length cs) = omega arith in
      (
        m',
        int_to_str-negative (length cs) m1 ne big ran ∙ ap (reverse_at fuel m2 buffer) next ∙ ran',
        text,
      )

signed-ok :
    (o : Outcome (List ℕ)) (cs : List ℕ)
    → signed o ≡ ok cs
    → (ds : List ℕ) × (o ≡ ok ds) × (cs ≡ (0x2D ∷ ds))
signed-ok (ok ds) cs e = (ds, refl, cc)
signed-ok panic cs e = cc
signed-ok hang cs e = cc
signed-ok fault cs e = cc
signed-ok out_of_fuel cs e = cc

-- The branch of `int_to_str` for what `serial_print_int` has sent.
printed-IsText :
    (fuel : ℕ) (m : Mem) (n buffer : ℕ) (cs : List ℕ)
    → 11 < fuel
    → n < 2 ^ 32
    → serial_print_int fuel n 10 ≡ ok cs
    → length cs ≤ 11
    → (m' : Mem) × (int_to_str fuel m n buffer ≡ some m') × IsText m buffer cs m'
unfolding serial_print_int
printed-IsText fuel m n buffer cs enough fits e short = elim (ℕ_discrete n 0) [
  | yes z ↦
      let same : (0x30 ∷ []) ≡ cs = ok-injective (0x30 ∷ []) cs (rw z at e) in
      rw (← same) (zero-IsText fuel m n buffer enough fits z)
  | no ne ↦
      let not_zero : (n == 0) ≡ false = ground arith in
      elim (dec_lt n (2 ^ 31)) [
        | yes small ↦
            let sign : leb (2 ^ 31) n ≡ false = ground arith in
            positive-IsText fuel m n buffer enough fits cs ne small (rw (not_zero, sign) at e) short
        | no big ↦
            let sign : leb (2 ^ 31) n ≡ true = ground arith in
            let (ds, ran, split) =
              signed-ok (digit_loop fuel (negated n) 10 []) cs (rw (not_zero, sign) at e) in
            let count : length cs ≡ suc (length ds) = ap length split in
            rw split
              (negative-IsText fuel m n buffer enough fits ds ne (omega arith) ran (omega arith))
      ]
]

-- For every `int` but the smallest, `int_to_str`, with fuel for 11 characters and the zero, leaves in the
-- buffer the very text that `serial_print_int` sends for the same `int`, with a zero behind it. This
-- text reads back as the number, and no byte outside 12 is written.
pub int_to_str_lem :
    (fuel : ℕ) (m : Mem) (n buffer : ℕ)
    → 11 < fuel
    → n < 2 ^ 32
    → n ≢ 2 ^ 31
    → (cs : List ℕ) × (m' : Mem) × (serial_print_int fuel n 10 ≡ ok cs)
      × (int_to_str fuel m n buffer ≡ some m')
      × (read_int cs ≡ n)
      × IsString m' buffer cs
      × ((b : ℕ) → (b < buffer) ⊎ (buffer + 12 ≤ b) → load8 m' b ≡ load8 m b)
int_to_str_lem fuel m n buffer enough fits least =
    let (cs, sent, back, short) = serial_print_int_lem fuel n (omega arith) fits least in
    let (m', ran, text) = printed-IsText fuel m n buffer cs enough fits sent short in
    (cs, m', sent, ran, back, text.0, text.1)
