-- ===== src/Mkfs/Copy.antt =====
-- A file that tools/mkfs.c copies into the image in the pieces that it reads.
use tuix_os.Base.{
  ℕ, ◌+◌, ◌-◌, ◌*◌, ◌^◌, ◌≤◌, ◌<◌, ◌≡◌, refl, ap, ◌∙◌, dec_lt, List, [], ◌∷◌, ltb, if◌then◌else◌,
  arith,
}
use tuix_os.Base.Outcome.{ok}
use tuix_os.Memory.{Mem, load8}
use tuix_os.Fs.{b_size, max_file, t_file}
use tuix_os.Mkfs.{Image, inodes_num, ialloc}
use tuix_os.Mkfs.Build.{append_pieces}
use tuix_os.Mkfs.Write.{spans}
use tuix_os.Mkfs.File.{size_of, byte_of, HasFile, Appended, iappend_lem}
use tuix_os.Mkfs.New.{IsFresh, ialloc-HasFile, size_zero}

-- The length and the bytes of a file that is read in pieces.
unfoldable pub total : List (Mem × ℕ) → ℕ
total [] = 0
total ((bytes, cc) ∷ ps) = cc + total ps

-- The blocks that the pieces lie in at most.
unfoldable pub spans_all : List (Mem × ℕ) → ℕ
spans_all [] = 0
spans_all ((bytes, cc) ∷ ps) = spans cc + spans_all ps

unfoldable pub content : List (Mem × ℕ) → ℕ → ℕ
content [] i = 0
content ((bytes, cc) ∷ ps) i = if ltb i cc then load8 bytes i else content ps (i - cc)

-- The file has got the pieces at its end.
pub record Copied (ps : List (Mem × ℕ)) (inum : ℕ) (s s' : Image) : Type 0 where
  pub file : HasFile s' inum
  pub size : size_of s' inum ≡ size_of s inum + total ps
  pub old : (i : ℕ) → i < size_of s inum → byte_of s' inum i ≡ byte_of s inum i
  pub new : (i : ℕ) → i < total ps → byte_of s' inum (size_of s inum + i) ≡ content ps i

module _ (bytes : Mem) (cc : ℕ) (ps : List (Mem × ℕ)) (inum : ℕ) (s t u : Image)
    (w : Appended bytes 0 cc inum s t) (z : Copied ps inum t u) where
  copied_new :
      (i : ℕ)
      → i < total ((bytes, cc) ∷ ps)
      → byte_of u inum (size_of s inum + i) ≡ content ((bytes, cc) ∷ ps) i
  unfolding total content
  copied_new i l =
      let grown = w.size in
      elim (dec_lt i cc) [
        | yes h ↦ z.old (size_of s inum + i) (omega arith) ∙ w.new i h ∙ (ground arith)
        | no h ↦
            let e : size_of s inum + i ≡ size_of t inum + (i - cc) = omega arith in
            ap (byte_of u inum) e ∙ z.new (i - cc) (omega arith) ∙ (ground arith)
      ]

  Copied-cons : Copied ((bytes, cc) ∷ ps) inum s u
  unfolding total
  Copied-cons =
      let grown = w.size in
      let grown' = z.size in
      record {
        file = z.file;
        size = omega arith;
        old = λ i l. z.old i (omega arith) ∙ w.old i l;
        new = copied_new;
      }

pub append_pieces_lem :
    (ps : List (Mem × ℕ)) (inum : ℕ) (s : Image)
    → inum < inodes_num
    → HasFile s inum
    → size_of s inum + total ps ≤ max_file * b_size
    → s.freeblock + 2 * spans_all ps ≤ s.length
    → s.length ≤ 2 ^ 23
    → (u : Image) × (append_pieces inum ps s ≡ ok u) × Copied ps inum s u
unfolding append_pieces total spans_all
append_pieces_lem [] inum s in_range v fits room small = (
  s,
  refl,
  record { file = v; size = omega arith; old = λ i l. refl; new = λ i l. absurd (omega arith) },
)
append_pieces_lem ((bytes, cc) ∷ ps) inum s in_range v fits room small =
    let (t, ran, w) = iappend_lem bytes 0 cc inum s in_range v (omega arith) (omega arith) small in
    let grown = w.size in
    let up = w.cost in
    let long = w.length in
    let (u, ran', z) =
      append_pieces_lem ps inum t in_range w.file (omega arith) (omega arith) (omega arith) in
    (u, rw ran ran', Copied-cons bytes cc ps inum s t u w z)

-- In an image that is clear behind its blocks in use and has an inode left, let `ialloc` make a file and
-- `iappend` put what is read into it piece by piece, no more than the largest file. All of it succeeds,
-- the file has its blocks to itself, and its size and its bytes are those of what was read.
pub ialloc-append_pieces :
    (ps : List (Mem × ℕ)) (s : Image)
    → IsFresh s
    → s.freeinode < inodes_num
    → total ps ≤ max_file * b_size
    → s.freeblock + 2 * spans_all ps ≤ s.length
    → s.length ≤ 2 ^ 23
    → (u : Image) × (append_pieces s.freeinode ps ((ialloc t_file s).1) ≡ ok u)
      × HasFile u s.freeinode
      × (size_of u s.freeinode ≡ total ps)
      × ((i : ℕ) → i < total ps → byte_of u s.freeinode i ≡ content ps i)
unfolding ialloc
ialloc-append_pieces ps s fresh in_range fits room small =
    let s' = (ialloc t_file s).1 in
    let none = size_zero t_file s in
    let (u, ran, z) =
      append_pieces_lem ps s.freeinode s' in_range (ialloc-HasFile t_file s fresh in_range)
        (omega arith) room small in
    let size = z.size in
    (u, ran, z.file, omega arith, λ i l. ap (byte_of u s.freeinode) (omega arith) ∙ z.new i l)
