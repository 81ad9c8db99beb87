-- ===== src/Tests/Disks.antt =====
-- The builder of disk images of tools/mkfs.c on small images.
use tuix_os.Base.{ℕ, ◌*◌, ◌≡◌, refl, List, [], ◌∷◌, arith}
use tuix_os.Base.Outcome.{ok, panic}
use tuix_os.Memory.{Mem, load8}
use tuix_os.Fs.{t_file}
use tuix_os.Mkfs.{Image, meta_num, ialloc, iappend}
use tuix_os.Mkfs.File.{size_of, HasFile, Appended, iappend_lem, iappend-too_long}
use tuix_os.Mkfs.New.{IsFresh, ialloc-HasFile, size_zero}

abbrev clear_image : Image
clear_image = record {
  disk = λ x. 0;
  length = 1000;
  stale = λ i. 0xAA;
  freeinode = 1;
  freeblock = meta_num;
}

clear_image-IsFresh : IsFresh clear_image
unfolding load8
clear_image-IsFresh = record { behind = omega arith; clear = λ x h. refl }

-- The image with one and with two empty files.
abbrev one_file : Image
one_file = (ialloc t_file clear_image).1

abbrev two_files : Image
two_files = (ialloc t_file one_file).1

one_file-HasFile : HasFile one_file 1
one_file-HasFile = ialloc-HasFile t_file clear_image clear_image-IsFresh (omega arith)

one_file-IsFresh : IsFresh one_file
unfolding ialloc
one_file-IsFresh = let v = one_file-HasFile in record { behind = v.behind; clear = v.clear }

two_files-HasFile : HasFile two_files 2
unfolding ialloc
two_files-HasFile = ialloc-HasFile t_file one_file one_file-IsFresh (omega arith)

no_size : size_of one_file 1 ≡ 0
no_size = size_zero t_file clear_image

no_size2 : size_of two_files 2 ≡ 0
unfolding ialloc
no_size2 = size_zero t_file one_file

iappend_example :
    (s' : Image) × (iappend 1 (λ i. 7 * i) 0 1000 one_file ≡ ok s')
    × Appended (λ i. 7 * i) 0 1000 1 one_file s'
unfolding ialloc
iappend_example =
    iappend_lem (λ i. 7 * i) 0 1000 1 one_file (omega arith) one_file-HasFile
      (omega (arith, no_size)) (omega arith) (omega arith)

iappend-too_long_example : iappend 1 (λ i. 7 * i) 0 71681 one_file ≡ panic
iappend-too_long_example =
    iappend-too_long (λ i. 7 * i) 0 71681 1 one_file (omega arith) (omega (arith, no_size))
      (omega (arith, no_size))

abbrev two_pieces : List (Mem × ℕ)
two_pieces = (λ i. 7 * i, 512) ∷ (λ i. i, 3) ∷ []
