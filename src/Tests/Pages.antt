-- ===== src/Tests/Pages.antt =====
-- The page allocator of kernel/mm/kalloc.c on a few pages.
use tuix_os.Base.{ℕ, ◌≡◌, refl, List, [], ◌∷◌, some, arith}
use tuix_os.Kalloc.{Kmem, kfree, free_range}
use tuix_os.Kalloc.Chain.{IsPage, IsFree}
use tuix_os.Kalloc.Free.{kfree_lem}
use tuix_os.Kalloc.Range.{pages_onto, free_range_lem}

abbrev none_free : Kmem
none_free = record { mem = λ a. 0; freelist = 0 }

none_free-IsFree : IsFree none_free []
none_free-IsFree = record { chain = refl; distinct = tt }

page5 : IsPage 0x5000
page5 = record { set = omega arith; aligned = refl; fits = omega arith }

abbrev one_free : Kmem
one_free = kfree none_free 0x5000

one_free-IsFree : IsFree one_free (0x5000 ∷ [])
one_free-IsFree = (kfree_lem none_free 0x5000 [] none_free-IsFree page5 tt).0

abbrev pool_pages : List ℕ
pool_pages = pages_onto 67 0x100000 []

free_range_example :
    (s' : Kmem) × (free_range 100 none_free 0xFF001 0x143234 ≡ some s') × IsFree s' pool_pages
free_range_example =
    free_range_lem 100 none_free 0xFF001 0x143234 [] (omega arith) (omega arith) (omega arith)
      none_free-IsFree tt
