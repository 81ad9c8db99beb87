-- ===== src/Queue/Fifo.antt =====
-- The queue of kernel/sys/queue.c is a first-in first-out list of nodes.
use tuix_os.Base.{ℕ, ◌+◌, ◌≡◌, ◌≢◌, refl, Bool, true, false, ◌∷◌, [], List, ◌++◌, All, arith}
use tuix_os.Memory.{Mem, null, store32}
use tuix_os.Memory.Laws.{load32-store32_self, load32-store32_ne, load32-lt}
use tuix_os.Queue.{
  next, head, tail, enqueue, unlink, dequeue, queue_empty, queue_peek, queue_init, check_queue_init,
}
use tuix_os.Queue.Chain.{
  Apart, Separate, IsNode, IsChain, last, IsChain-store-Apart, IsChain-link, Separate-append,
  last-append, All-last, All-append, IsChain-IsNode,
}

-- The queue at `q` holds the nodes `xs`, the oldest first.
pub record IsQueue (m : Mem) (q : ℕ) (xs : List ℕ) : Type 0 where
  pub set : q ≢ null
  pub chain : IsChain m (head m q) xs
  pub ends : tail m q ≡ last null xs
  pub outside : All (Apart q) xs
  pub separate : Separate xs

-- A node that can be put in the queue: it shares no byte with the queue or with what it holds.
pub record IsFresh (q : ℕ) (xs : List ℕ) (node : ℕ) : Type 0 where
  pub fits : IsNode node
  pub off_queue : Apart q node
  pub off_nodes : All (Apart node) xs

module _ (m : Mem) (q : ℕ) where
  -- The three stores of `enqueue`, on an empty queue and on one with nodes.
  enqueue-nil :
      (node : ℕ)
      → IsQueue m q []
      → IsFresh q [] node
      → enqueue m q node ≡ store32 (store32 (store32 m node null) q node) (q + 4) node
  unfolding enqueue
  enqueue-nil node v f = ground (arith, v.ends, load32-store32_ne m node null (q + 4))

  enqueue-cons :
      (node x : ℕ) (xs : List ℕ)
      → IsQueue m q (x ∷ xs)
      → IsFresh q (x ∷ xs) node
      → IsNode (last x xs)
      → enqueue m q node ≡ store32 (store32 (store32 m node null) (last x xs) node) (q + 4) node
  unfolding enqueue
  enqueue-cons node x xs v f n = ground (arith, v.ends, load32-store32_ne m node null (q + 4))

  enqueue-nil_IsQueue :
      (node : ℕ) → IsQueue m q [] → IsFresh q [] node → IsQueue (enqueue m q node) q (node ∷ [])
  enqueue-nil_IsQueue node v f = rw (enqueue-nil node v f) (record {
    set = v.set;
    chain = (
      ground (
        arith,
        load32-store32_ne (store32 (store32 m node null) q node) (q + 4) node q,
        load32-store32_self (store32 m node null) q node,
      ),
      f.fits,
      ground (
        arith,
        load32-store32_ne (store32 (store32 m node null) q node) (q + 4) node node,
        load32-store32_ne (store32 m node null) q node node,
        load32-store32_self m node null,
      ),
    );
    ends = ground (arith, load32-store32_self (store32 (store32 m node null) q node) (q + 4) node);
    outside = (f.off_queue, tt);
    separate = (tt, tt);
  })

  head-link :
      (node l : ℕ)
      → Apart q node
      → Apart q l
      → head (store32 (store32 (store32 m node null) l node) (q + 4) node) q ≡ head m q
  head-link node l h k = ground (
    arith,
    load32-store32_ne (store32 (store32 m node null) l node) (q + 4) node q,
    load32-store32_ne (store32 m node null) l node q,
    load32-store32_ne m node null q,
  )

  enqueue-cons_IsQueue :
      (node x : ℕ) (xs : List ℕ)
      → IsQueue m q (x ∷ xs)
      → IsFresh q (x ∷ xs) node
      → IsQueue (enqueue m q node) q (x ∷ xs ++ node ∷ [])
  enqueue-cons_IsQueue node x xs v f = rw (enqueue-cons node x xs v f last_fits) (record {
    set = v.set;
    chain = rw (head-link node (last x xs) f.off_queue last_off) (
        IsChain-store-Apart _ q (q + 4) node (head m q) (x ∷ xs ++ node ∷ []) (omega arith)
          (omega arith) outside linked);
    ends = ground (
      arith,
      load32-store32_self (store32 (store32 m node null) (last x xs) node) (q + 4) node,
      last-append x xs node,
    );
    outside = outside;
    separate = Separate-append (x ∷ xs) node v.separate f.off_nodes;
  })
    where
      last_fits : IsNode (last x xs)
      last_fits = All-last IsNode x xs v.chain.1 (IsChain-IsNode m _ xs v.chain.2)

      last_off : Apart q (last x xs)
      last_off = All-last (Apart q) x xs v.outside.0 v.outside.1

      outside : All (Apart q) (x ∷ xs ++ node ∷ [])
      outside = All-append (Apart q) (x ∷ xs) node v.outside f.off_queue

      linked :
          IsChain (store32 (store32 m node null) (last x xs) node) (head m q) (x ∷ xs ++ node ∷ [])
      linked =
          IsChain-link (store32 m node null) (head m q) x xs node
            (IsChain-store-Apart m node node null (head m q) (x ∷ xs) (omega arith) (omega arith)
              f.off_nodes v.chain)
            v.separate f.off_nodes f.fits (ground (arith, load32-store32_self m node null))

-- `enqueue` of a fresh node puts it behind the nodes that the queue holds.
pub enqueue_lem :
    (m : Mem) (q node : ℕ) (xs : List ℕ)
    → IsQueue m q xs
    → IsFresh q xs node
    → IsQueue (enqueue m q node) q (xs ++ node ∷ [])
enqueue_lem m q node [] v f = enqueue-nil_IsQueue m q node v f
enqueue_lem m q node (x ∷ xs) v f = enqueue-cons_IsQueue m q node x xs v f

-- The stores of `dequeue` on a queue whose first node is `x`.
module _ (m : Mem) (q : ℕ) where
  abbrev popped : ℕ → Mem
  popped x = store32 (store32 m q (next m x)) x null

  popped-IsChain :
      (x p : ℕ) (xs : List ℕ)
      → All (Apart q) xs
      → All (Apart x) xs
      → IsChain m p xs
      → IsChain (popped x) p xs
  popped-IsChain x p xs h k c =
      IsChain-store-Apart _ x x null p xs (omega arith) (omega arith) k
        (IsChain-store-Apart m q q (next m x) p xs (omega arith) (omega arith) h c)

  popped-words :
      (x : ℕ)
      → Apart q x
      → (head (popped x) q ≡ next m x) × (tail (popped x) q ≡ tail m q) × (next (popped x) x ≡ null)
  popped-words x h = ground (
    arith,
    load32-store32_ne (store32 m q (next m x)) x null q,
    load32-store32_ne (store32 m q (next m x)) x null (q + 4),
    load32-store32_self (store32 m q (next m x)) x null,
    load32-store32_self m q (next m x),
    load32-store32_ne m q (next m x) (q + 4),
    load32-lt m x,
  )

  unlink-nil :
      (x : ℕ) → IsQueue m q (x ∷ []) → IsQueue (unlink m q x) q [] × (next (unlink m q x) x ≡ null)
  unfolding unlink
  unlink-nil x v =
      let ended : unlink m q x ≡ store32 (popped x) (q + 4) null =
        ground (arith, popped-words x v.outside.0) in
      rw ended (
        record {
          set = v.set;
          chain =
              ground
                (arith, popped-words x v.outside.0, load32-store32_ne (popped x) (q + 4) null q);
          ends = ground (arith, load32-store32_self (popped x) (q + 4) null);
          outside = tt;
          separate = tt;
        },
        ground (arith, popped-words x v.outside.0, load32-store32_ne (popped x) (q + 4) null x),
      )

  unlink-cons :
      (x y : ℕ) (xs : List ℕ)
      → IsQueue m q (x ∷ y ∷ xs)
      → IsQueue (unlink m q x) q (y ∷ xs) × (next (unlink m q x) x ≡ null)
  unfolding unlink
  unlink-cons x y xs v =
      let kept : unlink m q x ≡ popped x = ground (arith, popped-words x v.outside.0) in
      rw kept (
        record {
          set = v.set;
          chain =
              rw ((popped-words x v.outside.0).0)
                (popped-IsChain x (next m x) (y ∷ xs) v.outside.1 v.separate.0 v.chain.2);
          ends = ground (arith, popped-words x v.outside.0, v.ends);
          outside = v.outside.1;
          separate = v.separate.1;
        },
        (popped-words x v.outside.0).2,
      )

  dequeue-cons : (x : ℕ) (xs : List ℕ) → IsQueue m q (x ∷ xs) → dequeue m q ≡ (x, unlink m q x)
  unfolding dequeue
  dequeue-cons x xs v = ground (arith, v.chain)

  unlink_lem :
      (x : ℕ) (xs : List ℕ)
      → IsQueue m q (x ∷ xs)
      → IsQueue (unlink m q x) q xs × (next (unlink m q x) x ≡ null)
  unlink_lem x [] v = unlink-nil x v
  unlink_lem x (y ∷ xs) v = unlink-cons x y xs v

  -- `dequeue` of a queue with nodes returns the oldest, leaves the others in their order, and
  -- clears the `next` field of the node that it took out.
  pub dequeue_lem :
      (x : ℕ) (xs : List ℕ)
      → IsQueue m q (x ∷ xs)
      → ((dequeue m q).0 ≡ x) × IsQueue (dequeue m q).1 q xs × (next (dequeue m q).1 x ≡ null)
  dequeue_lem x xs v = rw (dequeue-cons x xs v) (refl, (unlink_lem x xs v).0, (unlink_lem x xs v).1)

  -- `dequeue` of an empty queue returns the null pointer and writes nothing.
  pub dequeue-nil : IsQueue m q [] → dequeue m q ≡ (null, m)
  unfolding dequeue
  dequeue-nil v = ground (arith, v.chain)

-- What the three observers say of a queue.
abbrev pub first : List ℕ → ℕ
first [] = null
first (x ∷ xs) = x

abbrev pub is_nil : List ℕ → Bool
is_nil [] = true
is_nil (x ∷ xs) = false

-- On a well-formed queue `queue_empty` is true exactly for no nodes, `queue_peek` gives the
-- oldest node or null, and `check_queue_init` agrees with `queue_empty`.
pub observers_lem :
    (m : Mem) (q : ℕ) (xs : List ℕ)
    → IsQueue m q xs
    → (queue_empty m q ≡ is_nil xs)
      × (queue_peek m q ≡ first xs)
      × (check_queue_init m q ≡ is_nil xs)
unfolding queue_empty queue_peek check_queue_init
observers_lem m q [] v = ground (arith, v.chain, v.ends)
observers_lem m q (x ∷ xs) v = ground (arith, v.chain)

-- `queue_init` at a non-null address makes an empty queue.
pub queue_init_lem : (m : Mem) (q : ℕ) → q ≢ null → IsQueue (queue_init m q) q []
unfolding queue_init
queue_init_lem m q ne =
    let made : queue_init m q ≡ store32 (store32 m q null) (q + 4) null = ground arith in
    rw made (record {
      set = ne;
      chain = ground (
        arith,
        load32-store32_ne (store32 m q null) (q + 4) null q,
        load32-store32_self m q null,
      );
      ends = ground (arith, load32-store32_self (store32 m q null) (q + 4) null);
      outside = tt;
      separate = tt;
    })
