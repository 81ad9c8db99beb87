-- ===== src/Queue/Run.antt =====
-- Sequences of calls on one queue of kernel/sys/queue.c, against a list of nodes.
use tuix_os.Base.{ℕ, ◌≡◌, List, [], ◌∷◌, ◌++◌, ap, refl}
use tuix_os.Memory.{Mem, null}
use tuix_os.Queue.{enqueue, dequeue}
use tuix_os.Queue.Fifo.{IsQueue, IsFresh, enqueue_lem, dequeue_lem, dequeue-nil}

pub data Op : Type 0 where
  put : (node : ℕ) → Op
  get : Op

-- What the calls of `dequeue` among the operations return, in order.
unfoldable pub run : Mem → (q : ℕ) → List Op → List ℕ
run m q [] = []
run m q (put node ∷ ops) = run (enqueue m q node) q ops
run m q (get ∷ ops) = (dequeue m q).0 ∷ run (dequeue m q).1 q ops

-- The same on a list, the oldest node first.
unfoldable pub spec : List ℕ → List Op → List ℕ
spec xs [] = []
spec xs (put node ∷ ops) = spec (xs ++ node ∷ []) ops
spec [] (get ∷ ops) = null ∷ spec [] ops
spec (x ∷ xs) (get ∷ ops) = x ∷ spec xs ops

-- Each node is fresh at the moment when it is put in.
abbrev pub Admissible : (q : ℕ) → List ℕ → List Op → Type 0
Admissible q xs [] = Unit
Admissible q xs (put node ∷ ops) = IsFresh q xs node × Admissible q (xs ++ node ∷ []) ops
Admissible q [] (get ∷ ops) = Admissible q [] ops
Admissible q (x ∷ xs) (get ∷ ops) = Admissible q xs ops

-- Whatever the order of the calls, with each node fresh when it is put in, the queue in memory
-- returns the nodes that a first-in first-out list returns.
pub run-spec :
    (m : Mem) (q : ℕ) (xs : List ℕ) (ops : List Op)
    → IsQueue m q xs
    → Admissible q xs ops
    → run m q ops ≡ spec xs ops
unfolding run spec
run-spec m q xs [] v h = refl
run-spec m q xs (put node ∷ ops) v h =
    run-spec (enqueue m q node) q (xs ++ node ∷ []) ops (enqueue_lem m q node xs v h.0) h.1
run-spec m q [] (get ∷ ops) v h =
    rw (dequeue-nil m q v) (ap (λ r. null ∷ r) (run-spec m q [] ops v h))
run-spec m q (x ∷ xs) (get ∷ ops) v h =
    let (out, rest, _) = dequeue_lem m q x xs v in
    rw out (ap (λ r. x ∷ r) (run-spec (dequeue m q).1 q xs ops rest h))
