-- ===== src/Tests/Queues.antt =====
-- The queue of kernel/sys/queue.c at address 100, with nodes at 200 and 300.
use tuix_os.Base.{◌≡◌, inl, inr, List, [], ◌∷◌, arith}
use tuix_os.Memory.{Mem, null}
use tuix_os.Queue.{enqueue, queue_init}
use tuix_os.Queue.Fifo.{IsQueue, IsFresh, queue_init_lem, enqueue_lem}
use tuix_os.Queue.Run.{Op, put, get, run, spec, run-spec}

abbrev empty : Mem
empty = queue_init (λ a. 0) 100

empty-IsQueue : IsQueue empty 100 []
empty-IsQueue = queue_init_lem (λ a. 0) 100 (omega arith)

fresh200 : IsFresh 100 [] 200
fresh200 = record {
  fits = (omega arith, omega arith);
  off_queue = inl (omega arith);
  off_nodes = tt;
}

fresh300 : IsFresh 100 (200 ∷ []) 300
fresh300 = record {
  fits = (omega arith, omega arith);
  off_queue = inl (omega arith);
  off_nodes = (inr (omega arith), tt);
}

abbrev one : Mem
one = enqueue empty 100 200

one-IsQueue : IsQueue one 100 (200 ∷ [])
one-IsQueue = enqueue_lem empty 100 200 [] empty-IsQueue fresh200

abbrev calls : List Op
calls = put 200 ∷ put 300 ∷ get ∷ get ∷ get ∷ []

run_example : run empty 100 calls ≡ 200 ∷ 300 ∷ null ∷ []
unfolding spec
run_example = run-spec empty 100 [] calls empty-IsQueue (fresh200, (fresh300, tt))
