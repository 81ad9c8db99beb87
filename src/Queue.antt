-- ===== src/Queue.antt =====
-- The intrusive queue of kernel/sys/queue.c and include/Tuix/queue.h, over the flat memory. A
-- `struct list_head` has `next` at offset 0 and `prev` at offset 4; a `struct queue` has `head`
-- at offset 0 and `tail` at offset 4. The diagnostic line that a refused call prints is left out.
pub mod Chain
pub mod Fifo
pub mod Run
use tuix_os.Base.{ℕ, ◌+◌, Bool, true, false, ◌&&◌, ◌||◌, ◌==◌, if◌then◌else◌}
use tuix_os.Memory.{Mem, null, load32, store32}

-- `node->next`
abbrev pub next : Mem → ℕ → ℕ
next m node = load32 m node

-- `q->head`
abbrev pub head : Mem → ℕ → ℕ
head m q = load32 m q

-- `q->tail`
abbrev pub tail : Mem → ℕ → ℕ
tail m q = load32 m (q + 4)

-- `if (q->tail == NULL) q->head = node; else q->tail->next = node;`
link : Mem → (q node : ℕ) → Mem
link m q node = if tail m q == null then store32 m q node else store32 m (tail m q) node

unfoldable pub enqueue : Mem → (q node : ℕ) → Mem
unfolding link
enqueue m q node =
    if (q == null) || (node == null)
    then m
    else store32 (link (store32 m node null) q node) (q + 4) node

-- `q->head = q->head->next; head->next = NULL;` and the reset of `tail` behind the last node
unlink : Mem → (q first : ℕ) → Mem
unlink m q first =
    let m' = store32 (store32 m q (next m first)) first null in
    if head m' q == null then store32 m' (q + 4) null else m'

unfoldable pub dequeue : Mem → (q : ℕ) → ℕ × Mem
unfolding unlink
dequeue m q =
    if (q == null) || (head m q == null) then (null, m) else (head m q, unlink m q (head m q))

unfoldable pub queue_empty : Mem → ℕ → Bool
queue_empty m q = (q == null) || (head m q == null)

unfoldable pub queue_peek : Mem → ℕ → ℕ
unfolding queue_empty
queue_peek m q = if queue_empty m q then null else head m q

unfoldable pub queue_init : Mem → ℕ → Mem
queue_init m q = if q == null then m else store32 (store32 m q null) (q + 4) null

unfoldable pub check_queue_init : Mem → ℕ → Bool
check_queue_init m q =
    if q == null then false else if (head m q == null) && (tail m q == null) then true else false
