-- ===== src/Queue.antt =====
-- source/lib/queue.c, source/include/queue.h, source/lib/list.c and source/include/list.h:
-- circular doubly linked lists whose links are embedded in the records that they join. A node is
-- known by its address; a list is known by the address of its head, which holds no record.
pub mod Ring
pub mod Middle
pub mod Insert
pub mod Remove
pub mod Frame
use mango_os.Base.{ℕ, Bool, ◌==◌, update}

abbrev pub Addr : Type 0
Addr = ℕ

-- `struct _queue_t`, `struct _list_t`: the two fields of every node in memory.
pub record Links : Type 0 where
  pub prev : Addr → Addr
  pub next : Addr → Addr

abbrev pub set_next : Links → Addr → Addr → Links
set_next s a b = record s { next = update s.next a b }

abbrev pub set_prev : Links → Addr → Addr → Links
set_prev s a b = record s { prev = update s.prev a b }

-- `queue_init`: the node becomes a list of its own.
unfoldable pub init : Links → Addr → Links
init s q = set_next (set_prev s q q) q q

unfoldable pub empty : Links → Addr → Bool
empty s head = head == s.prev head

unfoldable pub first : Links → Addr → Addr
first s head = s.next head

unfoldable pub last : Links → Addr → Addr
last s head = s.prev head

unfoldable pub insert_head : Links → Addr → Addr → Links
insert_head s head q =
    let s1 = set_next s q (s.next head) in
    let s2 = set_prev s1 q head in let s3 = set_prev s2 (s2.next head) q in set_next s3 head q

unfoldable pub insert_tail : Links → Addr → Addr → Links
insert_tail s head q =
    let s1 = set_next s q head in
    let s2 = set_prev s1 q (s1.prev head) in
    let s3 = set_next s2 (s2.prev head) q in set_prev s3 head q

-- `list_insert` of list.c. The last statement reads `p->next` after it was overwritten.
unfoldable pub insert : Links → Addr → Addr → Links
insert s p q =
    let s1 = set_next s q (s.next p) in
    let s2 = set_prev s1 q p in let s3 = set_next s2 p q in set_prev s3 (s3.next p) q

unfoldable pub remove : Links → Addr → Links
remove s q =
    let s1 = set_next s (s.prev q) (s.next q) in
    let s2 = set_prev s1 (s1.next q) (s1.prev q) in let s3 = set_next s2 q q in set_prev s3 q q
