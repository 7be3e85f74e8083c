-- ===== src/Queue/Insert.antt =====
-- The insertions of queue.c and list.c against sequences.
use mango_os.Base.{
  ◌≡◌, refl, ◌≢◌, true, false, List, [], ◌∷◌, ◌++◌, arith, ◌==◌, mem, Distinct, if◌then◌else◌,
  snoc-Distinct, mem-append, mem_ne,
}
use mango_os.Queue.{Addr, Links, insert_head, insert_tail, insert}
use mango_os.Queue.Ring.{Chain, Ring, Chain-frame, mem-prev_end}

-- The fields after an insertion, in terms of the fields before.
module _ (s : Links) (head q : Addr) (fresh : (q == head) ≡ false) (a : Addr) where
  pub next-insert_tail :
      (insert_tail s head q).next a
      ≡ (if a == s.prev head then q else if a == q then head else s.next a)
  unfolding insert_tail
  next-insert_tail = ground arith

  pub prev-insert_tail :
      (insert_tail s head q).prev a
      ≡ (if a == head then q else if a == q then s.prev head else s.prev a)
  unfolding insert_tail
  prev-insert_tail = ground arith

  pub next-insert_head :
      (insert_head s head q).next a
      ≡ (if a == head then q else if a == q then s.next head else s.next a)
  unfolding insert_head
  next-insert_head = ground arith

  pub prev-insert_head :
      (insert_head s head q).prev a
      ≡ (if a == s.next head then q else if a == q then head else s.prev a)
  unfolding insert_head
  prev-insert_head = ground arith

module _ (s : Links) (b q : Addr) (fresh : (q == b) ≡ false) where
  Chain-insert_tail :
      (a : Addr) (xs : List Addr)
      → Chain s a xs b
      → Distinct (a ∷ xs)
      → mem q (a ∷ xs) ≡ false
      → mem b xs ≡ false
      → Chain (insert_tail s b q) a (xs ++ q ∷ []) b
  Chain-insert_tail a [] c d h e = (
    ground (arith, next-insert_tail s b q fresh a),
    ground (arith, prev-insert_tail s b q fresh q),
    (
      ground (arith, next-insert_tail s b q fresh q),
      ground (arith, prev-insert_tail s b q fresh b),
    ),
  )
  Chain-insert_tail a (x ∷ xs) c d h e = (
    ground (arith, next-insert_tail s b q fresh a, mem-prev_end s x xs b c.2, d.0),
    ground (arith, prev-insert_tail s b q fresh x),
    Chain-insert_tail x xs c.2 d.1 (ground arith) (ground arith),
  )

-- `queue_insert_tail` and `list_insert_tail` append a record that is not in the list.
pub insert_tail-Ring :
    (s : Links) (head q : Addr) (xs : List Addr)
    → Ring s head xs
    → mem q (head ∷ xs) ≡ false
    → Ring (insert_tail s head q) head (xs ++ q ∷ [])
insert_tail-Ring s head q xs r h = record {
  chain = Chain-insert_tail s head q (ground arith) head xs r.chain r.distinct h r.distinct.0;
  distinct = (
    ground (arith, mem-append head xs (q ∷ []), r.distinct.0),
    snoc-Distinct q xs r.distinct.1 (ground arith),
  );
}

-- `queue_insert_head` and `list_insert_head` put a record that is not in the list in front.
pub insert_head-Ring :
    (s : Links) (head q : Addr) (xs : List Addr)
    → Ring s head xs
    → mem q (head ∷ xs) ≡ false
    → Ring (insert_head s head q) head (q ∷ xs)
insert_head-Ring s head q [] r h = record {
  chain = (
    ground (arith, next-insert_head s head q (ground arith) head),
    ground (arith, r.chain, prev-insert_head s head q (ground arith) q),
    (
      ground (arith, r.chain, next-insert_head s head q (ground arith) q),
      ground (arith, r.chain, prev-insert_head s head q (ground arith) head),
    ),
  );
  distinct = (ground arith, (refl, tt));
}
insert_head-Ring s head q (x ∷ xs) r h = record {
  chain = (
    ground (arith, next-insert_head s head q (ground arith) head),
    ground (arith, r.chain.0, r.distinct.0, prev-insert_head s head q (ground arith) q),
    (
      ground (arith, r.chain.0, next-insert_head s head q (ground arith) q),
      ground (arith, r.chain.0, prev-insert_head s head q (ground arith) x),
      Chain-frame s (insert_head s head q) x xs head
          (λ y m. ground (
            arith,
            r.distinct.0,
            next-insert_head s head q (ground arith) y,
            mem_ne y head (x ∷ xs),
            mem_ne y q (x ∷ xs),
          ))
          (λ y m. ground (
            arith,
            r.chain.0,
            r.distinct,
            prev-insert_head s head q (ground arith) y,
            mem_ne y x xs,
            mem_ne y q xs,
          ))
          r.chain.2,
    ),
  );
  distinct = (ground (arith, r.distinct.0), (ground arith, r.distinct.1));
}

-- A node of a ring is never its own predecessor.
Chain-prev_ne :
    (s : Links) (a : Addr) (xs : List Addr) (b q : Addr)
    → Chain s a xs b
    → Distinct (a ∷ xs)
    → mem q xs ≡ true
    → s.prev q ≢ q
Chain-prev_ne s a [] b q c d h e = cc
Chain-prev_ne s a (x ∷ xs) b q c d h e = ground (arith, d.0, Chain-prev_ne s x xs b q c.2 d.1)

-- `list_insert` leaves the new record its own predecessor, so that no list that should hold the
-- record is well linked afterwards.
pub insert-not_Ring :
    (s : Links) (head p q : Addr) (ys : List Addr)
    → (p == q) ≡ false
    → mem q ys ≡ true
    → ¬ Ring (insert s p q) head ys
unfolding insert
insert-not_Ring s head p q ys ne m r =
    Chain-prev_ne (insert s p q) head ys head q r.chain r.distinct m (ground arith)
