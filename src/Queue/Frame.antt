-- ===== src/Queue/Frame.antt =====
-- An operation on one list leaves every list alone that shares no node with it.
use mango_os.Base.{◌≡◌, true, false, List, ◌∷◌, arith, ◌==◌, mem, mem_ne}
use mango_os.Queue.{Addr, Links, insert_tail, remove}
use mango_os.Queue.Ring.{Ring, Ring-frame, Apart, mem-prev_end, mem-prev, mem-next}
use mango_os.Queue.Insert.{next-insert_tail, prev-insert_tail}
use mango_os.Queue.Remove.{next-remove, prev-remove, Chain-prev_self}

module _ (s : Links) (head other q : Addr) (xs ys : List Addr) (r : Ring s head xs)
    (apart : Apart (head ∷ xs) (other ∷ ys)) where
  pub insert_tail-Ring_other :
      (q == head) ≡ false
      → mem q (other ∷ ys) ≡ false
      → Ring s other ys
      → Ring (insert_tail s head q) other ys
  insert_tail-Ring_other fresh out =
      Ring-frame s (insert_tail s head q) other ys
        (λ x m. ground (
          arith,
          next-insert_tail s head q fresh x,
          mem_ne x (s.prev head) (other ∷ ys) m
              (apart (s.prev head) (mem-prev_end s head xs head r.chain)),
          mem_ne x q (other ∷ ys) m out,
        ))
        (λ x m. ground (
          arith,
          prev-insert_tail s head q fresh x,
          mem_ne x head (other ∷ ys) m (apart head (ground arith)),
          mem_ne x q (other ∷ ys) m out,
        ))

  pub remove-Ring_other : mem q xs ≡ true → Ring s other ys → Ring (remove s q) other ys
  remove-Ring_other m =
      let pn : (s.prev q == q) ≡ false = Chain-prev_self s head xs head q r.chain r.distinct m in
      Ring-frame s (remove s q) other ys
        (λ x i. ground (
          arith,
          next-remove s q pn x,
          mem_ne x (s.prev q) (other ∷ ys) i
              (apart (s.prev q) (mem-prev s head xs head q r.chain m)),
          mem_ne x q (other ∷ ys) i (apart q (ground arith)),
        ))
        (λ x i. ground (
          arith,
          prev-remove s q pn x,
          mem_ne x (s.next q) (other ∷ ys) i
              (apart (s.next q) (mem-next s head xs head q r.chain (ground arith))),
          mem_ne x q (other ∷ ys) i (apart q (ground arith)),
        ))
