-- ===== src/Queue/Remove.antt =====
-- `queue_remove` and `list_remove` against sequences.
use mango_os.Base.{
  ◌≡◌, refl, inl, inr, true, false, List, [], ◌∷◌, arith, ◌==◌, mem, Distinct, erase, if◌then◌else◌,
  mem-erase, erase-Distinct, Bool-cases, mem_ne, ==→eq,
}
use mango_os.Queue.{Addr, Links, remove}
use mango_os.Queue.Ring.{Chain, Ring, Chain-frame, mem-prev, mem-next}

module _ (s : Links) (q : Addr) (p_ne : (s.prev q == q) ≡ false) (a : Addr) where
  pub next-remove :
      (remove s q).next a ≡ (if a == q then q else if a == s.prev q then s.next q else s.next a)
  unfolding remove
  next-remove = ground arith

  pub prev-remove :
      (remove s q).prev a ≡ (if a == q then q else if a == s.next q then s.prev q else s.prev a)
  unfolding remove
  prev-remove = ground arith

pub Chain-prev_self :
    (s : Links) (a : Addr) (xs : List Addr) (b q : Addr)
    → Chain s a xs b
    → Distinct (a ∷ xs)
    → mem q xs ≡ true
    → (s.prev q == q) ≡ false
Chain-prev_self s a [] b q c d h = cc
Chain-prev_self s a (x ∷ xs) b q c d h = ground (arith, d.0, Chain-prev_self s x xs b q c.2 d.1)

module _ (s : Links) (b q : Addr) (q_ne : (q == b) ≡ false) where
  Chain-remove_here :
      (a : Addr) (xs : List Addr)
      → Chain s a (q ∷ xs) b
      → Distinct (a ∷ q ∷ xs)
      → mem b (q ∷ xs) ≡ false
      → (s.prev q == q) ≡ false
      → Chain (remove s q) a xs b
  Chain-remove_here a [] c d e pn =
      (ground (arith, c, d.0, next-remove s q pn a), ground (arith, c, prev-remove s q pn b))
  Chain-remove_here a (y ∷ ys) c d e pn = (
    ground (arith, c.0, c.1, c.2.0, d.0, next-remove s q pn a),
    ground (arith, c.0, c.1, c.2.0, d.1.0, prev-remove s q pn y),
    Chain-frame s (remove s q) y ys b
        (λ z m. ground (
          arith,
          c.1,
          next-remove s q pn z,
          mem_ne z q (y ∷ ys) m,
          mem_ne z a (y ∷ ys) m,
          d.0,
          d.1.0,
        ))
        (λ z m. ground (
          arith,
          c.2.0,
          prev-remove s q pn z,
          mem_ne z q (b ∷ ys) m,
          mem_ne z y (b ∷ ys) m,
          d.1.0,
          d.1.1.0,
        ))
        c.2.2,
  )

Chain-remove :
    (s : Links) (b q a : Addr) (xs : List Addr)
    → Chain s a xs b
    → Distinct (a ∷ xs)
    → mem b xs ≡ false
    → mem q xs ≡ true
    → (s.prev q == q) ≡ false
    → Chain (remove s q) a (erase q xs) b
Chain-remove s b q a [] c d e m pn = cc
Chain-remove s b q a (x ∷ xs) c d e m pn = elim (Bool-cases (q == x)) [
  | inl h ↦
      rw (h, ==→eq q x h)
        (Chain-remove_here s b x (ground arith) a xs c d e
          (Chain-prev_self s a (x ∷ xs) b x c d (ground arith)))
  | inr h ↦ rw h (
    ground (arith, c.0, d.0, next-remove s q pn a, mem-prev s x xs b q c.2),
    ground (
      arith,
      c.1,
      d.1.0,
      prev-remove s q pn x,
      mem-next s x xs b q c.2,
      mem_ne (s.next q) x (b ∷ xs),
    ),
    Chain-remove s b q x xs c.2 d.1 (ground arith) (ground arith) pn,
  )
]

-- `queue_remove` and `list_remove` take the record out and keep the order of the others.
pub remove-Ring :
    (s : Links) (head q : Addr) (xs : List Addr)
    → Ring s head xs
    → mem q xs ≡ true
    → Ring (remove s q) head (erase q xs)
remove-Ring s head q xs r m = record {
  chain =
      Chain-remove s head q head xs r.chain r.distinct r.distinct.0 m
        (Chain-prev_self s head xs head q r.chain r.distinct m);
  distinct = (mem-erase head q xs r.distinct.0, erase-Distinct q xs r.distinct.1);
}

-- The record that was taken out is a list of its own.
pub remove-Ring_self : (s : Links) (q : Addr) → Ring (remove s q) q []
unfolding remove
remove-Ring_self s q = record { chain = ground arith; distinct = (refl, tt) }
