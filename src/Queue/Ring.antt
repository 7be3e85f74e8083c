-- ===== src/Queue/Ring.antt =====
-- The representation predicate of a circular list: from the head the `next` links go through the
-- records in order and back to the head, and the `prev` links go the other way.
use mango_os.Base.{◌≡◌, refl, true, false, List, [], ◌∷◌, arith, mem, Distinct}
use mathlib.Core.Path.{ap₂, subst, sym}
use mango_os.Queue.{Addr, Links, empty, first, init}

abbrev pub Chain : Links → Addr → List Addr → Addr → Type 0
Chain s a [] b = (s.next a ≡ b) × (s.prev b ≡ a)
Chain s a (x ∷ xs) b = (s.next a ≡ x) × (s.prev x ≡ a) × Chain s x xs b

-- The list with head `head` holds the records `xs`, in this order, all distinct.
pub record Ring (s : Links) (head : Addr) (xs : List Addr) : Type 0 where
  pub chain : Chain s head xs head
  pub distinct : Distinct (head ∷ xs)

-- The two lists have no node in common, their heads included.
abbrev pub Apart : List Addr → List Addr → Type 0
Apart xs ys = (a : Addr) → mem a xs ≡ true → mem a ys ≡ false

pub Chain-frame :
    (s t : Links) (a : Addr) (xs : List Addr) (b : Addr)
    → ((x : Addr) → mem x (a ∷ xs) ≡ true → t.next x ≡ s.next x)
    → ((x : Addr) → mem x (b ∷ xs) ≡ true → t.prev x ≡ s.prev x)
    → Chain s a xs b
    → Chain t a xs b
Chain-frame s t a [] b n p c = ground (arith, n a, p b)
Chain-frame s t a (x ∷ xs) b n p c = (
  ground (arith, n a),
  ground (arith, p x),
  Chain-frame s t x xs b (λ y h. n y (ground arith)) (λ y h. p y (ground arith)) c.2,
)

-- A change that leaves the nodes of a ring alone leaves the ring alone.
pub Ring-frame :
    (s t : Links) (head : Addr) (xs : List Addr)
    → ((x : Addr) → mem x (head ∷ xs) ≡ true → t.next x ≡ s.next x)
    → ((x : Addr) → mem x (head ∷ xs) ≡ true → t.prev x ≡ s.prev x)
    → Ring s head xs
    → Ring t head xs
Ring-frame s t head xs n p r = record {
  chain = Chain-frame s t head xs head n p r.chain;
  distinct = r.distinct;
}

-- The predecessor of the end is the last node, and it is a node of the chain.
pub mem-prev_end :
    (s : Links) (a : Addr) (xs : List Addr) (b : Addr)
    → Chain s a xs b
    → mem (s.prev b) (a ∷ xs) ≡ true
mem-prev_end s a [] b c = ground arith
mem-prev_end s a (x ∷ xs) b c = ground (arith, mem-prev_end s x xs b c.2)

pub mem-prev :
    (s : Links) (a : Addr) (xs : List Addr) (b q : Addr)
    → Chain s a xs b
    → mem q xs ≡ true
    → mem (s.prev q) (a ∷ xs) ≡ true
mem-prev s a [] b q c h = cc
mem-prev s a (x ∷ xs) b q c h = ground (arith, mem-prev s x xs b q c.2)

pub mem-next :
    (s : Links) (a : Addr) (xs : List Addr) (b q : Addr)
    → Chain s a xs b
    → mem q (a ∷ xs) ≡ true
    → mem (s.next q) (b ∷ xs) ≡ true
mem-next s a [] b q c h = ground arith
mem-next s a (x ∷ xs) b q c h = ground (arith, mem-next s x xs b q c.2)

abbrev pub head_of : List Addr → Addr → Addr
head_of [] b = b
head_of (x ∷ xs) b = x

-- `queue_first` is the first record, or the head of an empty list.
pub first-Ring :
    (s : Links) (head : Addr) (xs : List Addr) → Ring s head xs → first s head ≡ head_of xs head
unfolding first
first-Ring s head [] r = r.chain.0
first-Ring s head (x ∷ xs) r = r.chain.0

-- `queue_empty` holds exactly of the list with no record.
pub empty-Ring :
    (s : Links) (head : Addr) (xs : List Addr)
    → Ring s head xs
    → empty s head ≡ elim xs [ [] ↦ true | _ ∷ _ ↦ false ]
unfolding empty
empty-Ring s head [] r = ground (arith, r.chain)
empty-Ring s head (x ∷ xs) r = ground (arith, mem-prev_end s x xs head r.chain.2, r.distinct.0)

-- `queue_init` makes an empty list.
pub init-Ring : (s : Links) (head : Addr) → Ring (init s head) head []
unfolding init
init-Ring s head = record { chain = ground arith; distinct = (refl, tt) }

Chain-unique :
    (s : Links) (a : Addr) (xs ys : List Addr) (b : Addr)
    → mem b xs ≡ false
    → mem b ys ≡ false
    → Chain s a xs b
    → Chain s a ys b
    → xs ≡ ys
Chain-unique s a [] [] b h k c d = refl
Chain-unique s a [] (y ∷ ys) b h k c d = ground arith
Chain-unique s a (x ∷ xs) [] b h k c d = ground arith
Chain-unique s a (x ∷ xs) (y ∷ ys) b h k c d =
    let e : x ≡ y = ground arith in
    ap₂ ◌∷◌ e (
      Chain-unique s x xs ys b (ground arith) (ground arith) c.2
        (subst (λ z. Chain s z ys b) (sym e) d.2))

-- The links determine the sequence.
pub Ring-unique :
    (s : Links) (head : Addr) (xs ys : List Addr) → Ring s head xs → Ring s head ys → xs ≡ ys
Ring-unique s head xs ys r t =
    Chain-unique s head xs ys head r.distinct.0 t.distinct.0 r.chain t.chain
