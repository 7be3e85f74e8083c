-- ===== src/Queue/Middle.antt =====
-- An entry in the middle of a sequence of nodes.
use mango_os.Base.{◌≡◌, true, List, [], ◌∷◌, ◌++◌, arith, mem, mem-append, Distinct, erase}
use mango_os.Queue.{Addr}

pub erase_middle :
    (t : Addr) (ys zs : List Addr) → Distinct (ys ++ t ∷ zs) → erase t (ys ++ t ∷ zs) ≡ ys ++ zs
erase_middle t [] zs d = ground arith
erase_middle t (y ∷ ys) zs d =
    ground (arith, erase_middle t ys zs d.1, mem-append y ys (t ∷ zs), d.0)

pub mem_middle : (t : Addr) (ys zs : List Addr) → mem t (ys ++ t ∷ zs) ≡ true
mem_middle t [] zs = ground arith
mem_middle t (y ∷ ys) zs = ground (arith, mem_middle t ys zs)
