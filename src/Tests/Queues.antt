-- ===== src/Tests/Queues.antt =====
-- A small memory: the ready list at 100 with tasks 1 and 2.
use mango_os.Base.{refl, [], ◌∷◌}
use mango_os.Queue.{Links, init, insert_tail, remove}
use mango_os.Queue.Ring.{Ring}
use mango_os.Queue.Remove.{remove-Ring}

abbrev pub blank : Links
blank = record { prev = λ a. a; next = λ a. a }

abbrev pub one : Links
unfolding init insert_tail
one = insert_tail (init blank 100) 100 1

pub one-Ring : Ring one 100 (1 ∷ [])
unfolding init insert_tail
one-Ring = record { chain = (refl, refl, (refl, refl)); distinct = (refl, (refl, tt)) }

abbrev pub two : Links
unfolding insert_tail
two = insert_tail one 100 2

remove-Ring_example : Ring (remove one 1) 100 []
remove-Ring_example = remove-Ring one 100 1 (1 ∷ []) one-Ring refl
