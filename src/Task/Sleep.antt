-- ===== src/Task/Sleep.antt =====
-- The sleeping tasks: the lists after one tick, and the moves to and from the list of sleepers.
use mathlib.Core.Path.{subst}
use mathlib.Core.List.{append-nil, append_assoc}
use mango_os.Base.{
  ℕ, zero, suc, ◌<◌, ◌≡◌, ◌≢◌, refl, sym, inl, inr, true, false, List, [], ◌∷◌, ◌++◌, ◌==◌,
  if◌then◌else◌, length, mem, erase, mem_ne, mem-append, mem-erase_self, Distinct, arith,
  Bool-cases, dec32, update,
}
use mango_os.Queue.{Addr, first}
use mango_os.Queue.Middle.{erase_middle, mem_middle}
use mango_os.Queue.Ring.{Apart, head_of, first-Ring}
use mango_os.Sched.RoundRobin.{Chain-next}
use mango_os.Kernel.{Kernel, sleeping}
use mango_os.Ipc.Blocking.{Queues, move-Ring, move-Apart, Apart-sym}
use mango_os.Task.{task_sleep, task_wakeup, count_down, wake_loop}

-- The ready list holds `rs` and the list of sleepers holds `ss`.
abbrev pub Lists : Kernel → List Addr → List Addr → Type 0
Lists k rs ss = Queues k.links k.ready rs k.sleep ss

-- A task that goes to sleep leaves the ready list for the end of the list of sleepers.
pub task_sleep-Lists :
    (k : Kernel) (t ticks : ℕ) (rs ss : List Addr)
    → Lists k rs ss
    → mem t rs ≡ true
    → ticks ≢ 0
    → Lists (task_sleep k t ticks) (erase t rs) (ss ++ t ∷ [])
      × ((task_sleep k t ticks).state t ≡ sleeping)
      × ((task_sleep k t ticks).sleep_ticks t ≡ ticks)
unfolding task_sleep
task_sleep-Lists k t ticks rs ss w m ne =
    let e : (ticks == 0) ≡ false = ground arith in
    let moved = move-Ring k.links k.ready k.sleep t rs ss w.ready_ring w.wait_ring w.apart m in
    rw e (
      record {
        ready_ring = moved.0;
        wait_ring = moved.1;
        apart =
            move-Apart k.ready k.sleep t rs ss w.apart
              (mem_ne t k.ready rs m w.ready_ring.distinct.0)
              (mem-erase_self t rs w.ready_ring.distinct.1);
      },
      ground arith,
      ground arith,
    )

-- A task that wakes up leaves the list of sleepers for the end of the ready list.
pub task_wakeup-Lists :
    (k : Kernel) (t : Addr) (rs ss : List Addr)
    → Lists k rs ss
    → mem t ss ≡ true
    → Lists (task_wakeup k t) (rs ++ t ∷ []) (erase t ss)
unfolding task_wakeup
task_wakeup-Lists k t rs ss w m =
    let back : Apart (k.sleep ∷ ss) (k.ready ∷ rs) =
      Apart-sym (k.ready ∷ rs) (k.sleep ∷ ss) w.apart in
    let moved = move-Ring k.links k.sleep k.ready t ss rs w.wait_ring w.ready_ring back m in
    record {
      ready_ring = moved.1;
      wait_ring = moved.0;
      apart = Apart-sym (k.sleep ∷ erase t ss) (k.ready ∷ (rs ++ t ∷ [])) (
          move-Apart k.sleep k.ready t ss rs back (mem_ne t k.sleep ss m w.wait_ring.distinct.0)
            (mem-erase_self t ss w.wait_ring.distinct.1));
    }

-- The sleepers whose last tick this is, and the others, in order.
unfoldable pub due : (Addr → ℕ) → List Addr → List Addr
due ticks [] = []
due ticks (t ∷ ts) = if dec32 (ticks t) == 0 then t ∷ due ticks ts else due ticks ts

unfoldable pub kept : (Addr → ℕ) → List Addr → List Addr
kept ticks [] = []
kept ticks (t ∷ ts) = if dec32 (ticks t) == 0 then kept ticks ts else t ∷ kept ticks ts

-- One round: the task at `t` moves to the ready list if this was its last tick, and stays otherwise.
count_down-wakes :
    (k : Kernel) (rs ys : List Addr) (t : Addr) (zs : List Addr)
    → Lists k rs (ys ++ t ∷ zs)
    → (dec32 (k.sleep_ticks t) == 0) ≡ true
    → Lists (count_down k t) (rs ++ t ∷ []) (ys ++ zs)
unfolding count_down
count_down-wakes k rs ys t zs w e =
    let k1 = record k { sleep_ticks = update k.sleep_ticks t (dec32 (k.sleep_ticks t)) } in
    rw e (
      subst (Lists (task_wakeup k1 t) (rs ++ t ∷ [])) (erase_middle t ys zs w.wait_ring.distinct.1)
        (task_wakeup-Lists k1 t rs (ys ++ t ∷ zs) w (mem_middle t ys zs)))

count_down-keeps :
    (k : Kernel) (rs ss : List Addr) (t : Addr)
    → Lists k rs ss
    → (dec32 (k.sleep_ticks t) == 0) ≡ false
    → Lists (count_down k t) rs ss
unfolding count_down
count_down-keeps k rs ss t w e = rw e w

count_down-sleep : (k : Kernel) (t : Addr) → (count_down k t).sleep ≡ k.sleep
unfolding count_down task_wakeup
count_down-sleep k t = ground arith

count_down-ticks :
    (k : Kernel) (t u : Addr)
    → (count_down k t).sleep_ticks u ≡ (if u == t then dec32 (k.sleep_ticks t) else k.sleep_ticks u)
unfolding count_down task_wakeup
count_down-ticks k t u = ground arith

Distinct-append : (ys zs : List Addr) → Distinct (ys ++ zs) → Distinct zs
Distinct-append [] zs d = d
Distinct-append (y ∷ ys) zs d = Distinct-append ys zs d.1

mem-later : (a : Addr) (ys zs : List Addr) → mem a (ys ++ zs) ≡ false → mem a zs ≡ false
mem-later a ys zs h = ground (arith, mem-append a ys zs)

-- The whole loop over the sleepers `zs` that are left, those of `ys` having been kept.
wake_loop-Lists :
    (ticks : Addr → ℕ) (n : ℕ) (k : Kernel) (rs ys zs : List Addr)
    → Lists k rs (ys ++ zs)
    → length zs < n
    → ((u : Addr) → mem u zs ≡ true → k.sleep_ticks u ≡ ticks u)
    → Lists (wake_loop n k (head_of zs k.sleep)) (rs ++ due ticks zs) (ys ++ kept ticks zs)
unfolding wake_loop due kept
wake_loop-Lists ticks zero k rs ys zs w f h = absurd (omega arith)
wake_loop-Lists ticks (suc n) k rs ys [] w f h =
    let e : (k.sleep == k.sleep) ≡ true = ground arith in rw (e, append-nil) w
wake_loop-Lists ticks (suc n) k rs ys (z ∷ zs) w f h =
    let ne : (z == k.sleep) ≡ false =
      ground (arith, mem-later k.sleep ys (z ∷ zs) w.wait_ring.distinct.0) in
    let next : k.links.next z ≡ head_of zs (count_down k z).sleep =
      rw count_down-sleep (Chain-next k.links k.sleep ys z zs k.sleep w.wait_ring.chain) in
    let apart : Distinct (z ∷ zs) = Distinct-append ys (z ∷ zs) w.wait_ring.distinct.1 in
    let later : (u : Addr) → mem u zs ≡ true → (count_down k z).sleep_ticks u ≡ ticks u =
      λ u i. ground (arith, count_down-ticks k z u, h u, mem_ne u z zs i apart.0) in
    rw (ne, next)
      (elim (Bool-cases (dec32 (ticks z) == 0)) [
        | inl e ↦ rw e (
            subst
              (λ xs.
                Lists (wake_loop n (count_down k z) (head_of zs (count_down k z).sleep)) xs
                  (ys ++ kept ticks zs))
              (append_assoc rs (z ∷ []) (due ticks zs))
              (wake_loop-Lists ticks n (count_down k z) (rs ++ z ∷ []) ys zs
                (count_down-wakes k rs ys z zs w (rw (h z (ground arith)) e)) (omega arith) later))
        | inr e ↦ rw e (
            subst
              (λ xs.
                Lists (wake_loop n (count_down k z) (head_of zs (count_down k z).sleep))
                  (rs ++ due ticks zs) xs)
              (append_assoc ys (z ∷ []) (kept ticks zs))
              (wake_loop-Lists ticks n (count_down k z) rs (ys ++ z ∷ []) zs
                (subst (Lists (count_down k z) rs) (sym (append_assoc ys (z ∷ []) zs))
                  (count_down-keeps k rs (ys ++ z ∷ zs) z w (rw (h z (ground arith)) e)))
                (omega arith) later))
      ])

-- With fuel for every sleeper, the loop of `task_tick` moves exactly the sleepers whose last tick
-- this is to the end of the ready list, in order, and keeps the others asleep.
pub wake_loop-due :
    (n : ℕ) (k : Kernel) (rs ss : List Addr)
    → Lists k rs ss
    → length ss < n
    → Lists
        (wake_loop n k (first k.links k.sleep))
        (rs ++ due k.sleep_ticks ss)
        (kept k.sleep_ticks ss)
wake_loop-due n k rs ss w f =
    rw (first-Ring k.links k.sleep ss w.wait_ring)
      (wake_loop-Lists k.sleep_ticks n k rs [] ss w f (λ u i. refl))
