-- ===== src/Ipc/Guarded.antt =====
-- Data behind a mutex: the calls `mutex_lock`, a critical section and `mutex_unlock`, in this order.
-- A caller that has to wait goes on with the section when it owns the mutex.
use mango_os.Base.{◌⊎◌, inl, inr, refl, Bool-cases, ◌≡◌, Bool, ◌||◌, [], arith, ◌==◌, if◌then◌else◌}
use mango_os.Queue.Ring.{Ring}
use mango_os.Kernel.{Kernel}
use mango_os.Ipc.{Mutex, mutex_lock, mutex_unlock}
use mango_os.Ipc.Mutexes.Unlock.{unlock-lock}

pub record Guarded (S : Type 0) : Type 0 where
  pub kernel : Kernel
  pub mutex : Mutex
  pub inner : S

pub data Outcome (A S : Type 0) : Type 0 where
  done : A → Guarded S → Outcome A S
  blocked : Guarded S → Outcome A S

-- `mutex_lock` returns to the caller at once.
abbrev pub enters : Kernel → Mutex → Bool
enters k m = (m.lock_times == 0) || (m.owner == k.current)

-- The mutex is free and nobody waits for it.
abbrev pub IsFree : {S : Type 0} → Guarded S → Type 0
IsFree g =
    (g.mutex.lock_times ≡ 0) × (g.mutex.owner ≡ 0) × Ring g.kernel.links g.mutex.mutex_queue []

module _ {A S : Type 0} where
  unfoldable pub section : (S → A × S) → Kernel × Mutex → S → Outcome A S
  section f (k, m) s =
      let (a, s') = f s in
      let (k', m') = mutex_unlock k m in done a (record { kernel = k'; mutex = m'; inner = s' })

  unfoldable pub with_lock : (S → A × S) → Guarded S → Outcome A S
  unfolding section
  with_lock f g =
      let locked = mutex_lock g.kernel g.mutex in
      if enters g.kernel g.mutex
      then section f locked g.inner
      else blocked (record { kernel = locked.0; mutex = locked.1; inner = g.inner })

  -- With the mutex free the section runs at once, and nothing but its data changes.
  pub with_lock-IsFree :
      (f : S → A × S) (g : Guarded S)
      → IsFree g
      → with_lock f g ≡ done (f g.inner).0 (record g { inner = (f g.inner).1 })
  unfolding with_lock section mutex_lock
  with_lock-IsFree f g free = ground (arith, unlock-lock g.kernel g.mutex free.2 free.0 free.1)

  -- However the lock stands, the section runs to its end, or nothing of it does.
  pub with_lock_cases :
      (f : S → A × S) (g : Guarded S)
      → ((g' : Guarded S) × (with_lock f g ≡ done (f g.inner).0 g') × (g'.inner ≡ (f g.inner).1))
        ⊎ ((g' : Guarded S) × (with_lock f g ≡ blocked g') × (g'.inner ≡ g.inner))
  unfolding with_lock section
  with_lock_cases f g =
      let (k, m) = mutex_lock g.kernel g.mutex in
      let (k', m') = mutex_unlock k m in
      elim (Bool-cases (enters g.kernel g.mutex)) [
        | inl e ↦ inl (record { kernel = k'; mutex = m'; inner = (f g.inner).1 }, rw e, refl)
        | inr e ↦ inr (record { kernel = k; mutex = m; inner = g.inner }, rw e, refl)
      ]
