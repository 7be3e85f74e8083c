-- ===== src/Disk/Errors.antt =====
-- Whether a transfer gives the disk's mutex back.
use mathlib.Core.Path.{subst}
use mango_os.Base.{
  ℕ, zero, suc, ◌+◌, ◌%◌, ◌^◌, ◌<◌, ◌≡◌, ◌∙◌, refl, sym, ap, true, false, [], ◌==◌, ltb,
  if◌then◌else◌, add32, arith, Bool-cases, Option-cases, inl, inr,
}
use mango_os.Queue.Ring.{Ring}
use mango_os.Ipc.Mutexes.Unlock.{unlock-lock}
use mango_os.Ipc.Guarded.{enters}
use mango_os.Strings.{Memory}
use mango_os.Ipc.{Mutex, sem_wait, mutex_lock, mutex_unlock}
use mango_os.Disk.{
  IdePorts, Disk, Transfer, done, waits, stuck, no_disk, await, wait_data, read_data, read_loop,
  finish, start, rounds, disk_read, send_cmd,
}

-- After an error the mutex is as the transfer took it, and so it is while the caller waits for the
-- controller's interrupt; after success it is as it was before.
abbrev pub GivesBack : {D : Type 0} → Mutex → Mutex → Transfer D → Type 0
GivesBack taken before (done i m s) = s.mutex ≡ (if ltb i (2 ^ 31) then before else taken)
GivesBack taken before (waits s) = s.mutex ≡ taken
GivesBack taken before stuck = Unit {0}

same-GivesBack :
    {D : Type 0} (taken before : Mutex) (r r' : Transfer D)
    → r ≡ r'
    → GivesBack taken before r'
    → GivesBack taken before r
same-GivesBack taken before r r' e g = subst (GivesBack taken before) (sym e) g

module _ {D : Type 0} (io : IdePorts D) where
  await-mutex : (s : Disk D) → (await io s).1.mutex ≡ s.mutex
  unfolding await sem_wait
  await-mutex s = ground arith

  await-kernel : (s : Disk D) → (await io s).0 ≡ true → (await io s).1.kernel ≡ s.kernel
  unfolding await sem_wait
  await-kernel s e = ground arith

  -- The loop with the mutex taken, if unlocking it brings back what it was.
  read_loop-GivesBack :
      (taken before : Mutex) (fuel n buf i : ℕ) (m : Memory) (s : Disk D)
      → i + n < 2 ^ 31
      → s.mutex ≡ taken
      → (mutex_unlock s.kernel s.mutex).1 ≡ before
      → GivesBack taken before (read_loop io fuel n buf i m s)
  unfolding read_loop finish
  read_loop-GivesBack taken before fuel zero buf i m s small u e =
      let fine : ltb i (2 ^ 31) ≡ true = ground arith in rw fine e
  read_loop-GivesBack taken before fuel (suc n) buf i m s small u e =
      let s1 = (await io s).1 in
      let u1 : s1.mutex ≡ taken = await-mutex s ∙ u in
      elim (Bool-cases (await io s).0) [
        | inr f ↦ same-GivesBack taken before _ (waits s1) (ground (arith, f)) u1
        | inl f ↦
            let e1 : (mutex_unlock s1.kernel s1.mutex).1 ≡ before =
              ap (λ k. (mutex_unlock k s1.mutex).1) (await-kernel s f)
              ∙ ap (λ u. (mutex_unlock s.kernel u).1) (await-mutex s)
              ∙ e in
            elim (Option-cases (wait_data io fuel s1.device)) [
              | inl g ↦ same-GivesBack taken before _ stuck (ground (arith, f, g)) tt
              | inr ((true, d), g) ↦
                  same-GivesBack taken before _ (done no_disk m (record s1 { device = d }))
                    (ground (arith, f, g)) u1
              | inr ((false, d), g) ↦
                  let r = read_data io 256 buf m d in
                  let s2 = record s1 { device = r.1 } in
                  same-GivesBack taken before _ (read_loop io fuel n (buf + 512) (i + 1) r.0 s2)
                    (ground (arith, f, g))
                    (read_loop-GivesBack taken before fuel n (buf + 512) (i + 1) r.0 s2
                      (omega arith) u1 e1)
            ]
      ]

  lock_taken :
      (s : Disk D)
      → s.mutex.lock_times ≡ 0
      → mutex_lock s.kernel s.mutex
        ≡ (s.kernel, record (s.mutex) { lock_times = 1; owner = s.kernel.current })
  unfolding mutex_lock
  lock_taken s free = ground (arith, free)

  -- With the mutex free, a read of fewer than 2 ^ 31 sectors that succeeds leaves it free. One that ends
  -- in an error, since the partition is empty or the controller reports one, leaves it locked by the
  -- caller; and while the read waits for the controller's interrupt the caller holds it.
  pub disk_read-GivesBack :
      (fuel minor begin_sec buf count : ℕ) (m : Memory) (s : Disk D)
      → Ring s.kernel.links s.mutex.mutex_queue []
      → s.mutex.lock_times ≡ 0
      → s.mutex.owner ≡ 0
      → GivesBack
          (record (s.mutex) { lock_times = 1; owner = s.kernel.current })
          s.mutex
          (disk_read io fuel minor begin_sec buf count m s)
  unfolding disk_read start
  disk_read-GivesBack fuel minor begin_sec buf count m s ring free nobody =
      let taken = record (s.mutex) { lock_times = 1; owner = s.kernel.current } in
      let part = s.part_info (minor % 16) in
      let locked : mutex_lock s.kernel s.mutex ≡ (s.kernel, taken) = lock_taken s free in
      let enter : enters s.kernel s.mutex ≡ true = ground (arith, free) in
      let back : (mutex_unlock s.kernel taken).1 ≡ s.mutex =
        ap (λ r. (mutex_unlock r.0 r.1).1) (sym locked)
        ∙ ap (λ r. r.1) (unlock-lock s.kernel s.mutex ring free nobody) in
      let s' = record s { mutex = taken } in
      let ready = record s' {
        wait_interupt = 1;
        device = send_cmd io (add32 part.begin_sec begin_sec) count 36 s.device;
      } in
      elim (Bool-cases (part.count == 0)) [
        | inl e ↦ rw (enter, locked, e) refl
        | inr e ↦
            rw (enter, locked, e)
              (read_loop-GivesBack taken s.mutex fuel (rounds count) buf 0 m ready (ground arith)
                refl back)
      ]
