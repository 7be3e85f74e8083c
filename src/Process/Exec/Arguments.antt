-- ===== src/Process/Exec/Arguments.antt =====
-- The arguments of a program on its stack.
use mango_os.Base.{
  ℕ, Option, ◌*◌, update, zero, suc, ◌+◌, ◌<◌, ◌≤◌, ◌^◌, ◌≡◌, ◌≢◌, refl, false, ◌==◌, arith, sub32,
  inc32, Bool-cases, inl, inr, ◌⊎◌, Option-cases, minus_one,
}
use mango_os.Strings.{Memory, word, kstrlen}
use mango_os.UserCopy.{copy_to_user_n}
use mango_os.Process.{Procs, ok, stuck}
use mango_os.Process.Exec.{ask, give_user, push_texts, push_table, copy_args_envs}

module _ {X : Type 0} where
  -- A copy to the user never waits.
  give_user_cases :
      (pde to from size : ℕ) (s : Procs X)
      → (give_user pde to from size s ≡ stuck)
        ⊎ ((s' : Procs X) × (give_user pde to from size s ≡ ok tt s'))
  unfolding give_user
  give_user_cases pde to from size s =
      elim (Option-cases (copy_to_user_n (suc size) pde to from size s.memory)) [
        | inl e ↦ inl (ground (arith, e))
        | inr (r, e) ↦ inr (record s { memory = r.1 }, ground (arith, e))
      ]

  -- A counter below 2 ^ 31 that is its own bound is still below it after any number of rounds that
  -- does not take it there.
  pub push_table-stuck :
      (n pde c : ℕ) (table : ℕ → ℕ) (top : ℕ) (s : Procs X)
      → c + n ≤ 2 ^ 31
      → push_table n pde c table top s ≡ stuck
  unfolding push_table
  push_table-stuck zero pde c table top s h = refl
  push_table-stuck (suc n) pde c table top s h =
      elim (give_user_cases pde (sub32 top 4) (table c) 4 s) [
        | inl e ↦ ground (arith, e)
        | inr (s', e) ↦ ground (arith, e, push_table-stuck n pde (inc32 c) table (sub32 top 4) s')
      ]

  ask_cases :
      (f : Memory → Option ℕ) (s : Procs X) → (ask f s ≡ stuck) ⊎ ((a : ℕ) × (ask f s ≡ ok a s))
  ask_cases f s = elim (Option-cases (f s.memory)) [
    | inl e ↦ inl (ground (arith, e))
    | inr (a, e) ↦ inr (a, ground (arith, e))
  ]

  -- Fuel is used up, or the texts are fewer than the fuel.
  push_texts_cases :
      (n pde texts i top : ℕ) (table : ℕ → ℕ) (s : Procs X)
      → (push_texts n pde texts i top table s ≡ stuck)
        ⊎ ((r : ℕ × ℕ × (ℕ → ℕ)) × (s' : Procs X) × (push_texts n pde texts i top table s ≡ ok r s')
            × (r.0 < i + n))
  unfolding push_texts
  push_texts_cases zero pde texts i top table s = inl refl
  push_texts_cases (suc n) pde texts i top table s = elim (Bool-cases (text == 0)) [
    | inl e ↦ inr ((i, top, update table i 0), s, ground (arith, e), omega arith)
    | inr e ↦ elim (ask_cases (λ m. kstrlen (suc n) m text) s) [
      | inl f ↦ inl (ground (arith, e, f))
      | inr (len, f) ↦ elim (give_user_cases pde (sub32 top (len + 1)) text (len + 1) s) [
        | inl g ↦ inl (ground (arith, e, f, g))
        | inr (s1, g) ↦
            elim (push_texts_cases n pde texts (i + 1) (sub32 top (len + 1))
              (update table i (sub32 top (len + 1))) s1) [
                | inl h ↦ inl (ground (arith, e, f, g, h))
                | inr (r, s', h, l) ↦ inr (r, s', ground (arith, e, f, g, h), omega arith)
              ]
      ]
    ]
  ]
    where
      text : ℕ
      text = word s.memory (texts + 4 * i)

  -- With a list of arguments `copy_args_envs` has not ended after 2 ^ 30 rounds of any of its loops,
  -- however short the list is: fuel for as many rounds, or for fewer, runs out.
  pub copy_args_envs-stuck :
      (fuel argc_at : ℕ) (table_arg table_env : ℕ → ℕ) (pde argv env : ℕ) (s : Procs X)
      → fuel ≤ 2 ^ 30
      → argv ≢ 0
      → copy_args_envs fuel argc_at table_arg table_env pde argv env s ≡ stuck
  unfolding copy_args_envs
  copy_args_envs-stuck fuel argc_at table_arg table_env pde argv env s small ne =
      let given : (argv == 0) ≡ false = ground arith in
      elim (push_texts_cases fuel pde argv 0 minus_one table_arg s) [
        | inl e ↦ ground (arith, given, e)
        | inr (a, s1, e, l) ↦ elim (push_texts_cases fuel pde env 0 a.1 table_env s1) [
          | inl f ↦ ground (arith, given, e, f)
          | inr (b, s2, f, k) ↦
              let never = push_table-stuck fuel pde b.0 b.2 b.1 s2 (omega arith) in
              ground (arith, given, e, f, never)
        ]
      ]
