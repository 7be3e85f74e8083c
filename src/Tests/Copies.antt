-- ===== src/Tests/Copies.antt =====
-- Two bytes that lie in two pages of a task, 0x3000 and 0x5000.
use mango_os.Base.{
  ℕ, zero, suc, ◌+◌, ◌<◌, ◌⊎◌, ◌≡◌, refl, inl, inr, true, some, ◌==◌, leb, if◌then◌else◌, arith,
  ◌%◌,
}
use mango_os.Page.{trans_vtop}
use mango_os.Strings.{Memory, word}
use mango_os.UserCopy.{copy_from_user_n, copy_to_user_n}
use mango_os.UserCopy.Places.{pde_at, pte_at}
use mango_os.UserCopy.Reads.{Readable, Copied}
use mango_os.UserCopy.Reads.Whole.{copy_from_user-Copied}
use mango_os.UserCopy.Writes
use mango_os.UserCopy.Writes.{Writable}
use mango_os.UserCopy.Writes.Whole.{copy_to_user-Copied}

-- The directory stands at 0x1000, its entry 256 names the table at 0x2000.
abbrev memory : Memory
memory a =
    if a == 0x1401
    then 0x20
    else if a == 0x2001
    then 0x30
    else if a == 0x2005
    then 0x50
    else if leb 0x3000 a
    then a % 251
    else 0

first_place : trans_vtop 0x1000 0x40000FFF (word memory) ≡ 0x3FFF
unfolding trans_vtop
first_place = refl

second_place : trans_vtop 0x1000 0x40001000 (word memory) ≡ 0x5000
unfolding trans_vtop
second_place = refl

readable : (i : ℕ) → i < 2 → Readable memory 0x1000 0x10000 2 (0x40000FFF + i)
unfolding trans_vtop
readable zero l = record {
  table = λ e. omega (arith, e);
  place = λ e. omega (arith, e);
  directory_apart = inl (omega arith);
  table_apart = inl (omega arith);
  byte_apart = inl (omega arith);
}
readable (suc zero) l = record {
  table = λ e. omega (arith, e);
  place = λ e. omega (arith, e);
  directory_apart = inl (omega arith);
  table_apart = inl (omega arith);
  byte_apart = inl (omega arith);
}
readable (suc (suc i)) l = absurd (omega arith)

copy_from_user-Copied_example :
    (m' : Memory) × (copy_from_user_n 3 0x1000 0x10000 0x40000FFF 2 memory ≡ some (true, m'))
    × Copied memory m' 0x1000 0x10000 0x40000FFF 2
copy_from_user-Copied_example =
    copy_from_user-Copied 3 0x1000 0x10000 0x40000FFF 2 memory (omega arith) (λ e. omega (arith, e))
      (omega arith) (omega arith) (omega arith) readable

-- The same two bytes, written from 0x10000.
place_of :
    (i : ℕ)
    → i < 2
    → Writes.place memory 0x1000 (0x40000FFF + i) ≡ (if i == 0 then 0x3FFF else 0x5000)
place_of zero l = first_place
place_of (suc zero) l = second_place
place_of (suc (suc i)) l = absurd (omega arith)

far : (a : ℕ) → (a < 0x3FFF) ⊎ (0x5000 < a) → Writes.Elsewhere memory 0x1000 0x40000FFF 2 a
far a h i l e = ground (arith, place_of i l, e)

entry_of : (i : ℕ) → i < 2 → pte_at 0x1000 (0x40000FFF + i) memory < 0x2008
entry_of zero l = omega arith
entry_of (suc zero) l = omega arith
entry_of (suc (suc i)) l = absurd (omega arith)

writable : Writable memory 0x1000 0x40000FFF 0x10000 2
writable = record {
  table = λ i l. (readable i l).table;
  placed = λ i l. (readable i l).place;
  directory_apart =
      λ i l k l4. far (pde_at 0x1000 (0x40000FFF + i) + k) (inl (omega (arith, l, l4)));
  table_apart = λ i l k l4.
      far (pte_at 0x1000 (0x40000FFF + i) memory + k) (inl (omega (arith, l4, entry_of i l)));
  source_apart = λ i l. far (0x10000 + i) (inr (omega arith));
  distinct = λ i j l l' e. ground (arith, place_of i l, place_of j l', e);
}

copy_to_user-Copied_example :
    (m' : Memory) × (copy_to_user_n 3 0x1000 0x40000FFF 0x10000 2 memory ≡ some (true, m'))
    × Writes.Copied memory m' 0x1000 0x40000FFF 0x10000 2
copy_to_user-Copied_example =
    copy_to_user-Copied 3 0x1000 0x40000FFF 0x10000 2 memory (omega arith) (omega arith)
      (λ e. omega (arith, e)) (omega arith) (omega arith) (omega arith) writable
