-- ===== src/Strings.antt =====
-- source/lib/string.c (and its copy for user programs, source/libc/string.c): bytes and
-- zero-terminated texts in memory. A memory is a function from addresses to bytes; an `int` is its
-- 32-bit pattern. A loop that runs to a terminator takes fuel, and `none` says that it ran out.
pub mod Copy
pub mod Text
use mango_os.Base.{
  ◌*◌, ◌/◌, ℕ, zero, suc, ◌+◌, ◌-◌, ◌%◌, ◌^◌, Bool, true, false, not, ◌||◌, Option, none, some,
  ◌==◌, if◌then◌else◌, update, is_pos32,
}

abbrev pub Memory : Type 0
Memory = ℕ → ℕ

-- The word at an address, the lowest byte first.
abbrev pub word : Memory → ℕ → ℕ
word m a = m a + m (a + 1) * 2 ^ 8 + m (a + 2) * 2 ^ 16 + m (a + 3) * 2 ^ 24

-- `*(uint *)a = v`
abbrev pub store_word : ℕ → ℕ → Memory → Memory
store_word a v m =
    update
      (update (update (update m a (v % 2 ^ 8)) (a + 1) (v / 2 ^ 8 % 2 ^ 8)) (a + 2)
        (v / 2 ^ 16 % 2 ^ 8))
      (a + 3) (v / 2 ^ 24 % 2 ^ 8)

-- `*(ushort *)a`
abbrev pub half : Memory → ℕ → ℕ
half m a = m a + m (a + 1) * 2 ^ 8

-- `*(ushort *)a = v`
abbrev pub store_half : ℕ → ℕ → Memory → Memory
store_half a v m = update (update m a (v % 2 ^ 8)) (a + 1) (v / 2 ^ 8 % 2 ^ 8)

-- `while (size--) *p++ = c`
unfoldable pub fill : ℕ → ℕ → ℕ → Memory → Memory
fill zero p c m = m
fill (suc n) p c m = fill n (p + 1) c (update m p c)

unfoldable pub kmemset : Memory → ℕ → ℕ → ℕ → Memory
unfolding fill
kmemset m dest c size = if (dest == 0) || not (is_pos32 size) then m else fill size dest c m

-- `while (size--) *d++ = *s++`
unfoldable pub copy : ℕ → ℕ → ℕ → Memory → Memory
copy zero d s m = m
copy (suc n) d s m = copy n (d + 1) (s + 1) (update m d (m s))

unfoldable pub kmemcpy : Memory → ℕ → ℕ → ℕ → Memory
unfolding copy
kmemcpy m dest src size =
    if (dest == 0) || ((src == 0) || not (is_pos32 size)) then m else copy size dest src m

-- `while (size--) if (*f++ != *s++) return 1`
unfoldable pub compare_bytes : ℕ → ℕ → ℕ → Memory → ℕ
compare_bytes zero f s m = 0
compare_bytes (suc n) f s m =
    let rest = compare_bytes n (f + 1) (s + 1) m in if m f == m s then rest else 1

unfoldable pub kmemcmp : Memory → ℕ → ℕ → ℕ → ℕ
unfolding compare_bytes
kmemcmp m first second size =
    if (first == 0) || (second == 0) then 0 else compare_bytes size first second m

-- `while (*src != '\0') *dest++ = *src++; *dest = '\0'`
unfoldable pub copy_text : ℕ → ℕ → ℕ → Memory → Option Memory
copy_text zero d s m = none
copy_text (suc n) d s m =
    let rest = copy_text n (d + 1) (s + 1) (update m d (m s)) in
    if m s == 0 then some (update m d 0) else rest

unfoldable pub kstrcpy : ℕ → Memory → ℕ → ℕ → Option Memory
unfolding copy_text
kstrcpy fuel m dest src = if (dest == 0) || (src == 0) then some m else copy_text fuel dest src m

-- `while (*p++) len++`
unfoldable pub count_text : ℕ → ℕ → ℕ → Memory → Option ℕ
count_text zero p len m = none
count_text (suc n) p len m =
    let rest = count_text n (p + 1) (len + 1) m in if m p == 0 then some len else rest

unfoldable pub kstrlen : ℕ → Memory → ℕ → Option ℕ
unfolding count_text
kstrlen fuel m str = count_text fuel str 0 m

-- The loop of `kstrrchr`; at the terminator 0 is looked for as well. A pointer 0 is `NULL`.
unfoldable pub last_of : ℕ → ℕ → ℕ → ℕ → Memory → Option ℕ
last_of zero p c last m = none
last_of (suc n) p c last m =
    let rest = last_of n (p + 1) c (if m p == c % 2 ^ 8 then p else last) m in
    if m p == 0 then (if c == 0 then some p else some last) else rest

unfoldable pub kstrrchr : ℕ → Memory → ℕ → ℕ → Option ℕ
unfolding last_of
kstrrchr fuel m str c = last_of fuel str c 0 m
