-- ===== src/Libc.antt =====
-- source/libc: the user's side of the system calls, libc/syscall.c, and libc/string.c, whose functions
-- are, word for word, those of source/lib/string.c under other names.
use mango_os.Base.{ℕ, Option, none, some}
use mango_os.Strings.{Memory, kmemset, kmemcpy, kmemcmp, kstrcpy, kstrlen, kstrrchr}

abbrev pub memset : Memory → ℕ → ℕ → ℕ → Memory
memset = kmemset

abbrev pub memcpy : Memory → ℕ → ℕ → ℕ → Memory
memcpy = kmemcpy

abbrev pub memcmp : Memory → ℕ → ℕ → ℕ → ℕ
memcmp = kmemcmp

abbrev pub strcpy : ℕ → Memory → ℕ → ℕ → Option Memory
strcpy = kstrcpy

abbrev pub strlen : ℕ → Memory → ℕ → Option ℕ
strlen = kstrlen

abbrev pub strrchr : ℕ → Memory → ℕ → ℕ → Option ℕ
strrchr = kstrrchr

-- `syscall_args_t`; the fields that a call does not set are what the stack holds.
pub record Args : Type 0 where
  pub id : ℕ
  pub arg0 : ℕ
  pub arg1 : ℕ
  pub arg2 : ℕ
  pub arg3 : ℕ

-- The registers of `exception_frame_t` that a system call uses.
pub record Frame : Type 0 where
  pub eax : ℕ
  pub ecx : ℕ
  pub edx : ℕ
  pub ebp : ℕ
  pub edi : ℕ

-- `sys_call` up to its `int`: the registers that the kernel finds. Its answer is `eax` afterwards.
unfoldable pub sys_call : Args → Frame
sys_call a = record { edi = a.arg3; ebp = a.arg2; edx = a.arg1; ecx = a.arg0; eax = a.id }

-- The registers of each call; `none` is a format without an end.
unfoldable pub print_msg : ℕ → Memory → Args → ℕ → ℕ → Option Frame
unfolding sys_call kstrlen
print_msg fuel m a fmt arg = elim (strlen fuel m fmt) [
  | none ↦ none
  | some len ↦ some (sys_call (record a { id = 100; arg0 = fmt; arg1 = arg; arg2 = len }))
]

unfoldable pub sleep : Args → ℕ → Frame
unfolding sys_call
sleep a ms = sys_call (record a { id = 0; arg0 = ms })

unfoldable pub fork : Args → Frame
unfolding sys_call
fork a = sys_call (record a { id = 1 })

unfoldable pub execve : Args → ℕ → ℕ → ℕ → Frame
unfolding sys_call
execve a name argv env = sys_call (record a { id = 2; arg0 = name; arg1 = argv; arg2 = env })
