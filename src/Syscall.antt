-- ===== src/Syscall.antt =====
-- source/kernel/syscall.c: the handlers of the system calls and the choice of one. The lock of the
-- log, which is taken and given back around `kprintf`, is left out as in Log.
use mango_os.Base.{
  ℕ, zero, suc, ◌+◌, Option, none, some, List, [], ◌∷◌, ◌==◌, if◌then◌else◌, update, add32,
}
use mango_os.Strings.{Memory}
use mango_os.Log.{Screen, number, text, format_loop}
use mango_os.Task.{sys_sleep}
use mango_os.UserCopy.{copy_from_user_n}
use mango_os.Arch.{IdtTable, irq_install}
use mango_os.Libc.{Frame}
use mango_os.Process.{Procs, Run, ok, waits, stuck, pure, ◌>>=◌, set_kernel, name_of}
use mango_os.Process.Load.{FileCalls}
use mango_os.Process.Exec.{Locals, sys_execve}
use mango_os.Process.Fork.{OpenFiles, Exit, answers, enters_user, sys_fork}

-- The entries of `call_table`.
pub data Handler : Type 0 where
  sleep_handler fork_handler execve_handler print_handler : Handler

-- An entry that is not set is `NULL`; behind the table there is none.
unfoldable pub call_table : ℕ → Option Handler
call_table n =
    if n == 0
    then some sleep_handler
    else if n == 1
    then some fork_handler
    else if n == 2
    then some execve_handler
    else if n == 100
    then some print_handler
    else none

-- What the calls find outside the frame: where local variables lie, what the assembler of fork reads
-- from the kernel's stack, and what `sys_sleep`, which answers nothing, leaves in `eax`.
pub record Trap : Type 0 where
  pub locals : Locals
  pub msg : ℕ
  pub fork_eip : ℕ
  pub fork_entry : ℕ
  pub fork_esp : ℕ
  pub left : ℕ

-- How a trap ends: back at the call with a frame, in user mode at an instruction and a stack, waiting
-- for a mutex, or out of fuel.
pub data Handled : Type 0 where
  returns : Frame → Procs OpenFiles → Screen → Handled
  in_user : ℕ → ℕ → Procs OpenFiles → Screen → Handled
  waiting : Procs OpenFiles → Screen → Handled
  out_of_fuel : Handled

-- The bytes of a text.
unfoldable pub text_from : ℕ → ℕ → Memory → List ℕ
text_from zero p m = []
text_from (suc n) p m = let rest = text_from n (p + 1) m in if m p == 0 then [] else m p ∷ rest

-- `"task:%s, Unknown syscall:%d\n"`
abbrev pub unknown_call : List ℕ
unknown_call =
    116 ∷ 97 ∷ 115 ∷ 107 ∷ 58 ∷ 37 ∷ 115 ∷ 44 ∷ 32 ∷ 85 ∷ 110 ∷ 107 ∷ 110 ∷ 111 ∷ 119 ∷ 110 ∷ 32
    ∷ 115 ∷ 121 ∷ 115 ∷ 99 ∷ 97 ∷ 108 ∷ 108 ∷ 58 ∷ 37 ∷ 100 ∷ 10 ∷ []

-- What a handler leaves, as the end of the trap.
abbrev pub finish : Frame → Screen → Run OpenFiles Exit → Handled
finish f screen r = elim r [
  | ok e p ↦ elim e [
    | answers n ↦ returns (record f { eax = n }) p screen
    | enters_user eip esp ↦ in_user eip esp p screen
  ]
  | waits p ↦ waiting p screen
  | stuck ↦ out_of_fuel
]

-- `kprintf(msg, arg)` behind the copy, whose answer is dropped; the argument is read as a number.
unfoldable pub sys_printf :
    ℕ → ℕ → ℕ → ℕ → ℕ → Procs OpenFiles → Screen → Option (Procs OpenFiles × Screen)
unfolding copy_from_user_n text_from format_loop
sys_printf fuel msg fmt arg len p screen =
    let k = p.pages.kernel in
    elim (copy_from_user_n (suc len) (k.cr3 k.current) msg fmt len p.memory) [
      | none ↦ none
      | some (copied, m) ↦
          let m' = update m (add32 msg len) 0 in
          elim (format_loop fuel (text_from (suc len) msg m') (number arg ∷ []) screen) [
            | none ↦ none
            | some screen' ↦ some (record p { memory = m' }, screen')
          ]
    ]

module _ (calls : FileCalls OpenFiles) (fuel : ℕ) (t : Trap) where
  -- `handler(frame->ecx, frame->edx, frame->ebp, frame->edi)`, and the answer into `eax`.
  unfoldable pub perform : Handler → Frame → Procs OpenFiles → Screen → Handled
  unfolding sys_sleep sys_fork sys_execve sys_printf
  perform sleep_handler f p screen =
      returns (record f { eax = t.left }) (set_kernel p (sys_sleep p.pages.kernel f.ecx)) screen
  perform fork_handler f p screen =
      finish f screen (sys_fork fuel t.fork_eip t.fork_entry t.fork_esp p)
  perform execve_handler f p screen =
      finish f screen
        ((sys_execve calls fuel t.locals f.ecx f.edx f.ebp >>= λ n. pure (answers n)) p)
  perform print_handler f p screen = elim (sys_printf fuel t.msg f.ecx f.edx f.ebp p screen) [
    | none ↦ out_of_fuel
    | some (p', screen') ↦ returns (record f { eax = 0 }) p' screen'
  ]

  unfoldable pub do_handler_syscall : Frame → Procs OpenFiles → Screen → Handled
  unfolding call_table perform text_from format_loop
  do_handler_syscall f p screen = elim (call_table f.eax) [
    | some h ↦ perform h f p screen
    | none ↦
        let name = text_from 32 (name_of p.pages.kernel.current) p.memory in
        elim (format_loop fuel unknown_call (text name ∷ number f.eax ∷ []) screen) [
          | none ↦ out_of_fuel
          | some screen' ↦ returns f p screen'
        ]
  ]

-- The vector of system calls is open to the user.
unfoldable pub syscall_init : IdtTable → ℕ → IdtTable
unfolding irq_install
syscall_init table handler = (irq_install table 0x80 handler).1
