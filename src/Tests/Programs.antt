-- ===== src/Tests/Programs.antt =====
-- A file with the head of a program at 0x100, whose first program header is skipped. The calls on
-- files open file 3 and leave memory as it is.
use mango_os.Base.{ℕ, ◌%◌, ◌≡◌, arith}
use mango_os.Strings.{Memory, store_word}
use mango_os.Process.{Procs, stuck}
use mango_os.Process.Load.{FileCalls}
use mango_os.Process.Ends.{Ends}
use mango_os.Process.Load.Opens.{Opens}
use mango_os.Process.Exec.{copy_args_envs}
use mango_os.Process.Exec.Arguments.{copy_args_envs-stuck}
use mango_os.Tests.Kernels.{shop}
use mango_os.Tests.Processes.{family}

abbrev elf : Memory
elf a =
    store_word 300 2
      (store_word 296 0x200034 (
        store_word 284 52 (
          store_word 280 0x80000000 (store_word 272 0x30002 (store_word 256 0x464c457f (λ b. 0))))))
      a
    % 256

-- The state is the file that is open, 0 for none.
abbrev one_file : FileCalls ℕ
one_file = record {
  sys_open = λ name mode m w. (3, (w.0, 3));
  sys_seek = λ fd offset w. (0, w);
  sys_read = λ fd buf size m w. (size, m, w);
  sys_close = λ fd w. (0, (w.0, 0));
}

abbrev loader : Procs ℕ
loader = family 0 elf shop

-- Two texts and the list of them at 0x400.
abbrev texts : Memory
texts = store_word 0x400 0x500 (store_word 0x500 0x61 (λ b. 0))

copy_args_envs-stuck_example :
    copy_args_envs {X = ℕ} 50 0x600 (λ i. 0) (λ i. 0) 0x200000 0x400 0x404 (family 0 texts shop)
    ≡ stuck
copy_args_envs-stuck_example =
    copy_args_envs-stuck 50 0x600 (λ i. 0) (λ i. 0) 0x200000 0x400 0x404 (family 0 texts shop)
      (omega arith) (λ e. ground arith)
