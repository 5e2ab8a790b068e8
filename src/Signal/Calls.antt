-- ===== src/Signal/Calls.antt =====
-- The system calls of signal.c (lines 512-536, 2507-2559, 2652-2897, 2944-3192). Memory of the
-- process is read and written through pointers; what a pointer leads to is an argument.
pub mod Mask
pub mod Wait
pub mod Send
pub mod Stack
use linux_ker_dev.Prelude.{ℕ, Option, none, some, ℤ, pos}
use linux_ker_dev.Signal.Numbers.{efault}
use linux_ker_dev.Signal.Types.{Process}

-- A pointer that is read: a null pointer, one that `copy_from_user` fails on, or what it points to.
pub data Source {ℓ} (A : Type ℓ) : Type ℓ where
  null_source : Source A
  unreadable : Source A
  holds : A → Source A

-- A pointer that is written: a null pointer, one that `copy_to_user` fails on, or a good one.
pub data Dest : Type 0 where
  null_dest unwritable writable : Dest

-- What a call leaves: the process, what is written, and the value.
pub record Reply {ℓ} (A : Type ℓ) : Type ℓ where
  pub process : Process
  pub written : Option A
  pub value : ℤ

-- The end of a call that gives an error or another value and writes nothing.
abbrev pub plain {ℓ} : {A : Type ℓ} → Process → ℤ → Reply A
plain p value = record { process = p; written = none; value = value }

-- The end of a call that has succeeded and writes `a` where it is asked to.
abbrev pub write_out {ℓ} : {A : Type ℓ} → Process → Dest → A → ℤ → Reply A
write_out p null_dest a value = plain p value
write_out p unwritable a value = plain p efault
write_out p writable a value = record { process = p; written = some a; value = value }
