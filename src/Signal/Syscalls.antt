-- ===== src/Signal/Syscalls.antt =====
-- The system calls `smunch`, `get_sigcounter`, `init_sigcounter` and `goober`
-- (linuxKerDev/syscallSignals/RW, and the other version of `smunch` in
-- linuxKerDev/syscallSignals/systemCall).
pub mod Effects
pub mod Wrap
use linux_ker_dev.Prelude.{
  ℕ, zero, suc, ◌-◌, ◌+◌, ◌%◌, ◌^◌, ltb, Bool, true, false, not, ◌||◌, ◌&&◌, List, [], ◌∷◌, ◌++◌,
  Option, none, some, Word, test_mask, or_word, ◌==◌, if◌then◌else◌, ℤ, pos, negsuc, length,
  get_elem?, set,
}
use linux_ker_dev.Signal.Numbers.{sigkill, sigmask, exit_zombie_dead}
use linux_ker_dev.Signal.Calls.{Dest, writable}
use linux_ker_dev.Signal.Types.{
  Task, Process, sigaddset, wake_up_state, signal_wake_up, thread_group_empty,
}

-- What `smunch` leaves: the process, if there was one, whether it was released, and the value.
pub record Smunched : Type 0 where
  pub process : Option Process
  pub released : Bool
  pub value : ℤ

abbrev pub is_dead : Task → Bool
is_dead t = test_mask t.exit_state exit_zombie_dead

-- `bit_pattern & (1 << (SIGKILL-1))`
abbrev pub asks_kill : Word → Bool
asks_kill pattern = test_mask pattern (sigmask sigkill)

abbrev pub unchanged : Process → ℤ → Smunched
unchanged p value = record { process = some p; released = false; value = value }

-- A live task that is asked to die: `sigaddset` and `wake_up_process`.
unfoldable pub smunch_kill : Process → Smunched
smunch_kill p =
    let t = p.self in
    let marked : Task = record t {
      pending = record t.pending { signal = sigaddset t.pending.signal sigkill };
    } in
    record {
      process = some (record p { self = wake_up_state marked (0 ∷ 1 ∷ 2 ∷ 3 ∷ []) });
      released = false;
      value = pos 0;
    }

-- The last branch: the pattern joins the pending signals.
unfoldable pub smunch_pend : Process → Word → Smunched
smunch_pend p pattern =
    let t = p.self in
    let marked : Task = record t {
      pending = record t.pending { signal = or_word t.pending.signal pattern };
    } in
    record {
      process = some (record p { self = signal_wake_up marked false });
      released = false;
      value = pos 0;
    }

-- `smunch` of RW: the task is that of the first thread, none where no process has the number.
unfoldable pub smunch : Option Process → Word → Smunched
unfolding smunch_kill smunch_pend
smunch none pattern = record { process = none; released = false; value = negsuc 0 }
smunch (some p) pattern =
    if not p.sighand
    then unchanged p (negsuc 0)
    else if not (thread_group_empty p)
    then unchanged p (negsuc 0)
    else if is_dead p.self && asks_kill pattern
    then record { process = some p; released = true; value = pos 0 }
    else if is_dead p.self && asks_kill pattern
    then unchanged p (pos 0)
    else if not (is_dead p.self) && asks_kill pattern
    then smunch_kill p
    else smunch_pend p pattern

-- `smunch` of systemCall/deepSmunch, whose second test of a dead task asks for no SIGKILL
unfoldable pub smunch_driver : Option Process → Word → Smunched
unfolding smunch_kill smunch_pend
smunch_driver none pattern = record { process = none; released = false; value = negsuc 0 }
smunch_driver (some p) pattern =
    if not p.sighand
    then unchanged p (negsuc 0)
    else if not (thread_group_empty p)
    then unchanged p (negsuc 0)
    else if is_dead p.self && asks_kill pattern
    then record { process = some p; released = true; value = pos 0 }
    else if is_dead p.self && not (asks_kill pattern)
    then unchanged p (pos 0)
    else if not (is_dead p.self) && asks_kill pattern
    then smunch_kill p
    else smunch_pend p pattern

-- An `unsigned int` made an `int`
unfoldable pub as_int : ℕ → ℤ
as_int n = let m = n % 2 ^ 32 in if ltb m (2 ^ 31) then pos m else negsuc (2 ^ 32 - 1 - m)

-- `get_sigcounter` of a current task that has its table; none is a read outside of it.
unfoldable pub get_sigcounter : Process → ℤ → Option ℤ
unfolding as_int
get_sigcounter current (negsuc n) = none
get_sigcounter current (pos signumber) = elim (get_elem? current.counters signumber) [
  | none ↦ none
  | some n ↦ some (as_int n)
]

-- `for (i = …; i < 66; i++) counters[i] = 0`, by the rounds that are left; none is a write beyond
-- the end.
unfoldable pub clear_counters : ℕ → ℕ → List ℕ → Option (List ℕ)
clear_counters zero i counters = some counters
clear_counters (suc rounds) i counters =
    let rest = clear_counters rounds (i + 1) (set counters i 0) in
    elim (get_elem? counters i) [ none ↦ none | some n ↦ rest ]

-- `init_sigcounter` of a process that is there and has its table
unfoldable pub init_sigcounter : Process → Option (Process × ℤ)
unfolding clear_counters
init_sigcounter p = elim (clear_counters 66 0 p.counters) [
  | none ↦ none
  | some counters ↦ some (record p { counters = counters }, pos 0)
]

-- `goober`: the nanoseconds of the kernel's clock that the process gets, if it gets them, and the
-- value.
unfoldable pub goober : Dest → ℕ → Option ℕ × ℤ
goober writable nsec = (some nsec, pos 0)
goober _ nsec = (none, pos 0)
