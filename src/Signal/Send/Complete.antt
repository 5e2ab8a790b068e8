-- ===== src/Signal/Send/Complete.antt =====
-- The choice of a thread for a signal (signal.c, `complete_signal`).
use linux_ker_dev.Prelude.{
  ℕ, zero, suc, ◌-◌, ◌+◌, ◌<◌, ◌≡◌, ◌≢◌, true, false, arith, leb, ◌==◌, if◌then◌else◌, Bool-cases,
  inl, inr, none, some,
}
use linux_ker_dev.Signal.Types.{Process, nr_threads, thread}
use linux_ker_dev.Signal.Send.{wants_signal, find_target}

-- How far the place `i` is ahead of the place `t` on a ring of `n`.
abbrev ahead : ℕ → ℕ → ℕ → ℕ
ahead n t i = if leb t i then i - t else i + n - t

-- The place that the search looks at behind `t`.
abbrev step_from : ℕ → ℕ → ℕ
step_from n t = if t + 1 == n then 0 else t + 1

step_lt : (n t : ℕ) → t < n → step_from n t < n
step_lt n t h = ground arith

step_ahead :
    (n t i looks : ℕ)
    → t < n
    → i < n
    → t ≢ i
    → ahead n t i < suc looks
    → ahead n (step_from n t) i < looks
step_ahead n t i looks h k d l = ground arith

find_target_sound :
    (sig : ℕ) (p : Process) (looks t i : ℕ)
    → find_target sig p looks t ≡ some i
    → wants_signal sig (thread p i) ≡ true
unfolding find_target
find_target_sound sig p zero t i h = cc
find_target_sound sig p (suc looks) t i h =
    ground (arith, find_target_sound sig p looks (step_from (nr_threads p) t) i)

wanted_differs :
    (sig : ℕ) (p : Process) (t i : ℕ)
    → wants_signal sig (thread p t) ≡ false
    → wants_signal sig (thread p i) ≡ true
    → t ≢ i
wanted_differs sig p t i e w same = cc

find_target_complete :
    (sig : ℕ) (p : Process) (looks t i : ℕ)
    → t < nr_threads p
    → i < nr_threads p
    → ahead (nr_threads p) t i < looks
    → wants_signal sig (thread p i) ≡ true
    → find_target sig p looks t ≢ none
unfolding find_target
find_target_complete sig p zero t i h k l w = absurd (omega arith)
find_target_complete sig p (suc looks) t i h k l w =
    elim (Bool-cases (wants_signal sig (thread p t))) [
      | inl e ↦ rw e (λ n. cc)
      | inr e ↦
          let d : t ≢ i = λ same. wanted_differs sig p t i e w same in
          rw e (
            find_target_complete sig p looks (step_from (nr_threads p) t) i
              (step_lt (nr_threads p) t h) k (step_ahead (nr_threads p) t i looks h k d l) w)
    ]

-- From whatever place of the ring of threads the search of `complete_signal` starts, a thread that
-- it finds wants the signal, and it finds one if any thread does.
pub find_target_lem :
    (sig : ℕ) (p : Process) (t : ℕ)
    → t < nr_threads p
    → ((i : ℕ) → find_target sig p (nr_threads p) t ≡ some i → wants_signal sig (thread p i) ≡ true)
      × ((i : ℕ)
          → i < nr_threads p
          → wants_signal sig (thread p i) ≡ true
          → find_target sig p (nr_threads p) t ≢ none)
find_target_lem sig p t h = (
  λ i e. find_target_sound sig p (nr_threads p) t i e,
  λ i k w. find_target_complete sig p (nr_threads p) t i h k (ground arith) w,
)
