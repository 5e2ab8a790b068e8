-- ===== src/Signal/Dequeue/Taken.antt =====
-- Which signal `dequeue_signal` of signal.c takes.
use linux_ker_dev.Prelude.{
  ℕ, ◌≡◌, ◌≢◌, ◌⊎◌, refl, subst, Bool, true, false, none, some, inl, inr, Option, Word, ◌==◌,
  Bool-cases, ==_iff,
}
use linux_ker_dev.Signal.Types.{Siginfo, Sigpending, Process}
use linux_ker_dev.Signal.Pending.{next_signal, collect_signal}
use linux_ker_dev.Signal.Pending.Choice.{true_ne_false, IsChoice, next_signal-IsChoice}
use linux_ker_dev.Signal.Enqueue.{pending_of, with_pending}
use linux_ker_dev.Signal.Dequeue.{Timers, dequeue_from, finish_dequeue, look_shared, dequeue_signal}

-- The signal that is taken, if any: the choice of the private set, or, where that has
-- nothing to deliver, of the shared one.
abbrev pub IsTaken : Word → Process → Option (ℕ × Siginfo) → Type 0
IsTaken mask p none = IsChoice p.self.pending mask 0 × IsChoice p.signal.shared_pending mask 0
IsTaken mask p (some (sig, info)) =
    (sig ≢ 0)
    × (IsChoice p.self.pending mask sig
        ⊎ (IsChoice p.self.pending mask 0 × IsChoice p.signal.shared_pending mask sig))

from_nothing :
    (mask : Word) (p : Process) (group : Bool)
    → next_signal (pending_of p group) mask ≡ 0
    → dequeue_from none mask p group ≡ (p, none)
unfolding dequeue_from
from_nothing mask p group h = rw h refl

-- What the look at one set finds, as its choice has it.
abbrev Found : Sigpending → Word → Option (ℕ × Siginfo) → Type 0
Found s mask none = IsChoice s mask 0
Found s mask (some (sig, info)) = (sig ≢ 0) × IsChoice s mask sig

Found-at :
    (mask : Word) (p : Process) (group : Bool)
    → Found (pending_of p group) mask (dequeue_from none mask p group).1
unfolding dequeue_from
Found-at mask p group =
    let choice = next_signal-IsChoice (pending_of p group) mask in
    elim (Bool-cases (next_signal (pending_of p group) mask == 0)) [
      | inl e ↦ rw e (
          subst (IsChoice (pending_of p group) mask)
            ((==_iff (next_signal (pending_of p group) mask) 0).0 e) choice)
      | inr e ↦
          rw e (
            (λ z. true_ne_false ((==_iff (next_signal (pending_of p group) mask) 0).1 z) e),
            choice,
          )
    ]

finish-taken :
    (freezing : Bool) (timers : Timers) (b : Bool) (r : Process × Option (ℕ × Siginfo))
    → (finish_dequeue freezing timers b r).taken ≡ r.1
unfolding finish_dequeue
finish-taken freezing timers b (p, none) = refl
finish-taken freezing timers b (p, some x) = refl

from_something :
    (mask : Word) (p : Process)
    → (next_signal p.self.pending mask == 0) ≡ false
    → (q : Process) × (info : Siginfo) × (dequeue_from none mask p false
        ≡ (q, some (next_signal p.self.pending mask, info)))
unfolding dequeue_from
from_something mask p e =
    let r = collect_signal (next_signal p.self.pending mask) p.self.pending p.users in
    (with_pending p false r.0 r.2, r.1, rw e refl)

combine :
    (mask : Word) (p : Process) (o : Option (ℕ × Siginfo))
    → IsChoice p.self.pending mask 0
    → Found p.signal.shared_pending mask o
    → IsTaken mask p o
combine mask p none h k = (h, k)
combine mask p (some (sig, info)) h k = (k.0, inr (h, k.1))

-- If no notifier is set, the signal that `dequeue_signal` takes is the right choice among the
-- private signals that are not masked (a synchronous one if there is any, and the lowest of its
-- kind); where no private one is left it is the right choice among the shared ones; and it takes
-- none only if neither set has one that is not masked.
pub dequeue_signal_lem :
    (mask : Word) (freezing : Bool) (timers : Timers) (p : Process)
    → IsTaken mask p (dequeue_signal none mask freezing timers p).taken
unfolding dequeue_signal look_shared
dequeue_signal_lem mask freezing timers p =
    let own = next_signal-IsChoice p.self.pending mask in
    let shared = Found-at mask p true in
    elim (Bool-cases (next_signal p.self.pending mask == 0)) [
      | inl e ↦
          let zero_next = (==_iff (next_signal p.self.pending mask) 0).0 e in
          let none_own : IsChoice p.self.pending mask 0 =
            subst (IsChoice p.self.pending mask) zero_next own in
          rw (from_nothing mask p false zero_next, finish-taken)
            (combine mask p (dequeue_from none mask p true).1 none_own shared)
      | inr e ↦
          let (q, info, found) = from_something mask p e in
          rw (found, finish-taken)
            ((λ z. true_ne_false ((==_iff (next_signal p.self.pending mask) 0).1 z) e), inl own)
    ]
