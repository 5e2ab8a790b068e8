-- ===== src/Signal/Dequeue/Weight.antt =====
-- Every signal that is taken leaves less to take (signal.c, `dequeue_signal`).
use linux_ker_dev.Prelude.{
  ℕ, zero, suc, ◌+◌, ◌-◌, ◌≡◌, ◌≤◌, ◌<◌, ◌≢◌, ==_iff, refl, sym, subst, arith, Bool, true, false,
  List, [], ◌∷◌, Option, none, some, inl, inr, Word, update, length, Bool-cases, if-either,
  if-cases, if◌then◌else◌, ◌==◌,
}
use linux_ker_dev.Signal.Numbers.{nsig, sig_kernel_stop}
use linux_ker_dev.Signal.Types.{Siginfo, Sigqueue, Sigpending, Users, Process, sigdelset}
use linux_ker_dev.Signal.Pending.{next_signal, collect_signal, take_first, has_entry, is_entry_of}
use linux_ker_dev.Signal.Pending.Choice.{IsChoice, next_signal-IsChoice}
use linux_ker_dev.Signal.Enqueue.{pending_of, with_pending}
use linux_ker_dev.Signal.Dequeue.{
  Notifier, Timers, Dequeued, dequeue_signal, dequeue_from, look_shared, finish_dequeue,
  recalc_sigpending, mark_stop, with_flag, holds_back, has_work,
}

-- The number of the bits set among `n` places from `i` on.
unfoldable pub bits : Word → ℕ → ℕ → ℕ
bits w i zero = 0
bits w i (suc n) = (if w i then 1 else 0) + bits w (suc i) n

-- The entries and the bits of a set of pending signals.
abbrev pub weight_of : Sigpending → ℕ
weight_of s = length s.queue + bits s.signal 0 nsig

-- What is left to take for a thread.
abbrev pub weight : Process → ℕ
weight p = weight_of p.self.pending + weight_of p.signal.shared_pending

bits-del_above : (w : Word) (b i n : ℕ) → b < i → bits (update w b false) i n ≡ bits w i n
unfolding bits
bits-del_above w b i zero h = refl
bits-del_above w b i (suc n) h = ground (arith, bits-del_above w b (suc i) n (omega arith))

bits-del :
    (w : Word) (b i n : ℕ)
    → i ≤ b
    → b < i + n
    → w b ≡ true
    → suc (bits (update w b false) i n) ≡ bits w i n
unfolding bits
bits-del w b i zero h k e = absurd (omega arith)
bits-del w b i (suc n) h k e = elim (Bool-cases (i == b)) [
  | inl d ↦
      let same : i ≡ b = (==_iff i b).0 d in
      let on : w i ≡ true = subst (λ c. w c ≡ true) (sym same) e in
      rw (on, d) (omega (arith, bits-del_above w b (suc i) n (omega arith)))
  | inr d ↦
      let other : i ≢ b = λ same. absurd (ground (arith, (==_iff i b).1 same, d)) in
      rw d (omega (arith, bits-del w b (suc i) n (omega arith) (omega arith) e))
]

bits-del_le : (w : Word) (b i n : ℕ) → bits (update w b false) i n ≤ bits w i n
unfolding bits
bits-del_le w b i zero = omega arith
bits-del_le w b i (suc n) = ground (arith, bits-del_le w b (suc i) n)

-- What the search for an entry leaves is one shorter.
abbrev IsShorter : List Sigqueue → Option (Sigqueue × List Sigqueue) → Type 0
IsShorter qs none = Unit
IsShorter qs (some (q, rest)) = length qs ≡ suc (length rest)

keep-IsShorter :
    (r : Sigqueue) (qs : List Sigqueue) (later : Option (Sigqueue × List Sigqueue))
    → IsShorter qs later
    → IsShorter (r ∷ qs) (elim later [ none ↦ none | some (q, rest) ↦ some (q, r ∷ rest) ])
keep-IsShorter r qs none h = tt
keep-IsShorter r qs (some (q, rest)) h = omega (arith, h)

take_first-IsShorter : (sig : ℕ) (qs : List Sigqueue) → IsShorter qs (take_first sig qs)
unfolding take_first
take_first-IsShorter sig [] = tt
take_first-IsShorter sig (r ∷ qs) =
    if-either (IsShorter (r ∷ qs)) (is_entry_of sig r) (some (r, qs)) _ refl
      (keep-IsShorter r qs (take_first sig qs) (take_first-IsShorter sig qs))

collect-at :
    (sig : ℕ) (s : Sigpending) (users : Users) (found : Option (Sigqueue × List Sigqueue))
    → sig - 1 < nsig
    → s.signal (sig - 1) ≡ true
    → take_first sig s.queue ≡ found
    → IsShorter s.queue found
    → weight_of (collect_signal sig s users).0 < weight_of s
unfolding collect_signal
collect-at sig s users none l on e h =
    rw (e, collect_signal)
      (omega (arith, bits-del s.signal (sig - 1) 0 nsig (omega arith) (omega arith) on))
collect-at sig s users (some (q, rest)) l on e h =
    rw (e, collect_signal)
      (if-either (λ w. length rest + bits w 0 nsig < length s.queue + bits s.signal 0 nsig)
        (has_entry sig rest) s.signal (sigdelset s.signal sig) (omega (arith, h))
        (omega (arith, h, bits-del_le s.signal (sig - 1) 0 nsig)))

-- What a look at a set leaves: as much as before where it finds nothing, and less where it finds a
-- signal.
abbrev IsLess : Process → Process × Option (ℕ × Siginfo) → Type 0
IsLess p (q, none) = weight q ≡ weight p
IsLess p (q, some found) = weight q < weight p

collect_chosen :
    (mask : Word) (s : Sigpending) (users : Users) (sig : ℕ)
    → IsChoice s mask sig
    → (sig == 0) ≡ false
    → weight_of (collect_signal sig s users).0 < weight_of s
collect_chosen mask s users zero c e = absurd (ground (arith, e))
collect_chosen mask s users (suc b) c e =
    collect-at (suc b) s users (take_first (suc b) s.queue) (omega (arith, c.0))
      (ground (arith, c.1)) refl (take_first-IsShorter (suc b) s.queue)

with_pending-weight :
    (p : Process) (group : Bool) (s : Sigpending) (users : Users)
    → weight_of s < weight_of (pending_of p group)
    → weight (with_pending p group s users) < weight p
with_pending-weight p true s users h = omega (arith, h)
with_pending-weight p false s users h = omega (arith, h)

dequeue_from-IsLess :
    (notifier : Option Notifier) (mask : Word) (p : Process) (group : Bool)
    → IsLess p (dequeue_from notifier mask p group)
unfolding dequeue_from
dequeue_from-IsLess notifier mask p group =
    let sig = next_signal (pending_of p group) mask in
    let (s, info, users) = collect_signal sig (pending_of p group) p.users in
    if-cases (IsLess p) (sig == 0) (p, none) _ (λ e. refl)
      (λ e.
        if-either (IsLess p) (holds_back notifier sig) (with_flag p false, none)
          (with_pending p group s users, some (sig, info)) refl
          (with_pending-weight p group s users (
            collect_chosen mask (pending_of p group) p.users sig
              (next_signal-IsChoice (pending_of p group) mask) e)))

recalc-weight : (freezing : Bool) (p : Process) → weight (recalc_sigpending freezing p) ≡ weight p
unfolding recalc_sigpending
recalc-weight freezing p = elim (Bool-cases (has_work p)) [
  | inl h ↦ rw h refl
  | inr h ↦ elim (Bool-cases freezing) [ inl f ↦ rw (h, f) refl | inr f ↦ rw (h, f) refl ]
]

mark_stop-weight : (sig : ℕ) (p : Process) → weight (mark_stop sig p) ≡ weight p
mark_stop-weight sig p = if-either (λ q. weight q ≡ weight p) (sig_kernel_stop sig) _ p refl refl

-- What is left to take after `dequeue_signal`.
abbrev pub IsLighter : Process → Dequeued → Option (ℕ × Siginfo) → Type 0
IsLighter p d none = weight d.process ≡ weight p
IsLighter p d (some found) = weight d.process < weight p

finish-IsLighter :
    (p : Process) (freezing : Bool) (timers : Timers) (b : Bool)
    (r : Process × Option (ℕ × Siginfo))
    → IsLess p r
    → IsLighter p (finish_dequeue freezing timers b r) (finish_dequeue freezing timers b r).taken
unfolding finish_dequeue
finish-IsLighter p freezing timers b (q, none) h = omega (arith, recalc-weight freezing q, h)
finish-IsLighter p freezing timers b (q, some (sig, info)) h =
    omega (arith, mark_stop-weight sig (recalc_sigpending freezing q), recalc-weight freezing q, h)

IsLess-same :
    (p q : Process) (r : Process × Option (ℕ × Siginfo))
    → weight q ≡ weight p
    → IsLess q r
    → IsLess p r
IsLess-same p q (u, none) e h = omega (arith, e, h)
IsLess-same p q (u, some found) e h = omega (arith, e, h)

look_shared-IsLighter :
    (p : Process) (notifier : Option Notifier) (mask : Word) (freezing : Bool) (timers : Timers)
    (r : Process × Option (ℕ × Siginfo))
    → IsLess p r
    → IsLighter p
        (look_shared notifier mask freezing timers r)
        (look_shared notifier mask freezing timers r).taken
unfolding look_shared
look_shared-IsLighter p notifier mask freezing timers (q, some found) h =
    finish-IsLighter p freezing timers false (q, some found) h
look_shared-IsLighter p notifier mask freezing timers (q, none) h =
    finish-IsLighter p freezing timers _ (dequeue_from notifier mask q true) (
      IsLess-same p q (dequeue_from notifier mask q true) h
        (dequeue_from-IsLess notifier mask q true))

-- If `dequeue_signal` takes a signal, fewer entries and bits are left in the private and the shared
-- set together than before; if it takes none, as many are left.
pub dequeue_signal-IsLighter :
    (notifier : Option Notifier) (mask : Word) (freezing : Bool) (timers : Timers) (p : Process)
    → IsLighter p
        (dequeue_signal notifier mask freezing timers p)
        (dequeue_signal notifier mask freezing timers p).taken
unfolding dequeue_signal
dequeue_signal-IsLighter notifier mask freezing timers p =
    look_shared-IsLighter p notifier mask freezing timers (dequeue_from notifier mask p false)
      (dequeue_from-IsLess notifier mask p false)
