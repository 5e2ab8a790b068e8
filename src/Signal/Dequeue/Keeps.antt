-- ===== src/Signal/Dequeue/Keeps.antt =====
-- What taking a signal leaves alone (signal.c, `dequeue_signal`).
use linux_ker_dev.Prelude.{
  ℕ, ◌≡◌, refl, ◌∙◌, Bool, true, false, Option, none, some, inl, inr, Word, Bool-cases, if-either,
  ◌==◌,
}
use linux_ker_dev.Signal.Numbers.{sig_kernel_stop}
use linux_ker_dev.Signal.Types.{Siginfo, Sigpending, Users, Process}
use linux_ker_dev.Signal.Pending.{next_signal, collect_signal}
use linux_ker_dev.Signal.Enqueue.{pending_of, with_pending}
use linux_ker_dev.Signal.Dequeue.{
  Notifier, Timers, dequeue_signal, dequeue_from, look_shared, finish_dequeue, recalc_sigpending,
  mark_stop, with_flag, holds_back, has_work,
}

-- The thread blocks and ignores the same signals, is traced as before, and its group has its flags.
pub record Unmoved (p q : Process) : Type 0 where
  pub blocked : q.self.blocked ≡ p.self.blocked
  pub real : q.self.real_blocked ≡ p.self.real_blocked
  pub saved : q.self.saved_sigmask ≡ p.self.saved_sigmask
  pub ptraced : q.self.ptraced ≡ p.self.ptraced
  pub action : q.action ≡ p.action
  pub flags : q.signal.flags ≡ p.signal.flags

pub same-Unmoved : (p : Process) → Unmoved p p
same-Unmoved p = record {
  blocked = refl;
  real = refl;
  saved = refl;
  ptraced = refl;
  action = refl;
  flags = refl;
}

pub next-Unmoved : (p q r : Process) → Unmoved p q → Unmoved q r → Unmoved p r
next-Unmoved p q r a b = record {
  blocked = b.blocked ∙ a.blocked;
  real = b.real ∙ a.real;
  saved = b.saved ∙ a.saved;
  ptraced = b.ptraced ∙ a.ptraced;
  action = b.action ∙ a.action;
  flags = b.flags ∙ a.flags;
}

with_flag-Unmoved : (p : Process) (flag : Bool) → Unmoved p (with_flag p flag)
with_flag-Unmoved p flag = record {
  blocked = refl;
  real = refl;
  saved = refl;
  ptraced = refl;
  action = refl;
  flags = refl;
}

pub recalc-Unmoved : (freezing : Bool) (p : Process) → Unmoved p (recalc_sigpending freezing p)
unfolding recalc_sigpending
recalc-Unmoved freezing p = elim (Bool-cases (has_work p)) [
  | inl h ↦ rw h (with_flag-Unmoved p true)
  | inr h ↦ elim (Bool-cases freezing) [
    | inl f ↦ rw (h, f) (same-Unmoved p)
    | inr f ↦ rw (h, f) (with_flag-Unmoved p false)
  ]
]

mark_stop-Unmoved : (sig : ℕ) (p : Process) → Unmoved p (mark_stop sig p)
mark_stop-Unmoved sig p =
    if-either (Unmoved p) (sig_kernel_stop sig) _ p
      (record {
        blocked = refl;
        real = refl;
        saved = refl;
        ptraced = refl;
        action = refl;
        flags = refl;
      })
      (same-Unmoved p)

with_pending-Unmoved :
    (p : Process) (group : Bool) (s : Sigpending) (users : Users)
    → Unmoved p (with_pending p group s users)
with_pending-Unmoved p true s users = record {
  blocked = refl;
  real = refl;
  saved = refl;
  ptraced = refl;
  action = refl;
  flags = refl;
}
with_pending-Unmoved p false s users = record {
  blocked = refl;
  real = refl;
  saved = refl;
  ptraced = refl;
  action = refl;
  flags = refl;
}

dequeue_from-Unmoved :
    (notifier : Option Notifier) (mask : Word) (p : Process) (group : Bool)
    → Unmoved p (dequeue_from notifier mask p group).0
unfolding dequeue_from
dequeue_from-Unmoved notifier mask p group =
    let sig = next_signal (pending_of p group) mask in
    let (s, info, users) = collect_signal sig (pending_of p group) p.users in
    if-either (λ (r : Process × Option (ℕ × Siginfo)). Unmoved p r.0) (sig == 0) (p, none) _
      (same-Unmoved p)
      (if-either (λ (r : Process × Option (ℕ × Siginfo)). Unmoved p r.0) (holds_back notifier sig)
        (with_flag p false, none) (with_pending p group s users, some (sig, info))
        (with_flag-Unmoved p false) (with_pending-Unmoved p group s users))

finish-Unmoved :
    (freezing : Bool) (timers : Timers) (restarted : Bool) (r : Process × Option (ℕ × Siginfo))
    → Unmoved r.0 (finish_dequeue freezing timers restarted r).process
unfolding finish_dequeue
finish-Unmoved freezing timers restarted (q, none) = recalc-Unmoved freezing q
finish-Unmoved freezing timers restarted (q, some (sig, info)) =
    next-Unmoved q (recalc_sigpending freezing q) _ (recalc-Unmoved freezing q)
      (mark_stop-Unmoved sig (recalc_sigpending freezing q))

look_shared-Unmoved :
    (notifier : Option Notifier) (mask : Word) (freezing : Bool) (timers : Timers)
    (r : Process × Option (ℕ × Siginfo))
    → Unmoved r.0 (look_shared notifier mask freezing timers r).process
unfolding look_shared
look_shared-Unmoved notifier mask freezing timers (q, some found) =
    finish-Unmoved freezing timers false (q, some found)
look_shared-Unmoved notifier mask freezing timers (q, none) =
    next-Unmoved q (dequeue_from notifier mask q true).0 _
      (dequeue_from-Unmoved notifier mask q true)
      (finish-Unmoved freezing timers _ (dequeue_from notifier mask q true))

pub dequeue_signal-Unmoved :
    (notifier : Option Notifier) (mask : Word) (freezing : Bool) (timers : Timers) (p : Process)
    → Unmoved p (dequeue_signal notifier mask freezing timers p).process
unfolding dequeue_signal
dequeue_signal-Unmoved notifier mask freezing timers p =
    let r = dequeue_from notifier mask p false in
    next-Unmoved p r.0 _ (dequeue_from-Unmoved notifier mask p false)
      (look_shared-Unmoved notifier mask freezing timers r)
