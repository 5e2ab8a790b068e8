-- ===== src/Signal/Deliver/Loop/Chosen.antt =====
-- What a round of `get_signal_to_deliver` gives (signal.c).
use linux_ker_dev.Prelude.{
  ℕ, ◌-◌, ◌≡◌, refl, sym, ◌∙◌, subst, arith, Bool, true, false, not, ◌&&◌, List, [], Option, none,
  some, Word, test_mask, if-either, if-cases, ◌==◌,
}
use linux_ker_dev.Signal.Numbers.{
  sigkill, sigstop, sig_kernel_stop, sig_kernel_ignore, sig_kernel_coredump, signal_unkillable,
  jobctl_stop_pending,
}
use linux_ker_dev.Signal.Types.{Siginfo, KSigaction, Process}
use linux_ker_dev.Signal.Send.{is_sig_dfl, is_sig_ign}
use linux_ker_dev.Signal.Actions.{sig_kernel_only}
use linux_ker_dev.Signal.Dequeue.{dequeue_signal}
use linux_ker_dev.Signal.Dequeue.Keeps.{dequeue_signal-Unmoved}
use linux_ker_dev.Signal.Dequeue.Taken.{IsTaken, dequeue_signal_lem}
use linux_ker_dev.Signal.Stop.{StopReply, not_stopped, slept, do_signal_stop}
use linux_ker_dev.Signal.Deliver.{Host}
use linux_ker_dev.Signal.Deliver.Trap.{Notice}
use linux_ker_dev.Signal.Deliver.Loop.{
  Verdict, again, relock, nothing, run_handler, group_exit, Round, round, after_stop, stop_by,
  default_action, hand_over, act_on, take_signal, dequeue_next, with_taken, look_for_signal,
  unless_slept, loop_round, jobctl_trap_mask,
}
use linux_ker_dev.Signal.Deliver.Loop.Ends.{IsSame, stop-IsSame}

-- A verdict that fits the actions, the flags of the group and the facts on the signal that is taken,
-- or on there being none.
abbrev pub Fits : (ℕ → KSigaction) → Word → (ℕ → Siginfo → Type 0) → Type 0 → Verdict → Type 0
Fits action flags Taken Empty (run_handler sig info ka) =
    Taken sig info
    × (ka ≡ action (sig - 1))
    × (is_sig_ign ka.sa_handler ≡ false)
    × (is_sig_dfl ka.sa_handler ≡ false)
Fits action flags Taken Empty (group_exit sig code core) =
    ((info : Siginfo) × Taken sig info × (code ≡ info.si_signo))
    × (is_sig_dfl (action (sig - 1)).sa_handler ≡ true)
    × (sig_kernel_ignore sig ≡ false)
    × (sig_kernel_stop sig ≡ false)
    × (test_mask flags signal_unkillable ≡ true → sig ≡ sigkill)
    × (core ≡ sig_kernel_coredump sig)
Fits action flags Taken Empty nothing = Empty
Fits action flags Taken Empty _ = Unit

-- The only signals that the kernel keeps for itself and that do not stop are SIGKILL.
killed_only :
    (u : Bool) (sig : ℕ)
    → (u && not (sig_kernel_only sig)) ≡ false
    → sig_kernel_stop sig ≡ false
    → u ≡ true
    → sig ≡ sigkill
killed_only u sig h k e = ground (arith, h, k, e)

module _ (host : Host) (Taken : ℕ → Siginfo → Type 0) (Empty : Type 0) where
  abbrev FitsAt : Process → Round → Type 0
  FitsAt p r = Fits p.action p.signal.flags Taken Empty r.verdict

  after_stop-Fits :
      (p : Process) (notices : List Notice) (r : Process × StopReply)
      → FitsAt p (after_stop host notices again r)
  after_stop-Fits p notices (q, not_stopped) = tt
  after_stop-Fits p notices (q, slept notify) = tt

  stop_by-Fits :
      (sig : ℕ) (info : Siginfo) (p : Process) (notices : List Notice)
      → FitsAt p (stop_by host notices sig info p)
  unfolding stop_by
  stop_by-Fits sig info p notices =
      if-either (FitsAt p) (not (sig == sigstop)) _
        (after_stop host notices again (do_signal_stop info.si_signo p))
        (if-either (FitsAt p) host.orphaned (round (host.window p) notices relock)
          (after_stop host notices again (do_signal_stop info.si_signo (host.window p))) tt
          (after_stop-Fits p notices _))
        (after_stop-Fits p notices (do_signal_stop info.si_signo p))

  default_action-Fits :
      (sig : ℕ) (info : Siginfo) (p : Process) (notices : List Notice)
      → Taken sig info
      → is_sig_dfl (p.action (sig - 1)).sa_handler ≡ true
      → FitsAt p (default_action host notices sig info p)
  unfolding default_action
  default_action-Fits sig info p notices t d =
      if-cases (FitsAt p) (sig_kernel_ignore sig) (round p notices again) _ (λ e. tt)
        (λ e.
          if-cases (FitsAt p)
            (test_mask p.signal.flags signal_unkillable && not (sig_kernel_only sig))
            (round p notices again) _ (λ f. tt)
            (λ f.
              if-cases (FitsAt p) (sig_kernel_stop sig) (stop_by host notices sig info p) _
                (λ k. stop_by-Fits sig info p notices)
                (λ k. (
                  (info, t, refl),
                  d,
                  e,
                  k,
                  killed_only (test_mask p.signal.flags signal_unkillable) sig f k,
                  refl,
                ))))

  act_on-Fits :
      (sig : ℕ) (info : Siginfo) (p : Process) (notices : List Notice)
      → Taken sig info
      → FitsAt p (act_on host notices sig info p)
  unfolding act_on
  act_on-Fits sig info p notices t =
      let ka = p.action (sig - 1) in
      if-cases (FitsAt p) (is_sig_ign ka.sa_handler) (round p notices again) _ (λ i. tt)
        (λ i.
          if-cases (FitsAt p) (not (is_sig_dfl ka.sa_handler)) (hand_over notices sig info p)
            (default_action host notices sig info p) (λ d. (t, refl, i, ground (arith, d)))
            (λ d. default_action-Fits sig info p notices t (ground (arith, d))))

  abbrev OneOf : Option (ℕ × Siginfo) → Type 0
  OneOf none = Empty
  OneOf (some (sig, info)) = Taken sig info

  taken-Fits :
      (p : Process) (taken : Option (ℕ × Siginfo))
      → p.self.ptraced ≡ false
      → OneOf taken
      → FitsAt p (with_taken host p taken)
  unfolding take_signal
  taken-Fits p none u t = t
  taken-Fits p (some (sig, info)) u t =
      if-cases (FitsAt p) (p.self.ptraced && not (sig == sigkill)) _ (act_on host [] sig info p)
        (λ e. absurd (ground (arith, u, e))) (λ e. act_on-Fits sig info p [] t)

-- The signal is the one that is to be taken, with the record that `dequeue_signal` gives for it.
abbrev pub IsTakenWith : Host → Process → ℕ → Siginfo → Type 0
IsTakenWith host p sig info =
    IsTaken p.self.blocked p (some (sig, info)) × ((dequeue_next host p).taken ≡ some (sig, info))

-- The verdict fits what the thread had pending, with the actions and the flags of its group.
abbrev pub IsFitting : Host → Process → Verdict → Type 0
IsFitting host p v =
    Fits p.action p.signal.flags (IsTakenWith host p) (IsTaken p.self.blocked p none) v

module _ (host : Host) (p : Process) where
  abbrev TakenOf : ℕ → Siginfo → Type 0
  TakenOf sig info = IsTakenWith host p sig info

  abbrev EmptyOf : Type 0
  EmptyOf = IsTaken p.self.blocked p none

  one_of :
      (taken : Option (ℕ × Siginfo))
      → (dequeue_next host p).taken ≡ taken
      → IsTaken p.self.blocked p taken
      → OneOf host TakenOf EmptyOf taken
  one_of none e h = h
  one_of (some (sig, info)) e h = (h, e)

  dequeued-OneOf : host.notifier ≡ none → OneOf host TakenOf EmptyOf (dequeue_next host p).taken
  dequeued-OneOf n = one_of (dequeue_next host p).taken refl (
      subst
        (λ o.
          IsTaken p.self.blocked p
            (dequeue_signal o p.self.blocked host.freezing host.timers p).taken)
        (sym n) (dequeue_signal_lem p.self.blocked host.freezing host.timers p))

  look-Fits :
      host.notifier ≡ none
      → p.self.ptraced ≡ false
      → IsFitting host p (look_for_signal host p).verdict
  unfolding look_for_signal
  look-Fits n u =
      let d = dequeue_next host p in
      let same = dequeue_signal-Unmoved host.notifier p.self.blocked host.freezing host.timers p in
      let fits =
        taken-Fits host TakenOf EmptyOf d.process d.taken (same.ptraced ∙ u) (dequeued-OneOf n) in
      let v = (with_taken host d.process d.taken).verdict in
      if-either (λ (r : Round). IsFitting host p r.verdict)
        (test_mask p.self.jobctl jobctl_trap_mask) _ (with_taken host d.process d.taken) tt
        (subst (λ a. Fits a p.signal.flags TakenOf EmptyOf v) same.action
          (subst (λ f. Fits d.process.action f TakenOf EmptyOf v) same.flags fits))

  slept-Fits :
      (r : Process × StopReply)
      → host.notifier ≡ none
      → p.self.ptraced ≡ false
      → IsSame p r
      → IsFitting host p (unless_slept host r).verdict
  slept-Fits (q, not_stopped) n u same =
      subst (λ x. IsFitting host p (look_for_signal host x).verdict) (sym same) (look-Fits n u)
  slept-Fits (q, slept notify) n u same = tt

-- For an untraced thread without a notifier, a round of `get_signal_to_deliver` that ends with a
-- handler gives it the signal that is to be taken first of those that the thread does not block,
-- with the record that `dequeue_signal` gives for it, and the action of this signal, which neither
-- ignores it nor is the default; one that ends with the death of the group does so for such a
-- signal whose action is the default and that is neither ignored nor a stop by default, with the
-- number in the record that `dequeue_signal` gives as the code, and only for SIGKILL if the group
-- is unkillable; and one that ends with no signal has none pending that the thread does not block.
pub round_fits :
    (host : Host) (p : Process)
    → host.notifier ≡ none
    → p.self.ptraced ≡ false
    → IsFitting host p (loop_round host p).verdict
unfolding loop_round
round_fits host p n u =
    if-either (λ (r : Round). IsFitting host p r.verdict)
      (test_mask p.self.jobctl jobctl_stop_pending) (unless_slept host (do_signal_stop 0 p))
      (look_for_signal host p) (slept-Fits host p (do_signal_stop 0 p) n u (stop-IsSame 0 p u))
      (look-Fits host p n u)
