-- ===== src/Signal/Deliver/Loop/Ends.antt =====
-- The rounds of `get_signal_to_deliver` that end with `continue` come to an end (signal.c).
use linux_ker_dev.Prelude.{
  ℕ, zero, suc, ◌-◌, ◌≡◌, ◌≢◌, ◌⊎◌, ◌<◌, ◌≤◌, refl, sym, ◌∙◌, subst, arith, false, not, ◌||◌, ◌&&◌,
  List, [], ◌++◌, Option, none, some, inl, inr, test_mask, if-either, if-cases, ◌==◌,
}
use linux_ker_dev.Signal.Numbers.{
  sigkill, sigstop, sig_kernel_stop, sig_kernel_ignore, signal_unkillable, jobctl_stop_pending,
  jobctl_stop_dequeued,
}
use linux_ker_dev.Signal.Types.{Siginfo, Process, is_group_exit}
use linux_ker_dev.Signal.Send.{is_sig_dfl, is_sig_ign}
use linux_ker_dev.Signal.Actions.{sig_kernel_only}
use linux_ker_dev.Signal.Dequeue.{Dequeued}
use linux_ker_dev.Signal.Dequeue.Keeps.{dequeue_signal-Unmoved}
use linux_ker_dev.Signal.Dequeue.Weight.{weight, dequeue_signal-IsLighter, IsLighter}
use linux_ker_dev.Signal.Stop.{
  StopReply, not_stopped, slept, join_stop, initiate_stop, do_signal_stop,
}
use linux_ker_dev.Signal.Stop.Count.{initiate-untraced}
use linux_ker_dev.Signal.Deliver.{Host}
use linux_ker_dev.Signal.Deliver.Trap.{Notice}
use linux_ker_dev.Signal.Deliver.Loop.{
  Verdict, again, relock, nothing, run_handler, group_exit, Round, round, after_stop, stop_by,
  default_action, hand_over, act_on, take_signal, dequeue_next, with_taken, look_for_signal,
  unless_slept, loop_round, rounds, jobctl_trap_mask,
}

-- Without a sleep, `do_signal_stop` of an untraced thread changes nothing.
abbrev pub IsSame : Process → Process × StopReply → Type 0
IsSame p (q, not_stopped) = q ≡ p
IsSame p (q, slept notify) = Unit

join-IsSame : (p q : Process) → q.self.ptraced ≡ false → IsSame p (join_stop q)
unfolding join_stop
join-IsSame p q u =
    if-cases (IsSame p) (not q.self.ptraced) _ _ (λ e. tt) (λ e. absurd (ground (arith, u, e)))

pub stop-IsSame :
    (signr : ℕ) (p : Process) → p.self.ptraced ≡ false → IsSame p (do_signal_stop signr p)
unfolding do_signal_stop
stop-IsSame signr p u =
    if-either (IsSame p) (test_mask p.self.jobctl jobctl_stop_pending) (join_stop p) _
      (join-IsSame p p u)
      (if-either (IsSame p)
        (not (test_mask p.self.jobctl jobctl_stop_dequeued) || is_group_exit p.signal)
        (p, not_stopped) (join_stop (initiate_stop signr p)) refl
        (join-IsSame p (initiate_stop signr p) (initiate-untraced signr p u)))

-- A round that is to be followed by another leaves an untraced thread with less than `m` to take.
abbrev pub Settles : ℕ → Round → Type 0
Settles m r = r.verdict ≡ again → (weight r.process < m) × (r.process.self.ptraced ≡ false)

module _ (host : Host) (m : ℕ) where
  after_stop-Settles :
      (p : Process) (notices : List Notice) (r : Process × StopReply)
      → weight p < m
      → p.self.ptraced ≡ false
      → IsSame p r
      → Settles m (after_stop host notices again r)
  after_stop-Settles p notices (q, not_stopped) l u same h =
      (subst (λ x. weight x < m) (sym same) l, subst (λ x. x.self.ptraced ≡ false) (sym same) u)
  after_stop-Settles p notices (q, slept notify) l u same h = cc

  -- What is posted while the thread has dropped its lock is out of account.
  stop_by-Settles :
      (signr : ℕ) (info : Siginfo) (p : Process) (notices : List Notice)
      → ((q : Process) → host.window q ≡ q)
      → weight p < m
      → p.self.ptraced ≡ false
      → Settles m (stop_by host notices signr info p)
  unfolding stop_by
  stop_by-Settles signr info p notices quiet l u =
      let stopping =
        after_stop-Settles p notices (do_signal_stop info.si_signo p) l u
          (stop-IsSame info.si_signo p u) in
      if-either (Settles m) (not (signr == sigstop)) _
        (after_stop host notices again (do_signal_stop info.si_signo p))
        (if-either (Settles m) host.orphaned (round (host.window p) notices relock) _ (λ h. cc)
          (subst (λ q. Settles m (after_stop host notices again (do_signal_stop info.si_signo q)))
            (sym (quiet p)) stopping))
        stopping

  default_action-Settles :
      (signr : ℕ) (info : Siginfo) (p : Process) (notices : List Notice)
      → ((q : Process) → host.window q ≡ q)
      → weight p < m
      → p.self.ptraced ≡ false
      → Settles m (default_action host notices signr info p)
  unfolding default_action
  default_action-Settles signr info p notices quiet l u =
      if-either (Settles m) (sig_kernel_ignore signr) (round p notices again) _ (λ h. (l, u))
        (if-either (Settles m)
          (test_mask p.signal.flags signal_unkillable && not (sig_kernel_only signr))
          (round p notices again) _ (λ h. (l, u))
          (if-either (Settles m) (sig_kernel_stop signr) (stop_by host notices signr info p) _
            (stop_by-Settles signr info p notices quiet l u) (λ h. cc)))

  act_on-Settles :
      (signr : ℕ) (info : Siginfo) (p : Process) (notices : List Notice)
      → ((q : Process) → host.window q ≡ q)
      → weight p < m
      → p.self.ptraced ≡ false
      → Settles m (act_on host notices signr info p)
  unfolding act_on
  act_on-Settles signr info p notices quiet l u =
      let ka = p.action (signr - 1) in
      if-either (Settles m) (is_sig_ign ka.sa_handler) (round p notices again) _ (λ h. (l, u))
        (if-either (Settles m) (not (is_sig_dfl ka.sa_handler)) (hand_over notices signr info p)
          (default_action host notices signr info p) (λ h. cc)
          (default_action-Settles signr info p notices quiet l u))

  taken-Settles :
      (p : Process) (d : Dequeued) (taken : Option (ℕ × Siginfo))
      → ((q : Process) → host.window q ≡ q)
      → IsLighter p d taken
      → weight p ≤ m
      → d.process.self.ptraced ≡ false
      → Settles m (with_taken host d.process taken)
  unfolding take_signal
  taken-Settles p d none quiet l b u = λ h. cc
  taken-Settles p d (some (signr, info)) quiet l b u =
      if-cases (Settles m) (d.process.self.ptraced && not (signr == sigkill)) _
        (act_on host [] signr info d.process) (λ e. absurd (ground (arith, u, e)))
        (λ e. act_on-Settles signr info d.process [] quiet (omega (arith, l, b)) u)

look-Settles :
    (host : Host) (p : Process)
    → ((q : Process) → host.window q ≡ q)
    → p.self.ptraced ≡ false
    → Settles (weight p) (look_for_signal host p)
unfolding look_for_signal
look-Settles host p quiet u =
    let d = dequeue_next host p in
    let same = dequeue_signal-Unmoved host.notifier p.self.blocked host.freezing host.timers p in
    let less = dequeue_signal-IsLighter host.notifier p.self.blocked host.freezing host.timers p in
    if-either (Settles (weight p)) (test_mask p.self.jobctl jobctl_trap_mask) _
      (with_taken host d.process d.taken) (λ h. cc)
      (taken-Settles host (weight p) p d d.taken quiet less (omega arith) (same.ptraced ∙ u))

unless_slept-Settles :
    (host : Host) (p : Process) (r : Process × StopReply)
    → ((q : Process) → host.window q ≡ q)
    → p.self.ptraced ≡ false
    → IsSame p r
    → Settles (weight p) (unless_slept host r)
unless_slept-Settles host p (q, not_stopped) quiet u same =
    subst (λ x. Settles (weight p) (look_for_signal host x)) (sym same)
      (look-Settles host p quiet u)
unless_slept-Settles host p (q, slept notify) quiet u same = λ h. cc

round-Settles :
    (host : Host) (p : Process)
    → ((q : Process) → host.window q ≡ q)
    → p.self.ptraced ≡ false
    → Settles (weight p) (loop_round host p)
unfolding loop_round
round-Settles host p quiet u =
    if-either (Settles (weight p)) (test_mask p.self.jobctl jobctl_stop_pending)
      (unless_slept host (do_signal_stop 0 p)) (look_for_signal host p)
      (unless_slept-Settles host p (do_signal_stop 0 p) quiet u (stop-IsSame 0 p u))
      (look-Settles host p quiet u)

-- The rounds have ended with another verdict than `continue`.
abbrev pub HasEnded : Option Round → Type 0
HasEnded o = (r : Round) × (o ≡ some r) × (r.verdict ≢ again)

abbrev ended : Host → Process → List Notice → Round
ended host p notices = let r = loop_round host p in round r.process (notices ++ r.notices) r.verdict

unless_again :
    (v : Verdict) (more : Option Round) (r : Round)
    → v ≢ again
    → elim v [ again ↦ more | _ ↦ some r ] ≡ some r
unless_again again more r other = absurd (other refl)
unless_again relock more r other = refl
unless_again nothing more r other = refl
unless_again (run_handler sig info ka) more r other = refl
unless_again (group_exit sig code core) more r other = refl

rounds_stop :
    (host : Host) (fuel : ℕ) (p : Process) (notices : List Notice)
    → (loop_round host p).verdict ≢ again
    → HasEnded (rounds host (suc fuel) p notices)
unfolding rounds
rounds_stop host fuel p notices other = (
  ended host p notices,
  unless_again (loop_round host p).verdict _ (ended host p notices) other,
  other,
)

rounds_again :
    (host : Host) (fuel : ℕ) (p : Process) (notices : List Notice)
    → (loop_round host p).verdict ≡ again
    → rounds host (suc fuel) p notices
      ≡ rounds host fuel (loop_round host p).process (notices ++ (loop_round host p).notices)
unfolding rounds
rounds_again host fuel p notices e = rw (e, rounds) refl

again-or-other : (v : Verdict) → (v ≡ again) ⊎ (v ≢ again)
again-or-other again = inl refl
again-or-other relock = inr (λ h. cc)
again-or-other nothing = inr (λ h. cc)
again-or-other (run_handler sig info ka) = inr (λ h. cc)
again-or-other (group_exit sig code core) = inr (λ h. cc)

-- For an untraced thread to which nothing is posted while it has dropped its lock, fuel for one
-- round more than the entries and bits of its private and shared pending signals is enough for the
-- rounds of `get_signal_to_deliver` to end with something else than `continue`.
pub rounds_end :
    (host : Host) (fuel : ℕ) (p : Process) (notices : List Notice)
    → ((q : Process) → host.window q ≡ q)
    → p.self.ptraced ≡ false
    → weight p < fuel
    → HasEnded (rounds host fuel p notices)
rounds_end host zero p notices quiet u l = absurd (omega arith)
rounds_end host (suc fuel) p notices quiet u l = elim (again-or-other (loop_round host p).verdict) [
  | inr other ↦ rounds_stop host fuel p notices other
  | inl e ↦
      let (less, untraced) = round-Settles host p quiet u e in
      rw (rounds_again host fuel p notices e) (
        rounds_end host fuel (loop_round host p).process (notices ++ (loop_round host p).notices)
          quiet untraced (omega (arith, less, l)))
]
