-- ===== src/Signal/Enqueue/Forced.antt =====
-- A forced signal is neither ignored nor lost (signal.c, `force_sig_info`).
use linux_ker_dev.Prelude.{
  ℕ, ◌-◌, ◌≡◌, ◌<◌, refl, sym, subst, Bool, true, false, not, ◌&&◌, none, some, Option, inl, inr,
  arith, ◌==◌, pos, ℤ, Bool-cases, test_mask, if-cases, if-either, leb, ltb, if◌then◌else◌, update,
}
use linux_ker_dev.Signal.Numbers.{
  sigcont, sigrtmin, sig_kernel_stop, sig_kernel_ignore, signal_group_exit, signal_unkillable,
  jobctl_pending_mask,
}
use linux_ker_dev.Signal.Types.{
  Info, Task, Process, Sigpending, Users, sigismember, sigaddset, sigdelset, sig_dfl, is_si_special,
  si_fromuser,
}
use linux_ker_dev.Signal.Jobctl.Clear.{clear-SameBut}
use linux_ker_dev.Signal.Pending.Choice.{true_ne_false}
use linux_ker_dev.Signal.Send.{
  sig_ignored, sig_handler, is_sig_dfl, is_sig_ign, prepare_effects, prepare_signal,
  complete_signal, choose_target, wake_target, kill_thread,
}
use linux_ker_dev.Signal.Enqueue.{
  Sender, is_forced, not_from_kill, enqueue, enqueue_charged, sigqueue_alloc, legacy_queue,
  with_pending, post_with, post_signal, send_signal_ns, send_signal, open_forced, make_killable,
  force_sig_info, recalc_sigpending_and_wake, may_override,
}

-- A private signal that is pending.
abbrev pub IsPrivate : ℕ → Process → Type 0
IsPrivate sig p = sigismember p.self.pending.signal sig ≡ true

kill_thread-pending :
    (sig : ℕ) (t : Task)
    → sigismember t.pending.signal sig ≡ true
    → sigismember (kill_thread t).pending.signal sig ≡ true
unfolding kill_thread
kill_thread-pending sig t h = ground (arith, h, (clear-SameBut t jobctl_pending_mask).pending)

wake_self-IsPrivate :
    (sig : ℕ) (p : Process) → IsPrivate sig p → IsPrivate sig (wake_target sig 0 p)
unfolding wake_target
wake_self-IsPrivate sig p h = ground (arith, kill_thread-pending sig p.self h)

complete-IsPrivate :
    (sig : ℕ) (p : Process) → IsPrivate sig p → IsPrivate sig (complete_signal sig p false)
unfolding complete_signal choose_target
complete-IsPrivate sig p h = ground (arith, wake_self-IsPrivate sig p h)

-- The queueing has not refused the signal, and the set holds it.
abbrev IsMarked : ℕ → Option Sigpending × Users → Type 0
IsMarked sig (none, users) = ⊥
IsMarked sig (some s, users) = sigismember s.signal sig ≡ true

charged-IsMarked :
    (sender : Sender) (sig : ℕ) (info : Info) (ns : Bool) (s : Sigpending) (r : Option ℕ × Users)
    → sig < sigrtmin
    → IsMarked sig (enqueue_charged sender sig info ns s r)
unfolding enqueue_charged
charged-IsMarked sender sig info ns s (some user, users) l = ground arith
charged-IsMarked sender sig info ns s (none, users) l =
    let low : leb sigrtmin sig ≡ false = ground arith in
    if-cases (IsMarked sig) (not (is_si_special info) && (leb sigrtmin sig && not_from_kill info))
      (none, users) (some (record s { signal = sigaddset s.signal sig }), users)
      (λ e. ground (arith, low, e)) (λ e. ground arith)

enqueue-IsMarked :
    (sender : Sender) (sig : ℕ) (info : Info) (ns : Bool) (t : Task) (s : Sigpending)
    (users : Users)
    → sig < sigrtmin
    → IsMarked sig (enqueue sender sig info ns t s users)
unfolding enqueue
enqueue-IsMarked sender sig info ns t s users l =
    let charged =
      sigqueue_alloc sender t (if ltb sig sigrtmin then may_override info else false) users in
    if-either (IsMarked sig) (is_forced info)
      (some (record s { signal = sigaddset s.signal sig }), users)
      (enqueue_charged sender sig info ns s charged) (ground arith)
      (charged-IsMarked sender sig info ns s charged l)

-- The signal is pending for the thread, and the value is 0.
abbrev IsDelivered : ℕ → Process × ℤ → Type 0
IsDelivered sig (p, value) = IsPrivate sig p × (value ≡ pos 0)

posted-IsDelivered :
    (sig : ℕ) (p : Process) (r : Option Sigpending × Users)
    → IsMarked sig r
    → IsDelivered sig (post_with sig p false r)
unfolding post_with
posted-IsDelivered sig p (none, users) h = absurd h
posted-IsDelivered sig p (some s, users) h =
    (complete-IsPrivate sig (with_pending p false s users) h, refl)

post-IsDelivered :
    (sender : Sender) (sig : ℕ) (info : Info) (p : Process) (ns : Bool)
    → sig < sigrtmin
    → IsDelivered sig (post_signal sender sig info p false ns)
unfolding post_signal
post-IsDelivered sender sig info p ns l =
    if-cases (IsDelivered sig) (legacy_queue p.self.pending sig) (p, pos 0)
      (post_with sig p false (enqueue sender sig info ns p.self p.self.pending p.users))
      (λ e. (ground (arith, e), refl))
      (λ e.
        posted-IsDelivered sig p (enqueue sender sig info ns p.self p.self.pending p.users)
          (enqueue-IsMarked sender sig info ns p.self p.self.pending p.users l))

-- A group that is not exiting, and that takes the signal for its default action, as one that it
-- cannot refuse, or for a handler of its own.
pub record IsOpen (sig : ℕ) (p : Process) : Type 0 where
  pub alive : test_mask p.signal.flags signal_group_exit ≡ false
  pub heard : is_sig_ign (sig_handler p sig) ≡ false
  pub killable :
      is_sig_dfl (sig_handler p sig) ≡ true → test_mask p.signal.flags signal_unkillable ≡ false

heard_lem :
    (sig : ℕ) (p : Process) (ns : Bool)
    → IsOpen sig p
    → sig_kernel_ignore sig ≡ false
    → sig_ignored p sig ns ≡ false
unfolding sig_ignored
heard_lem sig p ns o k = ground (arith, o.heard, o.killable, k)

send-IsDelivered :
    (sender : Sender) (sig : ℕ) (info : Info) (p : Process)
    → sig < sigrtmin
    → sig_kernel_ignore sig ≡ false
    → sig_kernel_stop sig ≡ false
    → (sig == sigcont) ≡ false
    → IsOpen sig p
    → IsDelivered sig (send_signal sender sig info p false)
unfolding send_signal send_signal_ns prepare_signal prepare_effects
send-IsDelivered sender sig info p l k s c o =
    let ns = si_fromuser info && sender.pid_in_ns == 0 in
    let kept : prepare_effects sig p ≡ p = rw (o.alive, s, c) refl in
    rw (kept, heard_lem sig p ns o k) (post-IsDelivered sender sig info p ns l)

-- What `recalc_sigpending_and_wake` leaves alone.
recalc_keeps :
    (p : Process)
    → ((recalc_sigpending_and_wake p).signal ≡ p.signal)
      × ((recalc_sigpending_and_wake p).action ≡ p.action)
unfolding recalc_sigpending_and_wake
recalc_keeps p = ground arith

abbrev with_default : ℕ → Process → Process
with_default sig p = record p {
  action = update p.action (sig - 1) (record (p.action (sig - 1)) { sa_handler = sig_dfl });
}

default_heard : (sig : ℕ) (p : Process) → is_sig_ign (sig_handler (with_default sig p) sig) ≡ false
default_heard sig p = ground arith

open_heard :
    (sig : ℕ) (p : Process)
    → ((open_forced sig p).signal ≡ p.signal)
      × (is_sig_ign (sig_handler (open_forced sig p) sig) ≡ false)
unfolding open_forced
open_heard sig p = elim (Bool-cases (sigismember p.self.blocked sig)) [
  | inl b ↦
      let q : Process = record (with_default sig p) {
        self = record p.self { blocked = sigdelset p.self.blocked sig };
      } in
      let (same, table) = recalc_keeps q in
      rw b (
        same,
        subst (λ t. is_sig_ign (t (sig - 1)).sa_handler ≡ false) (sym table) (default_heard sig p),
      )
  | inr b ↦ elim (Bool-cases (is_sig_ign (sig_handler p sig))) [
    | inl i ↦ rw (b, i) (refl, default_heard sig p)
    | inr i ↦ rw (b, i) (refl, i)
  ]
]

killable-IsOpen :
    (sig : ℕ) (p : Process)
    → test_mask p.signal.flags signal_group_exit ≡ false
    → is_sig_ign (sig_handler p sig) ≡ false
    → IsOpen sig (make_killable sig p)
unfolding make_killable
killable-IsOpen sig p a h = elim (Bool-cases (is_sig_dfl (sig_handler p sig))) [
  | inl e ↦ rw e (record { alive = ground (arith, a); heard = h; killable = λ k. ground arith })
  | inr e ↦ rw e (record { alive = a; heard = h; killable = λ k. absurd (true_ne_false k e) })
]

-- If the group is not exiting and the signal is below the real-time ones, is not ignored by
-- default and is neither a stop signal nor SIGCONT, then `force_sig_info` returns 0 with the
-- signal pending for the thread, whether it was blocked, ignored, or refused by a group that is
-- marked unkillable, and whatever the limits and the memory allow.
pub force_sig_info_delivers :
    (sender : Sender) (sig : ℕ) (info : Info) (p : Process)
    → sig < sigrtmin
    → sig_kernel_ignore sig ≡ false
    → sig_kernel_stop sig ≡ false
    → (sig == sigcont) ≡ false
    → test_mask p.signal.flags signal_group_exit ≡ false
    → (sigismember (force_sig_info sender sig info p).0.self.pending.signal sig ≡ true)
      × ((force_sig_info sender sig info p).1 ≡ pos 0)
unfolding force_sig_info
force_sig_info_delivers sender sig info p l k s c a =
    let (same, heard) = open_heard sig p in
    send-IsDelivered sender sig info (make_killable sig (open_forced sig p)) l k s c
      (killable-IsOpen sig (open_forced sig p) (rw same a) heard)
