-- ===== src/Signal/Kill/Kernel.antt =====
-- The functions by which the kernel itself sends (signal.c, lines 1454-1468, 1488-1503 and
-- 3214-3244, and do_no_restart_syscall).
use linux_ker_dev.Prelude.{
  ℕ, ◌≡◌, refl, Bool, true, false, not, ◌&&◌, List, Option, none, some, ◌==◌, if◌then◌else◌, ℤ,
  is_nonzero, if-false, arith,
}
use linux_ker_dev.Signal.Types.{
  Siginfo, Info, send_sig_priv, send_sig_noinfo, siginfo, Users, Process,
}
use linux_ker_dev.Signal.Pending.{is_nonempty}
use linux_ker_dev.Signal.Enqueue.{Sender, force_sig_info}
use linux_ker_dev.Signal.Kill.{Caller, Target, Sent, send_sig_info, kill_pgrp_info, kill_pid_info}

-- `__si_special`
abbrev pub si_special : Bool → Info
si_special priv = if priv then send_sig_priv else send_sig_noinfo

-- `send_sig`
unfoldable pub send_sig : Sender → ℕ → Process → Bool → Option (Process × ℤ)
send_sig sender sig p priv = send_sig_info sender sig (si_special priv) p

-- `force_sig`
unfoldable pub force_sig : Sender → ℕ → Process → Process
force_sig sender sig p = (force_sig_info sender sig send_sig_priv p).0

-- `kill_pgrp` and `kill_pid`
unfoldable pub kill_pgrp : Caller → List Target → ℕ → Bool → Users → Option (Sent × ℤ)
kill_pgrp caller group sig priv users = kill_pgrp_info sig (si_special priv) caller group users

unfoldable pub kill_pid : Caller → List Target → ℕ → Bool → Users → Option (List Process × ℤ)
kill_pid caller found sig priv users = kill_pid_info sig (si_special priv) caller found users

-- What `kdb_send_sig_info` prints.
pub data KdbReply : Type 0 where
  lock_held not_running fail_to_deliver is_sent : KdbReply

-- `kdb_prev_t != t`, where no task was asked for before the first call
abbrev pub is_new : Option ℕ → ℕ → Bool
is_new none t = true
is_new (some s) t = not (s == t)

abbrev pub kdb_result : ℕ → Option (Process × ℤ) → Option (Process × Option ℕ × KdbReply)
kdb_result t none = none
kdb_result t (some (p, value)) =
    some (p, some t, if is_nonzero value then fail_to_deliver else is_sent)

-- `kdb_send_sig_info`, by whether the lock is free, by the task of the last call that found it
-- free, and by the number that stands for `t`
unfoldable pub kdb_send_sig_info :
    Sender → Bool → Option ℕ → ℕ → Siginfo → Process → Option (Process × Option ℕ × KdbReply)
kdb_send_sig_info sender free prev t info p =
    if not free
    then some (p, prev, lock_held)
    else if is_nonempty p.self.state && is_new prev t
    then some (p, some t, not_running)
    else kdb_result t (send_sig_info sender info.si_signo (siginfo info) p)

and_not_self : (b : Bool) (t : ℕ) → (b && not (t == t)) ≡ false
and_not_self b t = ground arith

kdb_next :
    (sender : Sender) (t : ℕ) (info : Siginfo) (p : Process)
    → kdb_send_sig_info sender true (some t) t info p
      ≡ kdb_result t (send_sig_info sender info.si_signo (siginfo info) p)
unfolding kdb_send_sig_info
kdb_next sender t info p = if-false _ _ _ (and_not_self (is_nonempty p.self.state) t)

-- Where the lock is free, a request for a task that is not running is refused once, with the
-- process as it was, if the last request was for another task; the next one for this task is sent,
-- in whatever state it is.
pub kdb_asks_twice :
    (sender : Sender) (prev : Option ℕ) (t : ℕ) (info : Siginfo) (p q : Process)
    → is_nonempty p.self.state ≡ true
    → is_new prev t ≡ true
    → (kdb_send_sig_info sender true prev t info p ≡ some (p, some t, not_running))
      × (kdb_send_sig_info sender true (some t) t info q
          ≡ kdb_result t (send_sig_info sender info.si_signo (siginfo info) q))
unfolding kdb_send_sig_info
kdb_asks_twice sender prev t info p q r n = (rw (r, n) refl, kdb_next sender t info q)
