-- ===== src/Signal/Actions.antt =====
-- The table of handlers (signal.c, lines 411-425, 450-501 and 2899-2942).
pub mod Discard
use linux_ker_dev.Prelude.{
  ℕ, zero, suc, ◌-◌, ◌+◌, Bool, true, false, not, ◌||◌, ◌&&◌, List, [], ◌∷◌, Option, none, some,
  Word, no_bits, clear_mask, update, ltb, ◌==◌, if◌then◌else◌, ℤ, pos,
}
use linux_ker_dev.Signal.Numbers.{nsig, sigkill, sigstop, einval}
use linux_ker_dev.Signal.Types.{
  sig_dfl, sig_ign, user_handler, KSigaction, Task, Users, Process, sigaddset,
}
use linux_ker_dev.Signal.Pending.{flush_sigqueue, rm_from_queue_full, flush_itimer_pending}
use linux_ker_dev.Signal.Send.{is_sig_dfl, is_sig_ign, sig_handler, sig_handler_ignored, over_group}

-- `__flush_signals`, which is `flush_signals` under its lock
unfoldable pub flush_signals : Process → Process
flush_signals p =
    let (own, users) = flush_sigqueue p.self.pending p.users in
    let (shared, users') = flush_sigqueue p.signal.shared_pending users in
    record p {
      self = record p.self { tif_sigpending = false; pending = own };
      signal = record p.signal { shared_pending = shared };
      users = users';
    }

-- `flush_itimer_signals`
unfoldable pub flush_itimer_signals : Process → Process
flush_itimer_signals p =
    let (own, users) = flush_itimer_pending p.self.pending p.users in
    let (shared, users') = flush_itimer_pending p.signal.shared_pending users in
    record p {
      self = record p.self { pending = own };
      signal = record p.signal { shared_pending = shared };
      users = users';
    }

-- The loop of `ignore_signals`, by the rounds that are left.
unfoldable pub ignore_from : ℕ → ℕ → (ℕ → KSigaction) → ℕ → KSigaction
ignore_from zero i action = action
ignore_from (suc rounds) i action =
    ignore_from rounds (i + 1) (update action i (record (action i) { sa_handler = sig_ign }))

-- `ignore_signals`
unfoldable pub ignore_signals : Process → Process
ignore_signals p = flush_signals (record p { action = ignore_from nsig 0 p.action })

-- The body of the loop of `flush_signal_handlers`.
abbrev pub reset_action : Bool → KSigaction → KSigaction
reset_action force_default ka = record {
  sa_handler = if force_default || not (is_sig_ign ka.sa_handler) then sig_dfl else ka.sa_handler;
  sa_flags = 0;
  sa_mask = no_bits;
}

unfoldable pub reset_from : Bool → ℕ → ℕ → (ℕ → KSigaction) → ℕ → KSigaction
reset_from force_default zero i action = action
reset_from force_default (suc rounds) i action =
    reset_from force_default rounds (i + 1)
      (update action i (reset_action force_default (action i)))

-- `flush_signal_handlers`
unfoldable pub flush_signal_handlers : Process → Bool → Process
flush_signal_handlers p force_default = record p {
  action = reset_from force_default nsig 0 p.action;
}

-- `unhandled_signal`, by what `is_global_init` answers
unfoldable pub unhandled_signal : Bool → Process → ℕ → Bool
unhandled_signal global_init p sig =
    if global_init
    then true
    else if not (is_sig_ign (sig_handler p sig)) && not (is_sig_dfl (sig_handler p sig))
    then false
    else not p.self.ptraced

-- `valid_signal`
abbrev pub valid_signal : ℕ → Bool
valid_signal sig = not (ltb nsig sig)

-- `sig_kernel_only`
abbrev pub sig_kernel_only : ℕ → Bool
sig_kernel_only sig = sig == sigkill || sig == sigstop

-- The set `mask` of `do_sigaction`.
abbrev pub only : ℕ → Word
only sig = sigaddset no_bits sig

-- What one round of the loop of `do_sigaction` does to a thread.
abbrev pub discard : ℕ → Task → Users → Task × Users
discard sig t users =
    let (s, users', found) = rm_from_queue_full (only sig) t.pending users in
    (record t { pending = s }, users')

-- What `do_sigaction` does to the pending signals if the new handler ignores the signal.
unfoldable pub discard_everywhere : ℕ → Process → Process
discard_everywhere sig p =
    let (shared, users, found) = rm_from_queue_full (only sig) p.signal.shared_pending p.users in
    over_group (discard sig)
      (record p { signal = record p.signal { shared_pending = shared }; users = users })

-- `do_sigaction` with a new action
unfoldable pub install_action : ℕ → KSigaction → Process → Process
install_action sig act p =
    let act' : KSigaction = record act {
      sa_mask = clear_mask act.sa_mask ((sigkill - 1) ∷ (sigstop - 1) ∷ []);
    } in
    let q : Process = record p { action = update p.action (sig - 1) act' } in
    if sig_handler_ignored act.sa_handler sig then discard_everywhere sig q else q

abbrev pub is_given : Option KSigaction → Bool
is_given none = false
is_given (some act) = true

abbrev pub install_given : ℕ → Option KSigaction → Process → Process
install_given sig none p = p
install_given sig (some act) p = install_action sig act p

-- `do_sigaction`: the process, the action for `oact`, and the value
unfoldable pub do_sigaction : ℕ → Option KSigaction → Process → Process × Option KSigaction × ℤ
do_sigaction sig act p =
    if not (valid_signal sig) || ltb sig 1 || is_given act && sig_kernel_only sig
    then (p, none, einval)
    else (install_given sig act p, some (p.action (sig - 1)), pos 0)
