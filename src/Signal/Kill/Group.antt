-- ===== src/Signal/Kill/Group.antt =====
-- Probing and signalling a group of processes (signal.c, `__kill_pgrp_info`).
use linux_ker_dev.Prelude.{
  ℕ, ◌≡◌, refl, ap, ◌∙◌, Bool, false, not, ◌||◌, List, [], ◌∷◌, ◌++◌, some, map, any, ℤ, is_nonzero,
  arith,
}
use mathlib.Core.List.{append_assoc, append-nil}
use linux_ker_dev.Signal.Numbers.{esrch}
use linux_ker_dev.Signal.Types.{Info, Users, Process}
use linux_ker_dev.Signal.Kill.{
  Caller, Target, Sent, note_sent, value_of, check_kill_permission, group_send_sig_info, send_each,
  kill_pgrp_info,
}

-- The process as the call finds it.
abbrev pub found : Users → Target → Process
found users t = record t.process { users = users }

-- The target is refused, or would be if the signal were sent.
abbrev pub refuses : ℕ → Info → Caller → Target → Bool
refuses sig info caller t = is_nonzero (check_kill_permission sig info caller t)

probe-same :
    (info : Info) (caller : Caller) (t : Target) (users : Users)
    → group_send_sig_info 0 info caller t users
      ≡ some (found users t, check_kill_permission 0 info caller t)
unfolding group_send_sig_info
probe-same info caller t users = ground arith

send_each-step :
    (sig : ℕ) (info : Info) (caller : Caller) (t : Target) (ts : List Target) (s : Sent)
    → {r : Process × ℤ} → group_send_sig_info sig info caller t s.users ≡ some r
    → send_each sig info caller (t ∷ ts) s ≡ send_each sig info caller ts (note_sent s r)
unfolding send_each
send_each-step sig info caller t ts s h = rw (send_each, h) refl

-- A loop whose value is 0 exactly if a send has succeeded.
abbrev IsFair : Sent → Type 0
IsFair s = is_nonzero (value_of s) ≡ not s.success

note_sent-IsFair : (s : Sent) (p : Process) (err : ℤ) → IsFair s → IsFair (note_sent s (p, err))
note_sent-IsFair s p err h = ground arith

probe_each :
    (info : Info) (caller : Caller) (ts : List Target) (s : Sent)
    → IsFair s
    → (r : Sent) × (send_each 0 info caller ts s ≡ some r)
      × (r.done ≡ s.done ++ map (found s.users) ts)
      × (r.success ≡ (s.success || any (λ t. not (refuses 0 info caller t)) ts))
      × IsFair r
unfolding send_each
probe_each info caller [] s fair = (s, refl, simp append-nil, ground arith, fair)
probe_each info caller (t ∷ ts) s fair =
    let err = check_kill_permission 0 info caller t in
    let step = send_each-step 0 info caller t ts s (probe-same info caller t s.users) in
    let (r, run, done, good, fair') =
      probe_each info caller ts (note_sent s (found s.users t, err))
        (note_sent-IsFair s (found s.users t) err fair) in
    (r, step ∙ run, done ∙ simp append_assoc, good ∙ ground arith, fair')

-- Signal 0 only probes a group of processes: every process is left as it was found, and the value
-- is 0 exactly if one of them does not refuse the caller.
pub kill_pgrp_info_probes :
    (info : Info) (caller : Caller) (group : List Target) (users : Users)
    → (r : Sent) × (value : ℤ) × (kill_pgrp_info 0 info caller group users ≡ some (r, value))
      × (r.done ≡ map (found users) group)
      × (is_nonzero value ≡ not (any (λ t. not (refuses 0 info caller t)) group))
unfolding kill_pgrp_info
kill_pgrp_info_probes info caller group users =
    let s : Sent = record { done = []; users = users; retval = esrch; success = false } in
    let (r, run, done, good, fair) = probe_each info caller group s refl in
    (r, value_of r, rw (kill_pgrp_info, run) refl, done, fair ∙ ap not good)
