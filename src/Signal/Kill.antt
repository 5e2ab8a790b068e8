-- ===== src/Signal/Kill.antt =====
-- Who may send a signal, and sending to a process, a group of processes or all of them (signal.c,
-- lines 758-816, 1279-1335, 1346-1436 and 1442-1486).
pub mod Group
pub mod Kernel
use linux_ker_dev.Prelude.{
  ℕ, zero, suc, ◌-◌, Bool, true, false, not, ◌||◌, ◌&&◌, List, [], ◌∷◌, ◌++◌, Option, none, some,
  update, ltb, ◌==◌, if◌then◌else◌, ℤ, pos, negsuc, is_nonzero, same_int, map,
}
use linux_ker_dev.Signal.Numbers.{sigcont, sigsegv, eperm, esrch, einval}
use linux_ker_dev.Signal.Types.{sig_dfl, Info, send_sig_priv, Users, Process, si_fromuser}
use linux_ker_dev.Signal.Enqueue.{Sender, send_signal_ns, do_send_sig_info, force_sig_info}
use linux_ker_dev.Signal.Actions.{valid_signal}

-- `struct cred`, as far as it is asked here
pub record Cred : Type 0 where
  pub user_ns : ℕ
  pub uid : ℕ
  pub euid : ℕ
  pub suid : ℕ

-- A target: its process as the sender finds it, and what the kernel answers about it: its
-- credentials, whether the sender may kill in its namespace (`ns_capable`) or is in its thread
-- group, its session, its number, and the answers of audit and of the security module.
pub record Target : Type 0 where
  pub process : Process
  pub sender : Sender
  pub cred : Cred
  pub capable : Bool
  pub same_group : Bool
  pub session : Option ℕ
  pub pid_vnr : ℕ
  pub audit : ℤ
  pub security : ℤ

-- The sender of `kill`: its credentials and its session.
pub record Caller : Type 0 where
  pub cred : Cred
  pub session : ℕ

-- The four comparisons of two credentials.
abbrev pub ids_meet : Cred → Cred → Bool
ids_meet cred tcred =
    (cred.euid == tcred.suid || cred.euid == tcred.uid)
    || (cred.uid == tcred.suid || cred.uid == tcred.uid)

-- `kill_ok_by_cred`
unfoldable pub kill_ok_by_cred : Caller → Target → Bool
kill_ok_by_cred caller t =
    if caller.cred.user_ns == t.cred.user_ns && ids_meet caller.cred t.cred then true else t.capable

-- `!sid || sid == task_session(current)`
abbrev pub shares_session : Caller → Option ℕ → Bool
shares_session caller none = true
shares_session caller (some sid) = sid == caller.session

-- `check_kill_permission`
unfoldable pub check_kill_permission : ℕ → Info → Caller → Target → ℤ
check_kill_permission sig info caller t =
    if not (valid_signal sig)
    then einval
    else if not (si_fromuser info)
    then pos 0
    else if is_nonzero t.audit
    then t.audit
    else if not t.same_group
        && not (kill_ok_by_cred caller t)
        && not (sig == sigcont && shares_session caller t.session)
    then eperm
    else t.security

-- `group_send_sig_info`, with the counts of the users as they are
unfoldable pub group_send_sig_info : ℕ → Info → Caller → Target → Users → Option (Process × ℤ)
group_send_sig_info sig info caller t users =
    let ret = check_kill_permission sig info caller t in
    let p : Process = record t.process { users = users } in
    if not (is_nonzero ret) && not (sig == 0)
    then do_send_sig_info t.sender sig info p true
    else some (p, ret)

-- What a loop over targets has come to: the processes that it has been through, the counts, the last
-- value, and whether one send succeeded.
pub record Sent : Type 0 where
  pub done : List Process
  pub users : Users
  pub retval : ℤ
  pub success : Bool

-- The body of the loop of `__kill_pgrp_info`.
abbrev pub note_sent : Sent → Process × ℤ → Sent
note_sent s (p, err) = record {
  done = s.done ++ p ∷ [];
  users = p.users;
  retval = err;
  success = s.success || not (is_nonzero err);
}

-- The loop of `__kill_pgrp_info`
unfoldable pub send_each : ℕ → Info → Caller → List Target → Sent → Option Sent
send_each sig info caller [] s = some s
send_each sig info caller (t ∷ ts) s = elim (group_send_sig_info sig info caller t s.users) [
  | none ↦ none
  | some r ↦ send_each sig info caller ts (note_sent s r)
]

abbrev pub value_of : Sent → ℤ
value_of s = if s.success then pos 0 else s.retval

-- `__kill_pgrp_info`; none is a write beyond the end of a table of counters.
unfoldable pub kill_pgrp_info : ℕ → Info → Caller → List Target → Users → Option (Sent × ℤ)
kill_pgrp_info sig info caller group users =
    elim (send_each sig info caller group
      (record { done = []; users = users; retval = esrch; success = false })) [
        | none ↦ none
        | some s ↦ some (s, value_of s)
      ]

-- `kill_pid_info`, by what `pid_task` finds at each try; behind the list it finds no task.
unfoldable pub kill_pid_info : ℕ → Info → Caller → List Target → Users → Option (List Process × ℤ)
kill_pid_info sig info caller [] users = some ([], esrch)
kill_pid_info sig info caller (t ∷ ts) users = elim (group_send_sig_info sig info caller t users) [
  | none ↦ none
  | some (p, err) ↦ elim (same_int err esrch) [
    | true ↦ kill_pid_info sig info caller ts users
    | false ↦ some (p ∷ [], err)
  ]
]

-- `kill_as_cred_perm`
unfoldable pub kill_as_cred_perm : Cred → Target → Bool
kill_as_cred_perm cred t =
    if not (cred.user_ns == t.cred.user_ns)
    then false
    else if (not (cred.euid == t.cred.suid) && not (cred.euid == t.cred.uid))
        && (not (cred.uid == t.cred.suid) && not (cred.uid == t.cred.uid))
    then false
    else true

abbrev pub alone : Process × ℤ → Option Process × ℤ
alone (p, err) = (some p, err)

-- `kill_pid_info_as_cred`
unfoldable pub kill_pid_info_as_cred : ℕ → Info → Cred → Option Target → Option Process × ℤ
kill_pid_info_as_cred sig info cred none =
    if not (valid_signal sig) then (none, einval) else (none, esrch)
kill_pid_info_as_cred sig info cred (some t) =
    if not (valid_signal sig)
    then (some t.process, einval)
    else if si_fromuser info && not (kill_as_cred_perm cred t)
    then (some t.process, eperm)
    else if is_nonzero t.security
    then (some t.process, t.security)
    else if sig == 0
    then (some t.process, pos 0)
    else if t.process.sighand
    then alone (send_signal_ns t.sender sig info t.process true false)
    else (some t.process, esrch)

-- The body of the loop of `kill_something_info` over all processes; `success` says that one was
-- tried.
abbrev pub note_tried : Sent → Process × ℤ → Sent
note_tried s (p, err) = record {
  done = s.done ++ p ∷ [];
  users = p.users;
  retval = if same_int err eperm then s.retval else err;
  success = true;
}

unfoldable pub send_all : ℕ → Info → Caller → List Target → Sent → Option Sent
send_all sig info caller [] s = some s
send_all sig info caller (t ∷ ts) s =
    if ltb 1 t.pid_vnr && not t.same_group
    then elim (group_send_sig_info sig info caller t s.users) [
      | none ↦ none
      | some r ↦ send_all sig info caller ts (note_tried s r)
    ]
    else send_all sig info caller ts s

-- `kill_something_info(sig, info, -1)`
unfoldable pub kill_all : ℕ → Info → Caller → List Target → Users → Option (Sent × ℤ)
kill_all sig info caller everyone users =
    elim (send_all sig info caller everyone
      (record { done = []; users = users; retval = pos 0; success = false })) [
        | none ↦ none
        | some s ↦ some (s, if s.success then s.retval else esrch)
      ]

-- What a process number of `kill_something_info` leads to: the finds of `pid_task` for a positive
-- one, the group of a negative one, the group of the caller, and all processes.
pub record Lookup : Type 0 where
  pub by_pid : List Target
  pub by_group : List Target
  pub own_group : List Target
  pub everyone : List Target

abbrev pub without_loop : Option (Sent × ℤ) → Option (List Process × ℤ)
without_loop none = none
without_loop (some (s, value)) = some (s.done, value)

-- `kill_something_info`
unfoldable pub kill_something_info :
    ℕ → Info → Caller → ℤ → Lookup → Users → Option (List Process × ℤ)
kill_something_info sig info caller (pos zero) l users =
    without_loop (kill_pgrp_info sig info caller l.own_group users)
kill_something_info sig info caller (pos (suc n)) l users =
    kill_pid_info sig info caller l.by_pid users
kill_something_info sig info caller (negsuc zero) l users =
    without_loop (kill_all sig info caller l.everyone users)
kill_something_info sig info caller (negsuc (suc n)) l users =
    without_loop (kill_pgrp_info sig info caller l.by_group users)

-- `send_sig_info`
unfoldable pub send_sig_info : Sender → ℕ → Info → Process → Option (Process × ℤ)
send_sig_info sender sig info p =
    if not (valid_signal sig) then some (p, einval) else do_send_sig_info sender sig info p false

-- `force_sigsegv`, which gives 0 in any case
unfoldable pub force_sigsegv : Sender → ℕ → Process → Process
force_sigsegv sender sig p =
    let reset : Process = record p {
      action = update p.action (sig - 1) (record (p.action (sig - 1)) { sa_handler = sig_dfl });
    } in
    (force_sig_info sender sigsegv send_sig_priv (if sig == sigsegv then reset else p)).0
