-- ===== src/Signal/Calls/Send/Targets.antt =====
-- The senders that queued records name, behind the functions of signal.c that send to a process, to
-- a group of processes, to all of them and to a thread.
use linux_ker_dev.Prelude.{
  ℕ, is_ge_zero, ◌⊎◌, ◌≡◌, Bool, true, false, not, ◌||◌, ◌&&◌, List, [], ◌∷◌, Option, none, some,
  All, All-append, if-either, ℤ, pos, is_nonzero, is_le_zero, same_int, ◌==◌, Bool-cases, inl, inr,
  ltb,
}
use linux_ker_dev.Signal.Numbers.{si_tkill, esrch}
use linux_ker_dev.Signal.Types.{Siginfo, siginfo, Users, Process}
use linux_ker_dev.Signal.Enqueue.{Sender, entry_info}
use linux_ker_dev.Signal.Enqueue.Records.{Throughout}
use linux_ker_dev.Signal.Enqueue.Posting.{Left, do_send_sig_info-Left}
use linux_ker_dev.Signal.Kill.{
  Caller, Target, Sent, check_kill_permission, group_send_sig_info, send_each, note_sent,
  kill_pgrp_info, kill_pid_info, send_all, note_tried, kill_all, without_loop,
}
use linux_ker_dev.Signal.Calls.Send.{Found, forgive, do_send_specific}

-- A record whose code is one that only the kernel, `kill` and `tkill` give
abbrev pub IsOfficial : Siginfo → Type 0
IsOfficial i = (is_ge_zero i.si_code ≡ true) ⊎ (i.si_code ≡ si_tkill)

-- Such a record names a known sender: its process and its user.
abbrev pub Genuine : (ℕ → ℕ → Type 0) → Siginfo → Type 0
Genuine Known i = IsOfficial i → Known i.si_pid i.si_uid

module _ (Known : ℕ → ℕ → Type 0) where
  abbrev pub IsClean : Process → Type 0
  IsClean p = Throughout (Genuine Known) p

  abbrev pub AreClean : List Target → Type 0
  AreClean ts = All (λ (t : Target). IsClean t.process) ts

  abbrev pub IsCleanFind : Option Found → Type 0
  IsCleanFind none = Unit {0}
  IsCleanFind (some f) = IsClean f.target.process

  -- A record that may be sent: it names a known sender, also where the sender is not seen.
  abbrev pub Sendable : Siginfo → Type 0
  Sendable i = Genuine Known i × (IsOfficial i → Known 0 i.si_uid)

  entry-Genuine :
      (sender : Sender) (sig : ℕ) (i : Siginfo)
      → Sendable i
      → (ns : Bool) → Genuine Known (entry_info sender sig (siginfo i) ns)
  entry-Genuine sender sig i h ns = if-either (Genuine Known) ns (record i { si_pid = 0 }) i h.1 h.0

  -- What the sends to processes and to a thread give back.
  abbrev pub GivesBack : Option (List Process × ℤ) → Type 0
  GivesBack none = Unit {0}
  GivesBack (some (ps, value)) = All IsClean ps

  abbrev pub GivesOne : Option (Option Process × ℤ) → Type 0
  GivesOne none = Unit {0}
  GivesOne (some (none, value)) = Unit {0}
  GivesOne (some (some p, value)) = IsClean p

  abbrev Loops : Option Sent → Type 0
  Loops none = Unit {0}
  Loops (some s) = All IsClean s.done

  module _ (sig : ℕ) (i : Siginfo) (sendable : Sendable i) (caller : Caller) where
    group_send-Left :
        (t : Target) (users : Users)
        → IsClean t.process
        → Left (Genuine Known) (group_send_sig_info sig (siginfo i) caller t users)
    unfolding group_send_sig_info
    group_send-Left t users h =
        let ret = check_kill_permission sig (siginfo i) caller t in
        let p : Process = record t.process { users = users } in
        let clean : IsClean p = record { shared = h.shared; own = h.own; others = h.others } in
        if-either (Left (Genuine Known)) (not (is_nonzero ret) && not (sig == 0)) _ (some (p, ret))
          (do_send_sig_info-Left (Genuine Known) t.sender sig (siginfo i)
            (entry-Genuine t.sender sig i sendable) p true clean)
          clean

    next_of_group :
        (ts : List Target) (s : Sent) (r : Option (Process × ℤ))
        → All IsClean s.done
        → Left (Genuine Known) r
        → ((s' : Sent) → All IsClean s'.done → Loops (send_each sig (siginfo i) caller ts s'))
        → Loops
            (elim r [ none ↦ none | some q ↦ send_each sig (siginfo i) caller ts (note_sent s q) ])
    next_of_group ts s none d h k = tt
    next_of_group ts s (some (p, err)) d h k =
        k (note_sent s (p, err)) (All-append IsClean s.done (p ∷ []) d (h, tt))

    send_each-Loops :
        (ts : List Target) (s : Sent)
        → AreClean ts
        → All IsClean s.done
        → Loops (send_each sig (siginfo i) caller ts s)
    unfolding send_each
    send_each-Loops [] s h d = d
    send_each-Loops (t ∷ ts) s h d =
        next_of_group ts s (group_send_sig_info sig (siginfo i) caller t s.users) d
          (group_send-Left t s.users h.0) (λ s' d'. send_each-Loops ts s' h.1 d')

    next_of_everyone :
        (ts : List Target) (s : Sent) (r : Option (Process × ℤ))
        → All IsClean s.done
        → Left (Genuine Known) r
        → ((s' : Sent) → All IsClean s'.done → Loops (send_all sig (siginfo i) caller ts s'))
        → Loops
            (elim r [ none ↦ none | some q ↦ send_all sig (siginfo i) caller ts (note_tried s q) ])
    next_of_everyone ts s none d h k = tt
    next_of_everyone ts s (some (p, err)) d h k =
        k (note_tried s (p, err)) (All-append IsClean s.done (p ∷ []) d (h, tt))

    send_all-Loops :
        (ts : List Target) (s : Sent)
        → AreClean ts
        → All IsClean s.done
        → Loops (send_all sig (siginfo i) caller ts s)
    unfolding send_all
    send_all-Loops [] s h d = d
    send_all-Loops (t ∷ ts) s h d =
        if-either Loops (ltb 1 t.pid_vnr && not t.same_group) _ _
          (next_of_everyone ts s (group_send_sig_info sig (siginfo i) caller t s.users) d
            (group_send-Left t s.users h.0) (λ s' d'. send_all-Loops ts s' h.1 d'))
          (send_all-Loops ts s h.1 d)

    next_try :
        (ts : List Target) (users : Users) (r : Option (Process × ℤ))
        → Left (Genuine Known) r
        → GivesBack (kill_pid_info sig (siginfo i) caller ts users)
        → GivesBack (elim r [
          | none ↦ none
          | some (p, err) ↦ elim (same_int err esrch) [
            | true ↦ kill_pid_info sig (siginfo i) caller ts users
            | false ↦ some (p ∷ [], err)
          ]
        ])
    next_try ts users none h k = tt
    next_try ts users (some (p, err)) h k = elim (Bool-cases (same_int err esrch)) [
      | inl e ↦ rw e k
      | inr e ↦ rw e (h, tt)
    ]

    pub kill_pid_info-GivesBack :
        (ts : List Target) (users : Users)
        → AreClean ts
        → GivesBack (kill_pid_info sig (siginfo i) caller ts users)
    unfolding kill_pid_info
    kill_pid_info-GivesBack [] users h = tt
    kill_pid_info-GivesBack (t ∷ ts) users h =
        next_try ts users (group_send_sig_info sig (siginfo i) caller t users)
          (group_send-Left t users h.0) (kill_pid_info-GivesBack ts users h.1)

    group_result :
        (o : Option Sent) (value : Sent → ℤ)
        → Loops o
        → GivesBack (without_loop (elim o [ none ↦ none | some s ↦ some (s, value s) ]))
    group_result none value h = tt
    group_result (some s) value h = h

    pub kill_pgrp_info-GivesBack :
        (ts : List Target) (users : Users)
        → AreClean ts
        → GivesBack (without_loop (kill_pgrp_info sig (siginfo i) caller ts users))
    unfolding kill_pgrp_info
    kill_pgrp_info-GivesBack ts users h = group_result _ _ (send_each-Loops ts _ h tt)

    pub kill_all-GivesBack :
        (ts : List Target) (users : Users)
        → AreClean ts
        → GivesBack (without_loop (kill_all sig (siginfo i) caller ts users))
    unfolding kill_all
    kill_all-GivesBack ts users h = group_result _ _ (send_all-Loops ts _ h tt)

    forgive-GivesOne : (r : Option (Process × ℤ)) → Left (Genuine Known) r → GivesOne (forgive r)
    forgive-GivesOne none h = tt
    forgive-GivesOne (some (p, error)) h = h

    pub do_send_specific-GivesOne :
        (tgid : ℤ) (found : Option Found)
        → IsCleanFind found
        → GivesOne (do_send_specific caller tgid found sig (siginfo i))
    unfolding do_send_specific
    do_send_specific-GivesOne tgid none h = tt
    do_send_specific-GivesOne tgid (some f) h =
        let error = check_kill_permission sig (siginfo i) caller f.target in
        if-either GivesOne (is_le_zero tgid || same_int (pos f.tgid) tgid) _
          (some (some f.target.process, esrch))
          (if-either GivesOne (not (is_nonzero error) && not (sig == 0)) _
            (some (some f.target.process, error))
            (forgive-GivesOne _ (
              do_send_sig_info-Left (Genuine Known) f.target.sender sig (siginfo i)
                (entry-Genuine f.target.sender sig i sendable) f.target.process false h))
            h)
          h
