-- ===== src/Signal/Calls/Send/Genuine.antt =====
-- Who can be named as the sender of a queued signal (signal.c, the system calls that send).
use linux_ker_dev.Prelude.{
  ℕ, inl, inr, arith, zero, suc, ◌≡◌, false, ◌||◌, [], Option, none, some, if-either, if-cases, ℤ,
  pos, negsuc, is_le_zero,
}
use linux_ker_dev.Signal.Numbers.{si_user, si_tkill, eperm, einval}
use linux_ker_dev.Signal.Types.{Siginfo, Users}
use linux_ker_dev.Signal.Kill.{Lookup, kill_something_info}
use linux_ker_dev.Signal.Calls.{Source, holds}
use linux_ker_dev.Signal.Calls.Send.{
  Self, Found, own_info, impersonates, sys_kill, do_tkill, tgkill, tkill, rt_sigqueueinfo,
  do_rt_tgsigqueueinfo, rt_tgsigqueueinfo,
}
use linux_ker_dev.Signal.Calls.Send.Targets.{
  IsOfficial, Sendable, AreClean, IsCleanFind, GivesBack, GivesOne, kill_pid_info-GivesBack,
  kill_pgrp_info-GivesBack, kill_all-GivesBack, do_send_specific-GivesOne,
}

-- Every process that a number may lead to
pub record IsCleanLookup (Known : ℕ → ℕ → Type 0) (l : Lookup) : Type 0 where
  pub by_pid : AreClean Known l.by_pid
  pub by_group : AreClean Known l.by_group
  pub own_group : AreClean Known l.own_group
  pub everyone : AreClean Known l.everyone

unofficial_lem : (i : Siginfo) → impersonates i ≡ false → ¬ (IsOfficial i)
unofficial_lem i e (inl g) = ground arith
unofficial_lem i e (inr t) = cc

module _ (Known : ℕ → ℕ → Type 0) (me : Self) (seen : Known me.tgid me.caller.cred.uid)
    (unseen : Known 0 me.caller.cred.uid) where
  own-Sendable : (sig : ℕ) (code : ℤ) → Sendable Known (own_info me sig code)
  own-Sendable sig code = (λ h. seen, λ h. unseen)

  -- A record that a user hands over and that does not impersonate
  handed-Sendable :
      (sig : ℕ) (i : Siginfo)
      → impersonates i ≡ false
      → Sendable Known (record i { si_signo = sig })
  handed-Sendable sig i e = (λ h. absurd (unofficial_lem i e h), λ h. absurd (unofficial_lem i e h))

  sys_kill-GivesBack :
      (pid : ℤ) (sig : ℕ) (l : Lookup) (users : Users)
      → IsCleanLookup Known l
      → GivesBack Known (sys_kill me pid sig l users)
  unfolding sys_kill kill_something_info
  sys_kill-GivesBack (pos zero) sig l users h =
      kill_pgrp_info-GivesBack Known sig _ (own-Sendable sig si_user) me.caller l.own_group users
        h.own_group
  sys_kill-GivesBack (pos (suc n)) sig l users h =
      kill_pid_info-GivesBack Known sig _ (own-Sendable sig si_user) me.caller l.by_pid users
        h.by_pid
  sys_kill-GivesBack (negsuc zero) sig l users h =
      kill_all-GivesBack Known sig _ (own-Sendable sig si_user) me.caller l.everyone users
        h.everyone
  sys_kill-GivesBack (negsuc (suc n)) sig l users h =
      kill_pgrp_info-GivesBack Known sig _ (own-Sendable sig si_user) me.caller l.by_group users
        h.by_group

  queue_to-GivesBack :
      (sig : ℕ) (info : Source Siginfo) (l : Lookup) (users : Users)
      → IsCleanLookup Known l
      → GivesBack Known (rt_sigqueueinfo me sig info l users)
  unfolding rt_sigqueueinfo
  queue_to-GivesBack sig (holds i) l users h =
      if-cases (GivesBack Known) (impersonates i) (some ([], eperm)) _ (λ e. tt)
        (λ e.
          kill_pid_info-GivesBack Known sig _ (handed-Sendable sig i e) me.caller l.by_pid users
            h.by_pid)
  queue_to-GivesBack sig _ l users h = tt

  module _ (found : Option Found) (sig : ℕ) (clean : IsCleanFind Known found) where
    do_tkill-GivesOne : (tgid : ℤ) → GivesOne Known (do_tkill me tgid found sig)
    unfolding do_tkill
    do_tkill-GivesOne tgid =
        do_send_specific-GivesOne Known sig _ (own-Sendable sig si_tkill) me.caller tgid found clean

    tgkill-GivesOne : (tgid pid : ℤ) → GivesOne Known (tgkill me tgid pid found sig)
    unfolding tgkill
    tgkill-GivesOne tgid pid =
        if-either (GivesOne Known) (is_le_zero pid || is_le_zero tgid) (some (none, einval)) _ tt
          (do_tkill-GivesOne tgid)

    tkill-GivesOne : (pid : ℤ) → GivesOne Known (tkill me pid found sig)
    unfolding tkill
    tkill-GivesOne pid =
        if-either (GivesOne Known) (is_le_zero pid) (some (none, einval)) _ tt
          (do_tkill-GivesOne (pos 0))

    tgsigqueue-GivesOne :
        (tgid pid : ℤ) (info : Source Siginfo)
        → GivesOne Known (rt_tgsigqueueinfo me tgid pid found sig info)
    unfolding rt_tgsigqueueinfo do_rt_tgsigqueueinfo
    tgsigqueue-GivesOne tgid pid (holds i) =
        if-either (GivesOne Known) (is_le_zero pid || is_le_zero tgid) (some (none, einval)) _ tt (
          if-cases (GivesOne Known) (impersonates i) (some (none, eperm)) _ (λ e. tt)
            (λ e.
              do_send_specific-GivesOne Known sig _ (handed-Sendable sig i e) me.caller tgid found
                clean))
    tgsigqueue-GivesOne tgid pid _ = tt

  -- Let every queued record of the processes that may be found, whose code is not negative or that
  -- of `tkill`, name a known process and user as its sender, the caller and its user be known, and
  -- this user also where the process is not seen, as number 0. Then the queued records of the
  -- processes that `kill`, `rt_sigqueueinfo`, `tgkill`, `tkill` and `rt_tgsigqueueinfo` have sent
  -- to are so afterwards, whatever the arguments and the handed record.
  pub no_forged_sender :
      (l : Lookup) (found : Option Found)
      → IsCleanLookup Known l
      → IsCleanFind Known found
      → (pid tgid : ℤ) (sig : ℕ) (info : Source Siginfo) (users : Users)
      → GivesBack Known (sys_kill me pid sig l users)
        × GivesBack Known (rt_sigqueueinfo me sig info l users)
        × GivesOne Known (tgkill me tgid pid found sig)
        × GivesOne Known (tkill me pid found sig)
        × GivesOne Known (rt_tgsigqueueinfo me tgid pid found sig info)
  no_forged_sender l found h c pid tgid sig info users = (
    sys_kill-GivesBack pid sig l users h,
    queue_to-GivesBack sig info l users h,
    tgkill-GivesOne found sig c tgid pid,
    tkill-GivesOne found sig c pid,
    tgsigqueue-GivesOne found sig c tgid pid info,
  )
