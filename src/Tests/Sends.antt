-- ===== src/Tests/Sends.antt =====
-- The theorem on the system calls that send a signal at a concrete input: the process 200 of the
-- user 1000 sends SIGHUP to a process whose queued records all name the process 100.
use linux_ker_dev.Prelude.{ℕ, ◌≡◌, refl, [], ◌∷◌, some, inl, inr, ◌⊎◌, pos, negsuc}
use linux_ker_dev.Signal.Types.{Siginfo}
use linux_ker_dev.Signal.Kill.{Lookup}
use linux_ker_dev.Signal.Calls.{Source, holds}
use linux_ker_dev.Signal.Calls.Send.{
  Self, Found, sys_kill, rt_sigqueueinfo, tgkill, tkill, rt_tgsigqueueinfo,
}
use linux_ker_dev.Signal.Calls.Send.Targets.{IsClean, GivesBack, GivesOne}
use linux_ker_dev.Signal.Calls.Send.Genuine.{IsCleanLookup, no_forged_sender}
use linux_ker_dev.Tests.Groups.{pair, users, from_kill, caller, target}

abbrev Known : ℕ → ℕ → Type 0
Known pid uid = ((pid ≡ 100) ⊎ ((pid ≡ 200) ⊎ (pid ≡ 0))) × (uid ≡ 1000)

abbrev me : Self
me = record { caller = caller; tgid = 200 }

abbrev finds : Lookup
finds = record {
  by_pid = target 1000 ∷ [];
  by_group = target 1000 ∷ target 0 ∷ [];
  own_group = [];
  everyone = target 1000 ∷ [];
}

abbrev found : Found
found = record { target = target 1000; tgid = 77 }

-- A record that names the process 1 with the code of `sigqueue`
abbrev handed : Source Siginfo
handed = holds (record (from_kill 1) { si_code = negsuc 0; si_pid = 1 })

pair-IsClean : IsClean Known pair
pair-IsClean = record {
  shared = (λ o. (inl refl, refl), tt);
  own = (λ o. (inl refl, refl), (λ o. (inl refl, refl), tt));
  others = (tt, tt);
}

finds-IsCleanLookup : IsCleanLookup Known finds
finds-IsCleanLookup = record {
  by_pid = (pair-IsClean, tt);
  by_group = (pair-IsClean, (pair-IsClean, tt));
  own_group = tt;
  everyone = (pair-IsClean, tt);
}

no_forged_sender_example :
    GivesBack Known (sys_kill me (pos 77) 1 finds users)
    × GivesBack Known (rt_sigqueueinfo me 1 handed finds users)
    × GivesOne Known (tgkill me (pos 77) (pos 77) (some found) 1)
    × GivesOne Known (tkill me (pos 77) (some found) 1)
    × GivesOne Known (rt_tgsigqueueinfo me (pos 77) (pos 77) (some found) 1 handed)
no_forged_sender_example =
    no_forged_sender Known me (inr (inl refl), refl) (inr (inr refl), refl) finds (some found)
      finds-IsCleanLookup pair-IsClean (pos 77) (pos 77) 1 handed users
