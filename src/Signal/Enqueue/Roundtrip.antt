-- ===== src/Signal/Enqueue/Roundtrip.antt =====
-- A record that is queued is the one that is collected (signal.c, `__send_signal` and
-- `collect_signal`).
use linux_ker_dev.Prelude.{
  ℕ, ◌-◌, ◌+◌, ◌≤◌, ◌≡◌, refl, ◌∙◌, ap, fun_ext, Bool, true, false, ◌&&◌, ◌||◌, List, [], ◌∷◌, ◌++◌,
  arith, ltb, leb, if◌then◌else◌, if-true, none, some, update,
}
use linux_ker_dev.Signal.Numbers.{sigrtmin}
use linux_ker_dev.Signal.Types.{
  Info, Sigqueue, Sigpending, Task, Users, sigismember, sigaddset, sigdelset,
}
use linux_ker_dev.Signal.Pending.{is_entry_of, take_first, has_entry, collect_signal, sigqueue_free}
use linux_ker_dev.Signal.Pending.Shape.{Backed, IsPending}
use linux_ker_dev.Signal.Enqueue.{
  Sender, sigqueue_alloc, entry_info, is_forced, may_override, enqueue_charged, enqueue,
}
use linux_ker_dev.Signal.Enqueue.Rules.{Names, entry_signo}

-- In a queue without an entry for a signal, one at the end is the first.
take_last :
    (sig : ℕ) (w : ℕ → Bool) (qs : List Sigqueue) (q : Sigqueue)
    → Backed w qs
    → sigismember w sig ≡ false
    → is_entry_of sig q ≡ true
    → take_first sig (qs ++ q ∷ []) ≡ some (q, qs)
unfolding take_first
take_last sig w [] q b m e = rw e refl
take_last sig w (r ∷ qs) q b m e =
    let other : is_entry_of sig r ≡ false = ground (arith, b.1) in
    rw (other, take_last sig w qs q b.2 m e) refl

none_left :
    (sig : ℕ) (w : ℕ → Bool) (qs : List Sigqueue)
    → Backed w qs
    → sigismember w sig ≡ false
    → has_entry sig qs ≡ false
unfolding has_entry
none_left sig w [] b m = refl
none_left sig w (r ∷ qs) b m = ground (arith, b.1, none_left sig w qs b.2 m)

added-deleted :
    (w : ℕ → Bool) (sig : ℕ) → sigismember w sig ≡ false → sigdelset (sigaddset w sig) sig ≡ w
added-deleted w sig m = fun_ext λ j. ground (arith, m)

charged-freed :
    (users : Users) (u : ℕ)
    → update (update users u (users u + 1)) u (update users u (users u + 1) u - 1) ≡ users
charged-freed users u = fun_ext λ j. ground arith

module _ (sender : Sender) (sig : ℕ) (info : Info) (ns : Bool) (t : Task) (s : Sigpending)
    (users : Users) (named : Names sig info) (plain : is_forced info ≡ false)
    (memory : sender.memory ≡ true) (within : users t.user + 1 ≤ t.rlimit_sigpending)
    (h : IsPending s) (absent : sigismember s.signal sig ≡ false) where
  abbrev entry : Sigqueue
  entry = record { info = entry_info sender sig info ns; prealloc = false; user = t.user }

  abbrev queued : Sigpending
  queued = record { signal = sigaddset s.signal sig; queue = s.queue ++ entry ∷ [] }

  abbrev charged : Users
  charged = update users t.user (users t.user + 1)

  allocated : (o : Bool) → sigqueue_alloc sender t o users ≡ (some t.user, charged)
  unfolding sigqueue_alloc
  allocated o =
      let fits : leb (charged t.user) t.rlimit_sigpending ≡ true = ground (arith, within) in
      if-true ((o || leb (charged t.user) t.rlimit_sigpending) && sender.memory)
        (some t.user, charged) (none, update charged t.user (charged t.user - 1))
        (ground (arith, fits, memory))

  enqueued : enqueue sender sig info ns t s users ≡ (some queued, charged)
  unfolding enqueue enqueue_charged
  enqueued = rw (plain, allocated (if ltb sig sigrtmin then may_override info else false)) refl

  collected : collect_signal sig queued charged ≡ (s, entry.info, users)
  unfolding collect_signal sigqueue_free
  collected =
      let is : is_entry_of sig entry ≡ true =
        ground (arith, entry_signo sender sig info ns named) in
      rw (take_last sig s.signal s.queue entry h.backed absent is, collect_signal)
        (rw (none_left sig s.signal s.queue h.backed absent) (
          ap (λ w. (record s { signal = w }, entry.info, sigqueue_free entry charged))
            (added-deleted s.signal sig absent)
          ∙ ap (λ u. (s, entry.info, u)) (charged-freed users t.user)))

  -- Let a signal not be in a set that agrees with its queue, its record name it and not be a
  -- forced one, and there be memory and room under the limit for one entry more. Then
  -- `__send_signal` queues it, and `collect_signal` takes it off again with the record that was
  -- queued, and leaves the set, its queue and the counts of all users as they were before.
  pub enqueue_collects :
      (q : Sigpending) × (charges : Users) × (enqueue sender sig info ns t s users
        ≡ (some q, charges))
      × (collect_signal sig q charges ≡ (s, entry_info sender sig info ns, users))
  enqueue_collects = (queued, charged, enqueued, collected)
