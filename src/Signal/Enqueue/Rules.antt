-- ===== src/Signal/Enqueue/Rules.antt =====
-- When a signal that `prepare_signal` lets through is queued, only marked, or refused, and what the
-- users are charged (signal.c, `__sigqueue_alloc` and `__send_signal`).
use linux_ker_dev.Prelude.{
  ℕ, ◌-◌, ◌+◌, ◌≤◌, ◌≡◌, refl, ◌∙◌, Bool, true, false, not, ◌&&◌, ◌||◌, List, [], ◌∷◌, ◌++◌, arith,
  ◌==◌, ltb, leb, if◌then◌else◌, Option, none, some, if-cases, update, count_if, count_if-append,
}
use linux_ker_dev.Signal.Numbers.{sigrtmin}
use linux_ker_dev.Signal.Types.{
  Info, siginfo, send_sig_noinfo, send_sig_priv, send_sig_forced, Sigqueue, Sigpending, Task, Users,
  sigismember, sigaddset, is_si_special,
}
use linux_ker_dev.Signal.Pending.{is_entry_of}
use linux_ker_dev.Signal.Pending.Shape.{Backed, IsPending}
use linux_ker_dev.Signal.Enqueue.{
  Sender, sigqueue_alloc, legacy_queue, entry_info, is_forced, may_override, not_from_kill,
  enqueue_charged, enqueue,
}

-- The entries that are charged to a user.
abbrev pub is_charged_to : ℕ → Sigqueue → Bool
is_charged_to u q = not q.prealloc && q.user == u

-- Every user is charged for the entries of the queue, and for as many more as `rest` says.
abbrev pub Balanced : (ℕ → ℕ) → List Sigqueue → Users → Type 0
Balanced rest qs users = (u : ℕ) → users u ≡ rest u + count_if (is_charged_to u) qs

-- A record that a sender hands over names the signal that it is sent as.
abbrev pub Names : ℕ → Info → Type 0
Names sig (siginfo i) = i.si_signo ≡ sig
Names sig _ = Unit {0}

-- What queueing gives: a new set that holds the signal, agrees with its queue, and is paid for; or a
-- refusal that charges nobody, of a real-time signal with a record that does not come from `kill`.
abbrev pub EnqueueOutcome : ℕ → Info → Sigpending → (ℕ → ℕ) → Option Sigpending × Users → Type 0
EnqueueOutcome sig info s rest (none, users) =
    (sigrtmin ≤ sig)
    × (not_from_kill info ≡ true)
    × (is_si_special info ≡ false)
    × Balanced rest s.queue users
EnqueueOutcome sig info s rest (some s', users) =
    IsPending s' × (s'.signal ≡ sigaddset s.signal sig) × Balanced rest s'.queue users

Backed-added :
    (sig : ℕ) (w : ℕ → Bool) (qs : List Sigqueue) → Backed w qs → Backed (sigaddset w sig) qs
Backed-added sig w [] b = tt
Backed-added sig w (q ∷ qs) b = (b.0, ground (arith, b.1), Backed-added sig w qs b.2)

Backed-append :
    (w : ℕ → Bool) (qs : List Sigqueue) (q : Sigqueue)
    → Backed w qs
    → 1 ≤ q.info.si_signo
    → sigismember w q.info.si_signo ≡ true
    → Backed w (qs ++ q ∷ [])
Backed-append w [] q b l m = (l, m, tt)
Backed-append w (r ∷ qs) q b l m = (b.0, b.1, Backed-append w qs q b.2 l m)

no_entry :
    (sig : ℕ) (w : ℕ → Bool) (qs : List Sigqueue)
    → Backed w qs
    → sigismember w sig ≡ false
    → count_if (is_entry_of sig) qs ≡ 0
no_entry sig w [] b m = refl
no_entry sig w (q ∷ qs) b m = ground (arith, no_entry sig w qs b.2 m)

pub entry_signo :
    (sender : Sender) (sig : ℕ) (info : Info) (ns : Bool)
    → Names sig info
    → (entry_info sender sig info ns).si_signo ≡ sig
entry_signo sender sig (siginfo i) ns h = ground arith
entry_signo sender sig send_sig_noinfo ns h = refl
entry_signo sender sig send_sig_priv ns h = refl
entry_signo sender sig send_sig_forced ns h = refl

-- What the allocation does to the counts.
abbrev Allocated : Users → Option ℕ × Users → Type 0
Allocated users (none, users') = (u : ℕ) → users' u ≡ users u
Allocated users (some user, users') = (u : ℕ) → users' u ≡ users u + (if user == u then 1 else 0)

sigqueue_alloc-Allocated :
    (sender : Sender) (t : Task) (o : Bool) (users : Users)
    → Allocated users (sigqueue_alloc sender t o users)
unfolding sigqueue_alloc
sigqueue_alloc-Allocated sender t o users =
    let charged = update users t.user (users t.user + 1) in
    if-cases (Allocated users) ((o || leb (charged t.user) t.rlimit_sigpending) && sender.memory)
      (some t.user, charged) (none, update charged t.user (charged t.user - 1))
      (λ e u. ground arith) (λ e u. ground arith)

module _ (sender : Sender) (sig : ℕ) (info : Info) (ns : Bool) (s : Sigpending) (rest : ℕ → ℕ)
    (positive : 1 ≤ sig) (named : Names sig info) (fresh : legacy_queue s sig ≡ false)
    (h : IsPending s) where
  abbrev marked : Sigpending
  marked = record s { signal = sigaddset s.signal sig }

  abbrev entry : ℕ → Sigqueue
  entry user = record { info = entry_info sender sig info ns; prealloc = false; user = user }

  abbrev queued : ℕ → Sigpending
  queued user = record { signal = sigaddset s.signal sig; queue = s.queue ++ entry user ∷ [] }

  marked-IsPending : IsPending marked
  marked-IsPending = record {
    backed = Backed-added sig s.signal s.queue h.backed;
    single = h.single;
  }

  queued-IsPending : (user : ℕ) → IsPending (queued user)
  queued-IsPending user =
      let signo = entry_signo sender sig info ns named in
      record {
        backed =
            Backed-append (sigaddset s.signal sig) s.queue (entry user)
              (Backed-added sig s.signal s.queue h.backed) (omega (arith, signo))
              (ground (arith, signo));
        single = λ o l. ground (
          arith,
          count_if-append (is_entry_of o) s.queue (entry user ∷ []),
          h.single o l,
          no_entry sig s.signal s.queue h.backed,
          signo,
        );
      }

  charged_outcome :
      (users : Users) (r : Option ℕ × Users)
      → Balanced rest s.queue users
      → Allocated users r
      → EnqueueOutcome sig info s rest (enqueue_charged sender sig info ns s r)
  unfolding enqueue_charged
  charged_outcome users (some user, users') b a = (
    queued-IsPending user,
    refl,
    λ u. ground (arith, b u, a u, count_if-append (is_charged_to u) s.queue (entry user ∷ [])),
  )
  charged_outcome users (none, users') b a =
      if-cases (EnqueueOutcome sig info s rest)
        (not (is_si_special info) && (leb sigrtmin sig && not_from_kill info)) (none, users')
        (some marked, users') (λ e. (ground arith, ground arith, ground arith, λ u. a u ∙ b u))
        (λ e. (marked-IsPending, refl, λ u. a u ∙ b u))

  -- Let the signal number be positive, a handed record name that signal, the signal not be a
  -- second pending one below the real-time signals, the set agree with its queue, and every user
  -- be charged for its entries. Then queueing gives a set that holds the signal as well, agrees
  -- with its queue and is charged for exactly; or it refuses, charging nobody, and does so only
  -- for a real-time signal whose record does not come from `kill`.
  pub enqueue_outcome :
      (t : Task) (users : Users)
      → Balanced rest s.queue users
      → EnqueueOutcome sig info s rest (enqueue sender sig info ns t s users)
  unfolding enqueue
  enqueue_outcome t users b =
      let charged =
        sigqueue_alloc sender t (if ltb sig sigrtmin then may_override info else false) users in
      if-cases (EnqueueOutcome sig info s rest) (is_forced info) (some marked, users)
        (enqueue_charged sender sig info ns s charged) (λ e. (marked-IsPending, refl, b))
        (λ e. charged_outcome users charged b (sigqueue_alloc-Allocated sender t _ users))
