-- ===== src/Signal/Actions/Discard.antt =====
-- A signal that is set to be ignored is discarded (signal.c, `do_sigaction`).
use linux_ker_dev.Prelude.{
  ℕ, ◌-◌, ◌≡◌, ◌≤◌, refl, true, false, List, [], ◌∷◌, some, Word, Bool-cases, inl, inr, arith, All,
  pos, and_word, clear_mask, update, ltb,
}
use linux_ker_dev.Signal.Numbers.{nsig, sigkill, sigstop}
use linux_ker_dev.Signal.Types.{KSigaction, Sigqueue, Sigpending, Task, Users, Process, sigismember}
use linux_ker_dev.Signal.Pending.{has_entry, is_nonempty, kept, rm_from_queue_full}
use linux_ker_dev.Signal.Pending.Choice.{true_ne_false, is_nonempty_holds}
use linux_ker_dev.Signal.Pending.Shape.{Backed}
use linux_ker_dev.Signal.Send.{over_group, each_thread, sig_handler_ignored}
use linux_ker_dev.Signal.Actions.{
  only, discard, discard_everywhere, install_action, do_sigaction, valid_signal, sig_kernel_only,
}

-- The signal is not pending here, and no entry is for it.
abbrev pub Gone : ℕ → Sigpending → Type 0
Gone sig s = (sigismember s.signal sig ≡ false) × (has_entry sig s.queue ≡ false)

kept-Gone :
    (sig : ℕ) (qs : List Sigqueue)
    → has_entry sig (kept (λ q. sigismember (only sig) q.info.si_signo) qs) ≡ false
unfolding kept has_entry
kept-Gone sig [] = refl
kept-Gone sig (q ∷ qs) = ground (arith, kept-Gone sig qs)

absent-Gone :
    (sig : ℕ) (w : Word) (qs : List Sigqueue)
    → Backed w qs
    → sigismember w sig ≡ false
    → has_entry sig qs ≡ false
unfolding has_entry
absent-Gone sig w [] b h = refl
absent-Gone sig w (q ∷ qs) b h = ground (arith, absent-Gone sig w qs)

not_in :
    (sig : ℕ) (w : Word)
    → 1 ≤ sig
    → sig ≤ nsig
    → is_nonempty (and_word (only sig) w) ≡ false
    → sigismember w sig ≡ false
not_in sig w l u h = elim (Bool-cases (w (sig - 1))) [
  | inl on ↦
      let both : and_word (only sig) w (sig - 1) ≡ true = ground (arith, on) in
      absurd
        (true_ne_false (is_nonempty_holds (and_word (only sig) w) (sig - 1) (omega arith) both) h)
  | inr off ↦ off
]

rm_full-Gone :
    (sig : ℕ) (s : Sigpending) (users : Users)
    → 1 ≤ sig
    → sig ≤ nsig
    → Backed s.signal s.queue
    → Gone sig (rm_from_queue_full (only sig) s users).0
unfolding rm_from_queue_full
rm_full-Gone sig s users l u b = elim (Bool-cases (is_nonempty (and_word (only sig) s.signal))) [
  | inl h ↦ rw h (ground arith, kept-Gone sig s.queue)
  | inr h ↦
      rw h (let out = not_in sig s.signal l u h in (out, absent-Gone sig s.signal s.queue b out))
]

each-Gone :
    (sig : ℕ) (ts : List Task) (users : Users)
    → 1 ≤ sig
    → sig ≤ nsig
    → All (λ t. Backed t.pending.signal t.pending.queue) ts
    → All (λ t. Gone sig t.pending) (each_thread (discard sig) ts users).0
unfolding each_thread
each-Gone sig [] users l u b = tt
each-Gone sig (t ∷ ts) users l u b =
    (rm_full-Gone sig t.pending users l u b.0, each-Gone sig ts (discard sig t users).1 l u b.1)

everywhere-Gone :
    (sig : ℕ) (p : Process)
    → 1 ≤ sig
    → sig ≤ nsig
    → Backed p.signal.shared_pending.signal p.signal.shared_pending.queue
    → All (λ t. Backed t.pending.signal t.pending.queue) (p.self ∷ p.others)
    → Gone sig (discard_everywhere sig p).signal.shared_pending
      × All
          (λ t. Gone sig t.pending)
          ((discard_everywhere sig p).self ∷ (discard_everywhere sig p).others)
unfolding discard_everywhere over_group
everywhere-Gone sig p l u s b =
    let users = (rm_from_queue_full (only sig) p.signal.shared_pending p.users).1 in
    (
      rm_full-Gone sig p.signal.shared_pending p.users l u s,
      (
        rm_full-Gone sig p.self.pending users l u b.0,
        each-Gone sig p.others (discard sig p.self users).1 l u b.1,
      ),
    )

-- If `do_sigaction` is given an action that ignores the signal, for a number from 1 to 64 that may
-- be caught, and every queued entry of the process is for a signal of its set, then it returns 0,
-- and afterwards the signal is neither pending nor queued for the group or for any thread.
pub do_sigaction_discards :
    (sig : ℕ) (act : KSigaction) (p : Process)
    → 1 ≤ sig
    → sig ≤ nsig
    → sig_kernel_only sig ≡ false
    → sig_handler_ignored act.sa_handler sig ≡ true
    → Backed p.signal.shared_pending.signal p.signal.shared_pending.queue
    → All (λ t. Backed t.pending.signal t.pending.queue) (p.self ∷ p.others)
    → ((do_sigaction sig (some act) p).2 ≡ pos 0)
      × Gone sig (do_sigaction sig (some act) p).0.signal.shared_pending
      × All
          (λ t. Gone sig t.pending)
          ((do_sigaction sig (some act) p).0.self ∷ (do_sigaction sig (some act) p).0.others)
unfolding do_sigaction install_action
do_sigaction_discards sig act p l u k i s b =
    let valid : valid_signal sig ≡ true = ground arith in
    let low : ltb sig 1 ≡ false = ground arith in
    let act' : KSigaction = record act {
      sa_mask = clear_mask act.sa_mask ((sigkill - 1) ∷ (sigstop - 1) ∷ []);
    } in
    let (shared, own) =
      everywhere-Gone sig (record p { action = update p.action (sig - 1) act' }) l u s b in
    rw (valid, low, k, i) (refl, shared, own)
