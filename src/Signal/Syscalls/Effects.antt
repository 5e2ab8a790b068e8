-- ===== src/Signal/Syscalls/Effects.antt =====
-- What `smunch` and `init_sigcounter` do.
use linux_ker_dev.Prelude.{
  ℕ, zero, suc, ◌+◌, ◌≤◌, ◌<◌, ◌≡◌, ◌≢◌, refl, ◌∙◌, true, false, ◌||◌, List, [], ◌∷◌, test_mask,
  no_bits, none, some, Word, arith, pos, length, get_elem?, set, get_elem?-none, length-set,
  Option-cases, inl, inr,
}
use linux_ker_dev.Signal.Numbers.{sigkill}
use linux_ker_dev.Signal.Types.{Process, sigismember, thread_group_empty}
use linux_ker_dev.Signal.Syscalls.{
  Smunched, is_dead, asks_kill, smunch_kill, smunch_pend, smunch, smunch_driver, clear_counters,
  init_sigcounter,
}

-- The result of a call that comes to its end: the process as it is then, not released, and 0
abbrev pub ends_with : Process → Smunched
ends_with q = record { process = some q; released = false; value = pos 0 }

-- `q` is `p` with its thread marked to die: SIGKILL is pending, no other signal joins those that are,
-- the thread is not flagged to look for signals, and it is woken from whatever sleep.
pub record IsMarked (p q : Process) : Type 0 where
  pub killed : sigismember q.self.pending.signal sigkill ≡ true
  pub others :
      (sig : ℕ)
      → 1 ≤ sig
      → sig ≢ sigkill
      → sigismember q.self.pending.signal sig ≡ sigismember p.self.pending.signal sig
  pub unflagged : q.self.tif_sigpending ≡ p.self.tif_sigpending
  pub runs : test_mask p.self.state (0 ∷ 1 ∷ 2 ∷ 3 ∷ []) ≡ true → q.self.state ≡ no_bits

-- `q` is `p` with the signals of the pattern pending as well, with its thread flagged to look for
-- signals and woken if it sleeps interruptibly.
pub record HasJoined (pattern : Word) (p q : Process) : Type 0 where
  pub joined : (b : ℕ) → q.self.pending.signal b ≡ (p.self.pending.signal b || pattern b)
  pub flagged : q.self.tif_sigpending ≡ true
  pub runs : test_mask p.self.state (0 ∷ []) ≡ true → q.self.state ≡ no_bits

kill-IsMarked : (p : Process) → (q : Process) × (smunch_kill p ≡ ends_with q) × IsMarked p q
unfolding smunch_kill
kill-IsMarked p = (
  _,
  refl,
  record {
    killed = refl;
    others = λ sig l d. ground arith;
    unflagged = refl;
    runs = λ r. rw r refl;
  },
)

pend-HasJoined :
    (p : Process) (pattern : Word)
    → (q : Process) × (smunch_pend p pattern ≡ ends_with q) × HasJoined pattern p q
unfolding smunch_pend
pend-HasJoined p pattern =
    (_, refl, record { joined = λ b. refl; flagged = refl; runs = λ r. rw r refl })

module _ (p : Process) (pattern : Word) (here : p.sighand ≡ true)
    (single : thread_group_empty p ≡ true) where
  -- What the two versions of `smunch` do to a process of one thread that can be locked. Both
  -- release a dead task that is asked to die. A live one that is asked to die both leave with
  -- SIGKILL pending, with no other signal joining those that are, without setting the flag by
  -- which it learns of a pending signal, and woken from whatever sleep. To a live task that is not
  -- asked to die both add the signals of the pattern, flag it, and wake it from an interruptible
  -- sleep. A dead task that is not asked to die is left alone by the version of systemCall, while
  -- that of RW adds the signals of the pattern, flags it and wakes it.
  pub smunch_versions :
      (is_dead p.self ≡ true
        → asks_kill pattern ≡ true
        → (smunch (some p) pattern ≡ record { process = some p; released = true; value = pos 0 })
          × (smunch_driver (some p) pattern
              ≡ record { process = some p; released = true; value = pos 0 }))
      × (is_dead p.self ≡ false
          → asks_kill pattern ≡ true
          → (q : Process) × (smunch (some p) pattern ≡ ends_with q)
            × (smunch_driver (some p) pattern ≡ ends_with q)
            × IsMarked p q)
      × (is_dead p.self ≡ false
          → asks_kill pattern ≡ false
          → (q : Process) × (smunch (some p) pattern ≡ ends_with q)
            × (smunch_driver (some p) pattern ≡ ends_with q)
            × HasJoined pattern p q)
      × (is_dead p.self ≡ true
          → asks_kill pattern ≡ false
          → ((q : Process) × (smunch (some p) pattern ≡ ends_with q) × HasJoined pattern p q)
            × (smunch_driver (some p) pattern ≡ ends_with p))
  unfolding smunch smunch_driver
  smunch_versions = (
    λ d k. (rw (here, single, d, k) refl, rw (here, single, d, k) refl),
    λ d k.
        let (q, e, marked) = kill-IsMarked p in
        let one : smunch (some p) pattern ≡ smunch_kill p = rw (here, single, d, k) refl in
        let other : smunch_driver (some p) pattern ≡ smunch_kill p = rw (here, single, d, k) refl in
        (q, one ∙ e, other ∙ e, marked),
    λ d k.
        let (q, e, joined) = pend-HasJoined p pattern in
        let one : smunch (some p) pattern ≡ smunch_pend p pattern = rw (here, single, d, k) refl in
        let other : smunch_driver (some p) pattern ≡ smunch_pend p pattern =
          rw (here, single, d, k) refl in
        (q, one ∙ e, other ∙ e, joined),
    λ d k.
        let (q, e, joined) = pend-HasJoined p pattern in
        let one : smunch (some p) pattern ≡ smunch_pend p pattern = rw (here, single, d, k) refl in
        ((q, one ∙ e, joined), rw (here, single, d, k) refl),
  )

-- The table as the loop of `init_sigcounter` leaves it: none if it is too short for the rounds.
clear_counters-short :
    (rounds i : ℕ) (counters : List ℕ)
    → i ≤ length counters
    → length counters < i + rounds
    → clear_counters rounds i counters ≡ none
unfolding clear_counters
clear_counters-short zero i counters l h = absurd (omega arith)
clear_counters-short (suc rounds) i counters l h = elim (Option-cases (get_elem? counters i)) [
  | inl e ↦ ground (arith, e)
  | inr (n, e) ↦ ground (
    arith,
    e,
    get_elem?-none counters i,
    length-set counters i 0,
    clear_counters-short rounds (i + 1) (set counters i 0),
  )
]

-- `init_sigcounter` of a process whose table of counters has fewer than 66 elements writes beyond
-- its end.
pub init_sigcounter_overruns : (p : Process) → length p.counters < 66 → init_sigcounter p ≡ none
unfolding init_sigcounter
init_sigcounter_overruns p h = ground (arith, clear_counters-short 66 0 p.counters)
