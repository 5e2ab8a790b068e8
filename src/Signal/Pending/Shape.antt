-- ===== src/Signal/Pending/Shape.antt =====
-- The shape of a set of pending signals with its queue, and that the operations of signal.c keep
-- it.
use linux_ker_dev.Prelude.{
  ℕ, suc, ◌-◌, ◌≤◌, ◌<◌, ◌≡◌, refl, Bool, true, false, not, ◌&&◌, Option, none, some, inl, inr,
  Word, Mask, has_bit, test_mask, clear_mask, arith, List, [], ◌∷◌, Bool-cases, count_if,
}
use native.Mathlib.Nat.{le_trans}
use linux_ker_dev.Signal.Numbers.{sigrtmin}
use linux_ker_dev.Signal.Types.{Sigqueue, Sigpending, Users, sigismember, sigdelset}
use linux_ker_dev.Signal.Pending.{
  is_entry_of, take_first, has_entry, is_removed, kept, rm_from_queue,
}

-- Every entry is for a signal that is in the set.
abbrev pub Backed : Word → List Sigqueue → Type 0
Backed w [] = Unit {0}
Backed w (q ∷ qs) = (1 ≤ q.info.si_signo) × (sigismember w q.info.si_signo ≡ true) × Backed w qs

-- The set of pending signals and its queue agree: every entry is for a signal in the set, and
-- no signal below the real-time ones has two entries.
pub record IsPending (s : Sigpending) : Type 0 where
  pub backed : Backed s.signal s.queue
  pub single : (sig : ℕ) → sig < sigrtmin → count_if (is_entry_of sig) s.queue ≤ 1

-- Taking entries off.
kept-count :
    (p out : Sigqueue → Bool) (qs : List Sigqueue) → count_if p (kept out qs) ≤ count_if p qs
unfolding kept
kept-count p out [] = omega arith
kept-count p out (q ∷ qs) = ground (arith, kept-count p out qs)

-- A mask of signals below the real-time ones.
abbrev pub IsLegacy : Mask → Type 0
IsLegacy mask = (b : ℕ) → has_bit mask b ≡ true → suc b < sigrtmin

Backed-kept :
    (w : Word) (mask : Mask) (qs : List Sigqueue)
    → IsLegacy mask
    → Backed w qs
    → Backed (clear_mask w mask) (kept (is_removed mask) qs)
unfolding kept
Backed-kept w mask [] l h = tt
Backed-kept w mask (q ∷ qs) l h =
    ground (arith, l (q.info.si_signo - 1), Backed-kept w mask qs l h.2)

pub test_mask-absent :
    (w : Word) (m : Mask) (c : ℕ) → test_mask w m ≡ false → has_bit m c ≡ true → w c ≡ false
test_mask-absent w [] c h k = cc
test_mask-absent w (b ∷ m) c h k = ground (arith, test_mask-absent w m c)

test_mask-member :
    (w : Word) (m : Mask) (c : ℕ) → test_mask w m ≡ false → w c ≡ (w c && not (has_bit m c))
test_mask-member w [] c h = ground arith
test_mask-member w (b ∷ m) c h = ground (arith, test_mask-member w m c)

-- For a mask of signals below the real-time ones and a set that agrees with its queue,
-- `rm_from_queue` keeps that agreement and takes exactly the signals of the mask out of the set.
pub rm_from_queue_lem :
    (mask : Mask) (s : Sigpending) (users : Users)
    → IsLegacy mask
    → IsPending s
    → IsPending (rm_from_queue mask s users).0
      × ((sig : ℕ)
          → sigismember (rm_from_queue mask s users).0.signal sig
            ≡ (sigismember s.signal sig && not (has_bit mask (sig - 1))))
unfolding rm_from_queue
rm_from_queue_lem mask s users l h = elim (Bool-cases (test_mask s.signal mask)) [
  | inl some_in ↦ rw some_in (
    record {
      backed = Backed-kept s.signal mask s.queue l h.backed;
      single = λ sig k.
          le_trans (kept-count (is_entry_of sig) (is_removed mask) s.queue) (h.single sig k);
    },
    λ sig. refl,
  )
  | inr none_in ↦ rw none_in (h, λ sig. test_mask-member s.signal mask (sig - 1) none_in)
]

-- What the search for the first entry finds.
abbrev pub Found : ℕ → List Sigqueue → Option (Sigqueue × List Sigqueue) → Type 0
Found sig qs none = has_entry sig qs ≡ false
Found sig qs (some (q, rest)) =
    (is_entry_of sig q ≡ true)
    × ((p : Sigqueue → Bool) → count_if p qs ≡ count_if p (q ∷ rest))
    × ((w : Word) → Backed w qs → Backed w rest)

Found-later :
    (sig : ℕ) (q : Sigqueue) (qs : List Sigqueue) (o : Option (Sigqueue × List Sigqueue))
    → is_entry_of sig q ≡ false
    → Found sig qs o
    → Found sig (q ∷ qs) (elim o [ none ↦ none | some (r, rest) ↦ some (r, q ∷ rest) ])
unfolding has_entry
Found-later sig q qs none e h = rw e h
Found-later sig q qs (some (r, rest)) e h =
    (h.0, λ p. ground (arith, h.1 p), λ w b. (b.0, b.1, h.2 w b.2))

pub take_first-Found : (sig : ℕ) (qs : List Sigqueue) → Found sig qs (take_first sig qs)
unfolding take_first has_entry
take_first-Found sig [] = refl
take_first-Found sig (q ∷ qs) = elim (Bool-cases (is_entry_of sig q)) [
  | inl e ↦ rw e (e, λ p. refl, λ w b. b.2)
  | inr e ↦ rw e (Found-later sig q qs (take_first sig qs) e (take_first-Found sig qs))
]

pub Backed-without :
    (sig : ℕ) (w : Word) (qs : List Sigqueue)
    → 1 ≤ sig
    → has_entry sig qs ≡ false
    → Backed w qs
    → Backed (sigdelset w sig) qs
unfolding has_entry
Backed-without sig w [] l e b = tt
Backed-without sig w (q ∷ qs) l e b = ground (arith, Backed-without sig w qs l)
