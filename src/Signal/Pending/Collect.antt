-- ===== src/Signal/Pending/Collect.antt =====
-- Taking a signal out of a set of pending signals (signal.c, `collect_signal`).
use linux_ker_dev.Prelude.{
  ℕ, ◌-◌, ◌≤◌, ◌≡◌, ◌≢◌, refl, sym, ◌∙◌, Bool, true, false, Option, none, some, Word, arith,
  if◌then◌else◌, List, [], ◌∷◌, count_if,
}
use linux_ker_dev.Signal.Types.{Siginfo, Sigqueue, Sigpending, Users, sigismember, sigdelset}
use linux_ker_dev.Signal.Pending.{
  is_entry_of, take_first, has_entry, collect_signal, sigqueue_free, bare_info,
}
use linux_ker_dev.Signal.Pending.Shape.{Backed, IsPending, Found, take_first-Found, Backed-without}

has_entry-member :
    (sig : ℕ) (w : Word) (qs : List Sigqueue)
    → Backed w qs
    → has_entry sig qs ≡ true
    → sigismember w sig ≡ true
unfolding has_entry
has_entry-member sig w [] b h = cc
has_entry-member sig w (q ∷ qs) b h = ground (arith, has_entry-member sig w qs b.2)

-- What a caller has of `collect_signal`: the shape is kept, the record is one for the signal, the
-- signal stays in the set exactly if an entry for it is left, one entry for it is gone if there
-- was one, and no other signal is touched.
pub record Collected (sig : ℕ) (s : Sigpending) (r : Sigpending × Siginfo × Users) : Type 0 where
  pub shape : IsPending r.0
  pub signo : r.1.si_signo ≡ sig
  pub member : sigismember r.0.signal sig ≡ has_entry sig r.0.queue
  pub one_less : count_if (is_entry_of sig) r.0.queue ≡ count_if (is_entry_of sig) s.queue - 1
  pub others :
      (o : ℕ)
      → 1 ≤ o
      → o ≢ sig
      → (sigismember r.0.signal o ≡ sigismember s.signal o)
        × (count_if (is_entry_of o) r.0.queue ≡ count_if (is_entry_of o) s.queue)

no_entries :
    (sig : ℕ) (qs : List Sigqueue) → has_entry sig qs ≡ false → count_if (is_entry_of sig) qs ≡ 0
unfolding has_entry
no_entries sig [] h = refl
no_entries sig (q ∷ qs) h = ground (arith, no_entries sig qs)

module _ (sig : ℕ) (s : Sigpending) (users : Users) (positive : 1 ≤ sig) (h : IsPending s) where
  Collected-bare :
      has_entry sig s.queue ≡ false
      → Collected sig s (record s { signal = sigdelset s.signal sig }, bare_info sig, users)
  Collected-bare e = record {
    shape = record {
      backed = Backed-without sig s.signal s.queue positive e h.backed;
      single = h.single;
    };
    signo = refl;
    member = rw e (ground arith);
    one_less = omega (arith, no_entries sig s.queue e);
    others = λ o p n. (ground arith, refl);
  }

  Collected-entry :
      (q : Sigqueue) (rest : List Sigqueue)
      → Found sig s.queue (some (q, rest))
      → (b : Bool) → has_entry sig rest ≡ b
      → Collected sig s (
        record { signal = if b then s.signal else sigdelset s.signal sig; queue = rest },
        q.info,
        sigqueue_free q users,
      )
  Collected-entry q rest f true e = record {
    shape = record {
      backed = f.2 s.signal h.backed;
      single = λ o k. ground (arith, f.1 (is_entry_of o), h.single o k);
    };
    signo = ground (arith, f.0);
    member = has_entry-member sig s.signal rest (f.2 s.signal h.backed) e ∙ sym e;
    one_less = ground (arith, f.0, f.1 (is_entry_of sig));
    others = λ o p n. (refl, ground (arith, f.0, f.1 (is_entry_of o)));
  }
  Collected-entry q rest f false e = record {
    shape = record {
      backed = Backed-without sig s.signal rest positive e (f.2 s.signal h.backed);
      single = λ o k. ground (arith, f.1 (is_entry_of o), h.single o k);
    };
    signo = ground (arith, f.0);
    member = rw e (ground arith);
    one_less = ground (arith, f.0, f.1 (is_entry_of sig));
    others = λ o p n. (ground arith, ground (arith, f.0, f.1 (is_entry_of o)));
  }

collect-Found :
    (sig : ℕ) (s : Sigpending) (users : Users) (o : Option (Sigqueue × List Sigqueue))
    → 1 ≤ sig
    → IsPending s
    → take_first sig s.queue ≡ o
    → Found sig s.queue o
    → Collected sig s (collect_signal sig s users)
unfolding collect_signal
collect-Found sig s users none p h e f = rw (e, collect_signal) (Collected-bare sig s users p h f)
collect-Found sig s users (some (q, rest)) p h e f =
    rw (e, collect_signal) (Collected-entry sig s users p h q rest f (has_entry sig rest) refl)

-- On a set that agrees with its queue, `collect_signal` of a positive number keeps that agreement,
-- gives a record for the signal, leaves the signal in the set exactly if an entry for it is left,
-- takes one entry for it off if there is one, and touches no other signal.
pub collect_signal_lem :
    (sig : ℕ) (s : Sigpending) (users : Users)
    → 1 ≤ sig
    → IsPending s
    → Collected sig s (collect_signal sig s users)
collect_signal_lem sig s users p h =
    collect-Found sig s users (take_first sig s.queue) p h refl (take_first-Found sig s.queue)
