-- ===== src/Kyouko/Ring/System/Order.antt =====
-- What every run of the process and the card keeps: no request is lost, doubled or overtaken; and
-- how a run of the code can come to a halt.
use linux_ker_dev.Prelude.{
  ℕ, ◌+◌, inl, inr, ◌≤◌, ◌≡◌, ◌≢◌, refl, sym, ◌∙◌, subst, true, List, [], ◌∷◌, ◌++◌, none, some,
  length, arith,
}
use mathlib.Core.List.{append-nil, append_assoc}
use linux_ker_dev.Kyouko.Device.{Driver, ok}
use linux_ker_dev.Kyouko.Ring.{
  returned, initiate_transfer, resume_transfer, may_wake, dma_interrupt, irq_handled,
}
use linux_ker_dev.Kyouko.Ring.Spec.{IsRing, starts}
use linux_ker_dev.Kyouko.Ring.Contract.{Follows, head_of, answered-IsRing, dma_interrupt_takes_head}
use linux_ker_dev.Kyouko.Ring.System.{
  System, Flushed, Step, submit, sleep, wake, interrupt, Reach, here, next, waiting_of, Holds,
  IsStalled,
}
use linux_ker_dev.Kyouko.Ring.System.Steps.{
  Inv, submitted_now, Holds-appended, appended, unchanged_asleep, woken_stored, ok-injective,
  take_waiting, take_active,
}

append-ne-nil : (q : List ℕ) (n : ℕ) → q ++ n ∷ [] ≢ []
append-ne-nil [] n h = cc
append-ne-nil (x ∷ q) n h = cc

submit-IsStalled :
    (s : System) (q : List ℕ) (n : ℕ) (e : Driver)
    → IsStalled s q
    → n ≢ 0
    → initiate_transfer n s.driver ≡ ok returned e
    → IsStalled (record s { driver = e; submitted = s.submitted ++ n ∷ [] }) (q ++ n ∷ [])
submit-IsStalled s [] n e h nz run = absurd (h.not_empty refl)
submit-IsStalled s (x ∷ q) n e h nz run =
    let w = appended s (x ∷ q) n e h.ring h.mapped nz run in
    let same : starts e.log ≡ starts s.driver.log = w.started ∙ append-nil (starts s.driver.log) in
    record {
      ring = w.ring;
      mapped = w.mapped;
      not_empty = append-ne-nil (x ∷ q) n;
      in_order = rw (same, ← h.in_order, append_assoc) refl;
      balance = rw same h.balance;
    }

pub wake-IsStalled :
    (s : System) (q : List ℕ) (n : ℕ) (e : Driver)
    → IsRing s.driver q
    → s.driver.control_mapped ≡ true
    → starts s.driver.log ++ q ≡ s.submitted
    → s.ended ≡ length (starts s.driver.log)
    → may_wake s.driver ≡ true
    → resume_transfer n s.driver ≡ ok tt e
    → IsStalled
        (record s { driver = e; submitted = s.submitted ++ n ∷ []; sleeper = none })
        (q ++ n ∷ [])
wake-IsStalled s q n e r m o b w run =
    let (mapped, log, ring) = woken_stored s q n e r w run in
    record {
      ring = ring;
      mapped = sym mapped ∙ m;
      not_empty = append-ne-nil q n;
      in_order = rw (← log, ← o, append_assoc) refl;
      balance = rw (← log) b;
    }

wake_held :
    (s : System) (x : ℕ) (q : List ℕ) (n : ℕ) (e : Driver)
    → Holds s (x ∷ q)
    → may_wake s.driver ≡ true
    → resume_transfer n s.driver ≡ ok tt e
    → Holds
        (record s { driver = e; submitted = s.submitted ++ n ∷ []; sleeper = none })
        (x ∷ q ++ n ∷ [])
wake_held s x q n e h w run =
    let (mapped, log, ring) = woken_stored s (x ∷ q) n e h.ring w run in
    record {
      ring = ring;
      mapped = sym mapped ∙ h.mapped;
      in_order = rw (← log, ← h.in_order, append_assoc) refl;
      balance = rw (← log) h.balance;
    }

pub interrupt_held :
    (s : System) (x : ℕ) (q : List ℕ) (f : ℕ → List ℕ) (e : Driver)
    → Holds s (x ∷ q)
    → Flushed f
    → dma_interrupt (record s.driver { answers = f }) ≡ ok irq_handled e
    → Holds (record s { driver = e; ended = s.ended + 1 }) q
interrupt_held s x q f e h c run =
    let d : Driver = record s.driver { answers = f } in
    let (e', run', w') =
      dma_interrupt_takes_head d c.flags c.later h.mapped c.status x q c.rest c.flushed
        (answered-IsRing s.driver (x ∷ q) f h.ring) c.drains in
    let w : Follows d e q (head_of q) =
      subst (λ k. Follows d k q (head_of q)) (ok-injective (sym run' ∙ run)) w' in
    record {
      ring = w.ring;
      mapped = w.mapped;
      in_order = rw w.started (take_waiting q (starts s.driver.log) ∙ h.in_order);
      balance = rw (w.started, h.balance) (take_active q (starts s.driver.log));
    }

asleep_held :
    (s : System) (q : List ℕ) (n : ℕ) (e : Driver)
    → s.driver ≡ e
    → Holds s q
    → Holds (record s { driver = e; sleeper = some n }) q
asleep_held s q n e same h =
    subst (λ d. Holds (record s { driver = d; sleeper = some n }) q) same
      (record { ring = h.ring; mapped = h.mapped; in_order = h.in_order; balance = h.balance })

asleep-IsStalled :
    (s : System) (q : List ℕ) (n : ℕ) (e : Driver)
    → s.driver ≡ e
    → IsStalled s q
    → IsStalled (record s { driver = e; sleeper = some n }) q
asleep-IsStalled s q n e same h =
    subst (λ d. IsStalled (record s { driver = d; sleeper = some n }) q) same
      (record {
        ring = h.ring;
        mapped = h.mapped;
        not_empty = h.not_empty;
        in_order = h.in_order;
        balance = h.balance;
      })

abbrev Stays : System → System → Type 0
Stays s u = (p : List ℕ) × IsStalled u p × (u.ended ≡ s.ended)

-- The step that each kind of event makes of a stalled system.
pub Step-IsStalled :
    (s t : System) (q : List ℕ)
    → Step s t
    → IsStalled s q
    → (p : List ℕ) × IsStalled t p × (t.ended ≡ s.ended)
Step-IsStalled s t q (submit n e awake nz run eq) h =
    subst (Stays s) (sym eq) (q ++ n ∷ [], submit-IsStalled s q n e h nz run, refl)
Step-IsStalled s t q (sleep n e awake nz run eq) h =
    subst (Stays s) (sym eq)
      (q, asleep-IsStalled s q n e (unchanged_asleep s q n e h.ring h.mapped nz run) h, refl)
Step-IsStalled s t q (wake n e asleep' w run eq) h =
    subst (Stays s) (sym eq)
      (q ++ n ∷ [], wake-IsStalled s q n e h.ring h.mapped h.in_order h.balance w run, refl)
Step-IsStalled s t q (interrupt f e due c run eq) h = absurd (omega (arith, h.balance))

Step-Holds : (s t : System) (q : List ℕ) → Step s t → Holds s q → Inv t
Step-Holds s t q (submit n e awake nz run eq) h = subst Inv (sym eq) (
    inl (
      q ++ n ∷ [],
      Holds-appended s (submitted_now s q n e) q n h (appended s q n e h.ring h.mapped nz run) refl
          refl,
    ))
Step-Holds s t q (sleep n e awake nz run eq) h =
    subst Inv (sym eq)
      (inl (q, asleep_held s q n e (unchanged_asleep s q n e h.ring h.mapped nz run) h))
Step-Holds s t [] (wake n e asleep' w run eq) h = subst Inv (sym eq) (
    inr
      (n ∷ [], wake-IsStalled s [] n e h.ring h.mapped h.in_order (omega (arith, h.balance)) w run))
Step-Holds s t (x ∷ q) (wake n e asleep' w run eq) h =
    subst Inv (sym eq) (inl (x ∷ q ++ n ∷ [], wake_held s x q n e h w run))
Step-Holds s t [] (interrupt f e due c run eq) h = absurd (omega (arith, h.balance))
Step-Holds s t (x ∷ q) (interrupt f e due c run eq) h =
    subst Inv (sym eq) (inl (q, interrupt_held s x q f e h c run))

pub Step-Inv : (s t : System) → Step s t → Inv s → Inv t
Step-Inv s t st (inl (q, h)) = Step-Holds s t q st h
Step-Inv s t st (inr (q, h)) = let (p, k, same) = Step-IsStalled s t q st h in inr (p, k)

pub Reach-Inv : {s t : System} → Reach s t → Inv s → Inv t
Reach-Inv here h = h
Reach-Inv (next {t = u} {u = v} r st) h = Step-Inv u v st (Reach-Inv r h)

waiting_few : (t : System) (q : List ℕ) → Holds t q → length (waiting_of q) ≤ 8
waiting_few t [] k = omega arith
waiting_few t (x ∷ q) k = omega (arith, k.ring.bounded)

-- From a state that holds the empty ring, in whatever order one process submits, sleeps and wakes
-- and the card ends its transfers: what the card was given is a first part of what was submitted,
-- in the same order, with nothing left out or given twice, and at most eight requests are still to
-- be given.
pub no_request_lost :
    {s t : System}
    → Reach s t
    → Holds s []
    → (rest : List ℕ) × (starts t.driver.log ++ rest ≡ t.submitted) × (length rest ≤ 8)
no_request_lost {t = t} r h = elim (Reach-Inv r (inl ([], h))) [
  | inl (q, k) ↦ (waiting_of q, k.in_order, waiting_few t q k)
  | inr (q, k) ↦ (q, k.in_order, k.ring.bounded)
]

Reach-Stays : {s t : System} → Reach s t → (q : List ℕ) → IsStalled s q → Stays s t
Reach-Stays here q h = (q, h, refl)
Reach-Stays (next {t = u} {u = v} r st) q h =
    let (p, k, same) = Reach-Stays r q h in
    let (p', k', same') = Step-IsStalled u v p st k in (p', k', same' ∙ same)

-- No request is given to the card from a stalled state on.
pub Reach-IsStalled :
    {s t : System}
    → Reach s t
    → (q : List ℕ) → IsStalled s q
    → length (starts t.driver.log) ≡ length (starts s.driver.log)
Reach-IsStalled r q h = let (p, k, same) = Reach-Stays r q h in omega (arith, k.balance, h.balance)
