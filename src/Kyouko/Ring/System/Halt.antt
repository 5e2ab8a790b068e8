-- ===== src/Kyouko/Ring/System/Halt.antt =====
-- A request that is stored by a process which wakes when the ring has run empty is never given to
-- the card (dmaBuffer.c, `initiateTransfer` behind `wait_event_interruptible`).
use linux_ker_dev.Prelude.{
  ℕ, ◌+◌, ◌≡◌, refl, ◌∙◌, List, [], ◌∷◌, ◌++◌, none, some, length, arith, ◌==◌, if◌then◌else◌,
}
use linux_ker_dev.Kyouko.Regs.{info_status}
use linux_ker_dev.Kyouko.Device.{Driver}
use linux_ker_dev.Kyouko.Ring.Spec.{starts}
use linux_ker_dev.Kyouko.Ring.Queue.{stored, resume_transfer-stored}
use linux_ker_dev.Kyouko.Ring.Contract.{answered-IsRing, dma_interrupt_takes_head}
use linux_ker_dev.Kyouko.Ring.System.{
  System, Flushed, Step, wake, interrupt, Reach, here, next, Holds, IsStalled,
}
use linux_ker_dev.Kyouko.Ring.System.Steps.{may_wake_iff}
use linux_ker_dev.Kyouko.Ring.System.Order.{interrupt_held, wake-IsStalled, Reach-IsStalled}

cons : {s t u : System} → Step s t → Reach t u → Reach s u
cons st here = next here st
cons st (next r last) = next (cons st r) last

-- A card that has flushed a buffer and has an empty command queue.
abbrev flushed_answers : ℕ → List ℕ
flushed_answers reg = if reg == info_status then 2 ∷ [] else 0 ∷ []

card-Flushed : Flushed flushed_answers
card-Flushed = record {
  flags = 2;
  later = [];
  rest = [];
  status = refl;
  flushed = refl;
  drains = refl;
}

-- From every state that holds a queue, some run leads to a state that holds the empty ring, with
-- the same requests submitted and the same process asleep.
pub drained :
    (q : List ℕ) (s : System)
    → Holds s q
    → (t : System) × Reach s t × Holds t [] × (t.sleeper ≡ s.sleeper) × (t.submitted ≡ s.submitted)
drained [] s h = (s, here, h, refl, refl)
drained (x ∷ q) s h =
    let d : Driver = record s.driver { answers = flushed_answers } in
    let (e, run, w) =
      dma_interrupt_takes_head d 2 [] h.mapped refl x q [] refl
        (answered-IsRing s.driver (x ∷ q) flushed_answers h.ring) refl in
    let u : System = record s { driver = e; ended = s.ended + 1 } in
    let (t, r, k, asleep, same) =
      drained q u (interrupt_held s x q flushed_answers e h card-Flushed run) in
    (
      t,
      cons (interrupt flushed_answers e (omega (arith, h.balance)) card-Flushed run refl) r,
      k,
      asleep,
      same,
    )

late_wake :
    (s : System) (n : ℕ)
    → Holds s []
    → s.sleeper ≡ some n
    → (t : System) × Step s t × IsStalled t (n ∷ [])
late_wake s n h a =
    let w = (may_wake_iff s.driver [] h.ring).1 (omega arith) in
    let run = resume_transfer-stored s.driver n in
    let e : Driver = stored s.driver n in
    (
      record s { driver = e; submitted = s.submitted ++ n ∷ []; sleeper = none },
      wake n e a w run refl,
      wake-IsStalled s [] n e h.ring h.mapped h.in_order (omega (arith, h.balance)) w run,
    )

-- From every state that holds a queue and in which a process sleeps, a run leads to a state in
-- which its request alone is on the ring and the card has nothing to end; no continuation of that
-- run gives any request to the card.
pub sleeper_may_stall :
    (s : System) (q : List ℕ) (n : ℕ)
    → Holds s q
    → s.sleeper ≡ some n
    → (t : System) × Reach s t
      × IsStalled t (n ∷ [])
      × ((u : System) → Reach t u → length (starts u.driver.log) ≡ length (starts t.driver.log))
sleeper_may_stall s q n h a =
    let (m, to_m, k, asleep, same) = drained q s h in
    let (t, st, stalled) = late_wake m n k (asleep ∙ a) in
    (t, next to_m st, stalled, λ u r. Reach-IsStalled r (n ∷ []) stalled)
