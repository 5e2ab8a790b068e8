-- ===== src/Kyouko/Ring/System/Steps.antt =====
-- Each step of the process and of the card keeps the account of the requests.
use linux_ker_dev.Prelude.{
  ℕ, ◌+◌, ◌⊎◌, inl, inr, ◌<◌, ◌≡◌, ◌≢◌, sym, ◌∙◌, ap, subst, true, List, [], ◌∷◌, ◌++◌, length,
  length-append, arith, ◌↔◌,
}
use mathlib.Core.List.{append-nil, append_assoc}
use linux_ker_dev.Kyouko.Regs.{buffers}
use linux_ker_dev.Kyouko.Device.{Driver, ok}
use linux_ker_dev.Kyouko.Ring.{returned, asleep, initiate_transfer, resume_transfer, may_wake}
use linux_ker_dev.Kyouko.Ring.Spec.{IsRing, starts}
use linux_ker_dev.Kyouko.Ring.Queue.{
  stored, stored-IsRing, fill-eq-drain, fill-ne-drain, resume_transfer-stored,
}
use linux_ker_dev.Kyouko.Ring.Retire.{first_used}
use linux_ker_dev.Kyouko.Ring.Contract.{
  Follows, head_of, at_once, initiate_transfer_appends, initiate_transfer_full, empty_first,
}
use linux_ker_dev.Kyouko.Ring.System.{System, waiting_of, active_of, Holds, IsStalled}

-- On a ring that holds a queue, the condition that the sleeper waits for is true exactly if the
-- ring has room.
pub may_wake_iff :
    (d : Driver) (q : List ℕ) → IsRing d q → (may_wake d ≡ true) ↔ (length q < buffers)
unfolding may_wake
may_wake_iff d [] r = ground (arith, fill-eq-drain d [] r, empty_first d r)
may_wake_iff d (x ∷ q) r =
    ground
      (arith, fill-eq-drain d (x ∷ q) r, fill-ne-drain d (x ∷ q) r, r.bounded, first_used d x q r)

pub ok-injective : {A : Type 0} {a b : A} {d e : Driver} → ok a d ≡ ok b e → d ≡ e
ok-injective h = cc

returned-ne-asleep : {d e : Driver} → ¬ (ok returned d ≡ ok asleep e)
returned-ne-asleep h = cc

-- The parts of the invariant after a step, from what the step gives.
pub append_waiting :
    (q : List ℕ) (n : ℕ) (l : List ℕ)
    → (l ++ at_once q n) ++ waiting_of (q ++ n ∷ []) ≡ (l ++ waiting_of q) ++ n ∷ []
append_waiting [] n l = simp (append-nil)
append_waiting (x ∷ q) n l = simp (append-nil, append_assoc)

pub append_active :
    (q : List ℕ) (n a : ℕ) (l : List ℕ)
    → a + active_of q ≡ length l
    → a + active_of (q ++ n ∷ []) ≡ length (l ++ at_once q n)
append_active [] n a l h = omega (arith, length-append l (n ∷ []))
append_active (x ∷ q) n a l h = rw (append-nil l) h

pub take_waiting : (q l : List ℕ) → (l ++ head_of q) ++ waiting_of q ≡ l ++ q
take_waiting [] l = simp (append-nil)
take_waiting (x ∷ q) l = simp (append_assoc)

pub take_active : (q l : List ℕ) → length l + active_of q ≡ length (l ++ head_of q)
take_active [] l = rw (append-nil l) (omega arith)
take_active (x ∷ q) l = omega (arith, length-append l (x ∷ []))

-- The account holds, or the ring is stalled.
abbrev pub Inv : System → Type 0
Inv s = ((q : List ℕ) × Holds s q) ⊎ ((q : List ℕ) × IsStalled s q)

pub Holds-appended :
    (s t : System) (q : List ℕ) (n : ℕ)
    → Holds s q
    → Follows s.driver t.driver (q ++ n ∷ []) (at_once q n)
    → t.submitted ≡ s.submitted ++ n ∷ []
    → t.ended ≡ s.ended
    → Holds t (q ++ n ∷ [])
Holds-appended s t q n h w u v = record {
  ring = w.ring;
  mapped = w.mapped;
  in_order =
      rw (w.started, u)
        (append_waiting q n (starts s.driver.log) ∙ ap (λ l. l ++ n ∷ []) h.in_order);
  balance = rw (w.started, v) (append_active q n s.ended (starts s.driver.log) h.balance);
}

pub room-or-full :
    (d : Driver) (q : List ℕ) → IsRing d q → (length q < buffers) ⊎ (length q ≡ buffers)
room-or-full d q r = ground (arith, r.bounded)

module _ (s : System) (q : List ℕ) (n : ℕ) where
  abbrev pub submitted_now : Driver → System
  submitted_now e = record s { driver = e; submitted = s.submitted ++ n ∷ [] }

  pub appended :
      (e : Driver)
      → IsRing s.driver q
      → s.driver.control_mapped ≡ true
      → n ≢ 0
      → initiate_transfer n s.driver ≡ ok returned e
      → Follows s.driver e (q ++ n ∷ []) (at_once q n)
  appended e r m nz run = elim (room-or-full s.driver q r) [
    | inl room ↦
        let (e', run', w) = initiate_transfer_appends s.driver q n m r nz room in
        subst (λ d. Follows s.driver d (q ++ n ∷ []) (at_once q n)) (ok-injective (sym run' ∙ run))
          w
    | inr full ↦
        absurd (returned-ne-asleep (sym run ∙ initiate_transfer_full s.driver q n r nz full))
  ]

  pub unchanged_asleep :
      (e : Driver)
      → IsRing s.driver q
      → s.driver.control_mapped ≡ true
      → n ≢ 0
      → initiate_transfer n s.driver ≡ ok asleep e
      → s.driver ≡ e
  unchanged_asleep e r m nz run = elim (room-or-full s.driver q r) [
    | inl room ↦
        let (e', run', w) = initiate_transfer_appends s.driver q n m r nz room in
        absurd (returned-ne-asleep (sym run' ∙ run))
    | inr full ↦ ok-injective (sym (initiate_transfer_full s.driver q n r nz full) ∙ run)
  ]

  pub woken_stored :
      (e : Driver)
      → IsRing s.driver q
      → may_wake s.driver ≡ true
      → resume_transfer n s.driver ≡ ok tt e
      → (s.driver.control_mapped ≡ e.control_mapped)
        × (s.driver.log ≡ e.log)
        × IsRing e (q ++ n ∷ [])
  woken_stored e r w run =
      let same : stored s.driver n ≡ e =
        ok-injective (sym (resume_transfer-stored s.driver n) ∙ run) in
      (
        ap Driver.control_mapped same,
        ap Driver.log same,
        subst (λ d. IsRing d (q ++ n ∷ [])) same
            (stored-IsRing s.driver q n r ((may_wake_iff s.driver q r).0 w)),
      )
