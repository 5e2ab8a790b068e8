-- ===== src/Kyouko/Ring/System.antt =====
-- One process that submits transfers, and the card that ends them: every order in which
-- `initiateTransfer`, its wake-up and `dma_interrupt` of dmaBuffer.c can follow one another.
pub mod Steps
pub mod Order
pub mod Halt
use linux_ker_dev.Prelude.{
  ℕ, ◌+◌, ◌/◌, ◌%◌, ◌<◌, ◌≡◌, ◌≢◌, true, List, [], ◌∷◌, ◌++◌, Option, none, some, length,
}
use linux_ker_dev.Kyouko.Regs.{info_fifo_depth, info_status}
use linux_ker_dev.Kyouko.Device.{Driver, ok}
use linux_ker_dev.Kyouko.Sync.{after_zero}
use linux_ker_dev.Kyouko.Ring.{
  returned, asleep, initiate_transfer, resume_transfer, may_wake, dma_interrupt, irq_handled,
}
use linux_ker_dev.Kyouko.Ring.Spec.{IsRing, starts}

-- `submitted` lists the requests that the process has put on the ring, `ended` counts the
-- interrupts of finished transfers, and `sleeper` is the request of a process that waits.
pub record System : Type 0 where
  pub driver : Driver
  pub submitted : List ℕ
  pub ended : ℕ
  pub sleeper : Option ℕ

-- The card as it is when it interrupts: its status says that a buffer was flushed, and its
-- command queue will be seen to run empty.
pub record Flushed (answers : ℕ → List ℕ) : Type 0 where
  pub flags : ℕ
  pub later : List ℕ
  pub rest : List ℕ
  pub status : answers info_status ≡ flags ∷ later
  pub flushed : flags / 2 % 2 ≡ 1
  pub drains : after_zero (answers info_fifo_depth) ≡ some rest

-- One step. The card ends a transfer only if it was given one that has not ended yet.
pub data Step (s t : System) : Type 0 where
  submit :
      (n : ℕ) (e : Driver)
      → s.sleeper ≡ none
      → n ≢ 0
      → initiate_transfer n s.driver ≡ ok returned e
      → t ≡ record s { driver = e; submitted = s.submitted ++ n ∷ [] }
      → Step s t
  sleep :
      (n : ℕ) (e : Driver)
      → s.sleeper ≡ none
      → n ≢ 0
      → initiate_transfer n s.driver ≡ ok asleep e
      → t ≡ record s { driver = e; sleeper = some n }
      → Step s t
  wake :
      (n : ℕ) (e : Driver)
      → s.sleeper ≡ some n
      → may_wake s.driver ≡ true
      → resume_transfer n s.driver ≡ ok tt e
      → t ≡ record s { driver = e; submitted = s.submitted ++ n ∷ []; sleeper = none }
      → Step s t
  interrupt :
      (f : ℕ → List ℕ) (e : Driver)
      → s.ended < length (starts s.driver.log)
      → Flushed f
      → dma_interrupt (record s.driver { answers = f }) ≡ ok irq_handled e
      → t ≡ record s { driver = e; ended = s.ended + 1 }
      → Step s t

pub data Reach (s : System) : System → Type 0 where
  here : Reach s s
  next : {t u : System} → Reach s t → Step t u → Reach s u

-- The requests behind the one that is being streamed.
abbrev pub waiting_of : List ℕ → List ℕ
waiting_of [] = []
waiting_of (x ∷ q) = q

-- 1 if a transfer is being streamed.
abbrev pub active_of : List ℕ → ℕ
active_of [] = 0
active_of (x ∷ q) = 1

-- The ring holds `q`, and what was submitted is what the card was given, in order, followed by
-- what waits.
pub record Holds (s : System) (q : List ℕ) : Type 0 where
  pub ring : IsRing s.driver q
  pub mapped : s.driver.control_mapped ≡ true
  pub in_order : starts s.driver.log ++ waiting_of q ≡ s.submitted
  pub balance : s.ended + active_of q ≡ length (starts s.driver.log)

-- A ring that is not empty while the card was given nothing that has not ended: no interrupt is
-- to come, and what is on the ring waits for one.
pub record IsStalled (s : System) (q : List ℕ) : Type 0 where
  pub ring : IsRing s.driver q
  pub mapped : s.driver.control_mapped ≡ true
  pub not_empty : q ≢ []
  pub in_order : starts s.driver.log ++ q ≡ s.submitted
  pub balance : s.ended ≡ length (starts s.driver.log)
