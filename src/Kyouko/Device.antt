-- ===== src/Kyouko/Device.antt =====
-- The state of the driver, what it does to the world outside, and the register accessors
-- (dmaBuffer.c, lines 25-53 and 87-90).
use linux_ker_dev.Prelude.{
  ℕ, zero, suc, ◌%◌, ◌^◌, ◌≡◌, Bool, true, false, List, [], ◌∷◌, ◌++◌, length, update, ltb,
  if◌then◌else◌, refl, ap,
}
use linux_ker_dev.Kyouko.Regs.{info_fifo_depth}

-- `dma_Buffer`
pub record DmaBuffer : Type 0 where
  pub buffer : ℕ
  pub count : ℕ
  pub is_full : ℕ

-- What the driver asks of the card and of the kernel, in the order in which it asks.
pub data Action : Type 0 where
  write_reg : ℕ → ℕ → Action  -- a register and the 32 bits stored there
  ioremap_nocache : ℕ → ℕ → Action
  iounmap : ℕ → Action
  free_irq request_irq : Action
  pci_disable_msi pci_enable_msi : Action
  do_munmap : ℕ → Action
  pci_free_consistent : ℕ → ℕ → Action
  wake_up_interruptible : Action
  copy_to_user : ℕ → ℕ → Action

-- `struct p_kyouko2_device` and the static variables `fill`, `drain` and `size`. An array is a
-- function of its index. `control_mapped` says whether `k_control_base` is a live mapping,
-- `answers` holds what the card will answer to the next reads of each register, and `log` what
-- the driver has done outside, oldest first.
pub record Driver : Type 0 where
  pub p_control_base : ℕ
  pub p_card_ram_base : ℕ
  pub k_control_base : ℕ
  pub k_card_ram_base : ℕ
  pub dma_buffer : ℕ → DmaBuffer
  pub user_virt_addr : ℕ → ℕ
  pub dma_handle : ℕ → ℕ
  pub fill : ℕ
  pub drain : ℕ
  pub size : ℕ
  pub control_mapped : Bool
  pub answers : ℕ → List ℕ
  pub log : List Action

-- Why a call does not come back: an access through a mapping that is gone, or a card that has
-- not given the answer that the code waits for.
pub data Stop : Type 0 where
  bad_access waiting : Stop

pub data Outcome (A : Type 0) : Type 0 where
  ok : A → Driver → Outcome A
  stop : Stop → Driver → Outcome A

abbrev pub M : Type 0 → Type 0
M A = Driver → Outcome A

abbrev pub pure : {A : Type 0} → A → M A
pure a d = ok a d

infixl 5 ◌>>=◌ ◌>>◌
abbrev pub ◌>>=◌ : {A B : Type 0} → M A → (A → M B) → M B
◌>>=◌ m f d = elim (m d) [ ok a d' ↦ f a d' | stop s d' ↦ stop s d' ]

abbrev pub ◌>>◌ : {B : Type 0} → M (Unit {0}) → M B → M B
◌>>◌ m k d = elim (m d) [ ok a d' ↦ k d' | stop s d' ↦ stop s d' ]

abbrev pub get : M Driver
get d = ok d d

abbrev pub modify : (Driver → Driver) → M (Unit {0})
modify f d = ok tt (f d)

abbrev pub emit : Action → M (Unit {0})
emit a d = ok tt (record d { log = d.log ++ a ∷ [] })

abbrev pub u32 : ℕ → ℕ
u32 n = n % 2 ^ 32

-- `K_WRITE_REG`; the value is an `unsigned int` at its callers already.
unfoldable pub k_write_reg : ℕ → ℕ → M (Unit {0})
k_write_reg reg value d =
    if d.control_mapped then emit (write_reg reg value) d else stop bad_access d

-- One read of a register, by the answers that are left for it.
read_answer : ℕ → List ℕ → M ℕ
read_answer reg [] d = stop waiting d
read_answer reg (v ∷ vs) d = ok v (record d { answers = update d.answers reg vs })

-- `K_READ_REG`
unfoldable pub k_read_reg : ℕ → M ℕ
unfolding read_answer
k_read_reg reg d = if d.control_mapped then read_answer reg (d.answers reg) d else stop bad_access d

-- `while (K_READ_REG(InfoFifoDepth) > 0) ;` for at most the given number of rounds.
unfoldable pub sync_rounds : ℕ → M (Unit {0})
sync_rounds zero d = stop waiting d
sync_rounds (suc n) d =
    (do
      depth ← k_read_reg info_fifo_depth
      (λ e. elim (ltb 0 depth) [ true ↦ sync_rounds n e | false ↦ ok tt e ]))
      d

-- `sync`: the answers that are left bound the rounds.
unfoldable pub sync : M (Unit {0})
sync d = sync_rounds (suc (length (d.answers info_fifo_depth))) d

-- A first part that returns hands its driver on.
pub >>-ok :
    {B : Type 0} (m : M (Unit {0})) (k : M B) (d e : Driver) → m d ≡ ok tt e → ◌>>◌ m k d ≡ k e
>>-ok {B} m k d e h = ap {B = Outcome B} (λ r. elim r [ ok a d' ↦ k d' | stop s d' ↦ stop s d' ]) h

-- One that does not return ends the whole.
pub >>-stop :
    {B : Type 0} (m : M (Unit {0})) (k : M B) (d e : Driver) (s : Stop)
    → m d ≡ stop s e
    → ◌>>◌ m k d ≡ stop s e
>>-stop {B} m k d e s h =
    ap {B = Outcome B} (λ r. elim r [ ok a d' ↦ k d' | stop s d' ↦ stop s d' ]) h

-- The driver with more done outside.
abbrev pub logged : Driver → List Action → Driver
logged d l = record d { log = d.log ++ l }

pub k_write_reg-ok :
    (reg value : ℕ) (d : Driver)
    → d.control_mapped ≡ true
    → k_write_reg reg value d ≡ ok tt (logged d (write_reg reg value ∷ []))
unfolding k_write_reg
k_write_reg-ok reg value d m = rw m refl
