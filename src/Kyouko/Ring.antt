-- ===== src/Kyouko/Ring.antt =====
-- The ring of DMA buffers: the interrupt handler and the submission of a transfer
-- (dmaBuffer.c, lines 145-247).
pub mod Spec
pub mod Queue
pub mod Retire
pub mod Contract
pub mod System
pub mod Races
use linux_ker_dev.Prelude.{
  ℕ, ◌+◌, ◌%◌, ◌/◌, ◌≡◌, Bool, true, false, not, ◌||◌, List, [], ◌∷◌, update, ◌==◌, if◌then◌else◌,
}
use linux_ker_dev.Kyouko.Regs.{
  buffers, stream_buffer_a_address, stream_buffer_a_config, info_status,
}
use linux_ker_dev.Kyouko.Device.{
  DmaBuffer, Driver, M, ok, ◌>>=◌, ◌>>◌, pure, get, modify, emit, u32, wake_up_interruptible,
  k_write_reg, k_read_reg, sync,
}

-- `kyouko2.dmaBuffer[i].isFull = v`
abbrev pub set_full : ℕ → ℕ → M (Unit {0})
set_full i v =
    modify
      λ d. record d { dma_buffer = update d.dma_buffer i (record (d.dma_buffer i) { is_full = v }) }

-- `kyouko2.dmaBuffer[i].count = v`
abbrev pub set_count : ℕ → ℕ → M (Unit {0})
set_count i v =
    modify
      λ d. record d { dma_buffer = update d.dma_buffer i (record (d.dma_buffer i) { count = v }) }

-- `drain = (drain + 1) % BUFFERS`
abbrev pub advance_drain : M (Unit {0})
advance_drain = modify λ d. record d { drain = (d.drain + 1) % buffers }

-- `fill = (fill + 1) % BUFFERS`
abbrev pub advance_fill : M (Unit {0})
advance_fill = modify λ d. record d { fill = (d.fill + 1) % buffers }

-- The request at `drain` goes to the card.
unfoldable pub stream_drain : M (Unit {0})
stream_drain = do
  d ← get
  k_write_reg stream_buffer_a_address (u32 (d.dma_handle d.drain))
  k_write_reg stream_buffer_a_config (d.dma_buffer d.drain).count

pub data IrqReturn : Type 0 where
  irq_none irq_handled : IrqReturn

-- The handler's body between `spin_lock_irqsave` and `spin_unlock_irqrestore`.
unfoldable pub retire_buffer : M (Unit {0})
retire_buffer d =
    if d.fill == d.drain
    then (if (d.dma_buffer d.fill).is_full == 1
        then (do set_full d.drain 0; advance_drain; stream_drain; emit wake_up_interruptible) d
        else ok tt d)
    else (do
      set_full d.drain 0
      advance_drain
      e ← get
      (if e.fill == e.drain then pure tt else (do sync; stream_drain)))
        d

-- `dma_interrupt`; `flags & 0x2` is the bit at place 1 of the status.
unfoldable pub dma_interrupt : M IrqReturn
dma_interrupt = do
  flags ← k_read_reg info_status
  k_write_reg info_status 0xFFFFFFFF
  (if flags / 2 % 2 == 0 then pure irq_none else (do retire_buffer; pure irq_handled))

-- How far a call of `initiateTransfer` comes: to its end, or to `wait_event_interruptible`.
pub data Progress : Type 0 where
  returned asleep : Progress

-- The condition that the sleeper waits for.
unfoldable pub may_wake : Driver → Bool
may_wake d = not (d.fill == d.drain) || (d.dma_buffer d.fill).is_full == 0

-- `initiateTransfer` from its wake-up to its end.
unfoldable pub resume_transfer : ℕ → M (Unit {0})
resume_transfer num_bytes = do d ← get; set_full d.fill 1; set_count d.fill num_bytes; advance_fill

-- `initiateTransfer` up to its end or to its sleep.
unfoldable pub initiate_transfer : ℕ → M Progress
initiate_transfer num_bytes d =
    if num_bytes == 0
    then ok returned d
    else if d.fill == d.drain
    then (if (d.dma_buffer d.fill).is_full == 1
        then ok asleep d
        else (do
          set_full d.fill 1
          set_count d.fill num_bytes
          k_write_reg stream_buffer_a_address (u32 (d.dma_handle d.fill))
          k_write_reg stream_buffer_a_config num_bytes
          advance_fill
          pure returned)
            d)
    else (do set_count d.fill num_bytes; set_full d.fill 1; advance_fill; pure returned) d
