-- ===== src/Kyouko/Second/Agrees.antt =====
-- The rings of the two drivers of the card, driver.c and dmaBuffer.c.
use linux_ker_dev.Prelude.{
  ℕ, zero, suc, ◌+◌, ◌%◌, ◌/◌, ◌≡◌, refl, ap, fun_ext, true, false, length, ltb, ◌==◌,
  if◌then◌else◌, Bool-cases, inl, inr,
}
use linux_ker_dev.Kyouko.Regs.{
  buffers, info_fifo_depth, info_status, stream_buffer_a_address, stream_buffer_a_config,
}
use linux_ker_dev.Kyouko.Device.{
  Driver, M, ok, ◌>>=◌, ◌>>◌, pure, k_write_reg, k_read_reg, sync_rounds, sync,
}
use linux_ker_dev.Kyouko.Ring.{
  irq_none, irq_handled, stream_drain, retire_buffer, dma_interrupt, resume_transfer,
  initiate_transfer,
}
use linux_ker_dev.Kyouko.Second.{
  DataTypes, second_sync_rounds, second_sync, second_stream_drain, second_retire_buffer,
  second_dma_interrupt, second_resume_transfer, second_initiate_transfer,
}

-- The constants of the ring as regdmaBuffer.h and macrodmaBuffer.h of the other driver have them
abbrev pub as_card : DataTypes → DataTypes
as_card c = record c {
  fifo_depth = info_fifo_depth;
  dma_addr_a = stream_buffer_a_address;
  dma_config_a = stream_buffer_a_config;
  interrupt_status = info_status;
  buf_a_flushed = 1;
  num_bufs = buffers;
}

module _ (c : DataTypes) where
  sync_rounds-agree : (n : ℕ) (d : Driver) → second_sync_rounds (as_card c) n d ≡ sync_rounds n d
  unfolding second_sync_rounds sync_rounds
  sync_rounds-agree zero d = refl
  sync_rounds-agree (suc n) d =
      ap
        (λ (f : M (Unit {0})).
          ◌>>=◌ (k_read_reg info_fifo_depth)
            (λ depth e. elim (ltb 0 depth) [ true ↦ f e | false ↦ ok tt e ]) d)
        (fun_ext (sync_rounds-agree n))

  sync-agree : second_sync (as_card c) ≡ sync
  unfolding second_sync sync
  sync-agree = fun_ext λ d. sync_rounds-agree (suc (length (d.answers info_fifo_depth))) d

  stream-agree : second_stream_drain (as_card c) ≡ stream_drain
  unfolding second_stream_drain stream_drain
  stream-agree = refl

  retire-agree : (d : Driver) → second_retire_buffer (as_card c) d ≡ retire_buffer d
  unfolding second_retire_buffer retire_buffer
  retire-agree d = elim (Bool-cases (d.fill == (d.drain + 1) % buffers)) [
    | inl e ↦ rw (sync-agree, stream-agree, e) refl
    | inr e ↦ rw (sync-agree, stream-agree, e) refl
  ]

  -- With the constants of the ring as dmaBuffer.c has them, `initiateTransfer`, its end behind the
  -- sleep, and `dma_interrupt` of driver.c do what those of dmaBuffer.c do.
  pub ring_agrees :
      (num_bytes : ℕ) (d : Driver)
      → (second_initiate_transfer (as_card c) num_bytes d ≡ initiate_transfer num_bytes d)
        × (second_resume_transfer (as_card c) num_bytes d ≡ resume_transfer num_bytes d)
        × (second_dma_interrupt (as_card c) d ≡ dma_interrupt d)
  unfolding second_initiate_transfer initiate_transfer second_resume_transfer resume_transfer
      second_dma_interrupt dma_interrupt
  ring_agrees num_bytes d = (
    refl,
    refl,
    ap
        (λ (f : M (Unit {0})).
          ◌>>=◌ (k_read_reg info_status)
            (λ flags.
              ◌>>◌ (k_write_reg info_status 0xFFFFFFFF)
                (if flags / 2 % 2 == 0 then pure irq_none else (do f; pure irq_handled)))
            d)
        (fun_ext retire-agree),
  )
