-- ===== src/Kyouko/Second.antt =====
-- The second driver of the card (linuxKerDev/graphicDriver/dmaBuffer/driver.c, with dataTypes.h left
-- out of the repository): its ring and its `ioctl`.
pub mod Files
pub mod Agrees
use linux_ker_dev.Prelude.{
  ℕ, zero, suc, ◌+◌, ◌*◌, ◌%◌, ◌/◌, ◌^◌, Bool, true, false, not, ◌||◌, List, [], ◌∷◌, ℤ, pos,
  negsuc, update, length, ltb, ◌==◌, if◌then◌else◌,
}
use linux_ker_dev.Kyouko.Device.{
  DmaBuffer, Driver, M, ok, stop, waiting, ◌>>=◌, ◌>>◌, pure, get, modify, emit, u32,
  wake_up_interruptible, copy_to_user, pci_enable_msi, request_irq, k_write_reg, k_read_reg,
}
use linux_ker_dev.Kyouko.Ring.{
  IrqReturn, irq_none, irq_handled, Progress, returned, asleep, set_full, set_count,
}
use linux_ker_dev.Kyouko.Ioctl.{Grants, bind_buffers, float_0_2, write_all}

-- The constants of dataTypes.h: registers, the place of the bit BUF_A_FLUSHED, NUM_BUFS,
-- KYOUKO_CONTROL_SIZE and GRAPHICS_ON.
pub record DataTypes : Type 0 where
  pub fifo_depth : ℕ
  pub reboot : ℕ
  pub modeset : ℕ
  pub interrupt : ℕ
  pub acc_reg : ℕ
  pub dma_addr_a : ℕ
  pub dma_config_a : ℕ
  pub clear_buf_reg : ℕ
  pub flush_reg : ℕ
  pub interrupt_status : ℕ
  pub clear_color : ℕ
  pub frame0_base : ℕ
  pub dac0_base : ℕ
  pub buf_a_flushed : ℕ
  pub num_bufs : ℕ
  pub control_size : ℕ
  pub graphics_on_value : ℕ

-- The static variables `dma_mapped` and `graphics_on`
pub record Flags : Type 0 where
  pub dma_mapped : Bool
  pub shows_graphics : Bool

-- The commands, as in the other driver.
pub data SecondCommand : Type 0 where
  vmode : ℕ → SecondCommand
  sync_cmd flush_cmd other_cmd : SecondCommand
  bind_command : Grants → ℤ → ℕ → SecondCommand
  start_command : ℕ → ℕ → SecondCommand

-- How far a call comes: to its end with its value, or to the sleep of `initiateTransfer`.
pub data SecondReply : Type 0 where
  ends : Flags → ℤ → SecondReply
  sleeps : Flags → SecondReply

module _ (c : DataTypes) where
  -- `SYNC`, for at most as many rounds as there are answers
  unfoldable pub second_sync_rounds : ℕ → M (Unit {0})
  second_sync_rounds zero d = stop waiting d
  second_sync_rounds (suc n) d =
      (do
        depth ← k_read_reg c.fifo_depth
        (λ e. elim (ltb 0 depth) [ true ↦ second_sync_rounds n e | false ↦ ok tt e ]))
        d

  unfoldable pub second_sync : M (Unit {0})
  second_sync d = second_sync_rounds (suc (length (d.answers c.fifo_depth))) d

  -- The request at `drain` goes to the card.
  unfoldable pub second_stream_drain : M (Unit {0})
  second_stream_drain = do
    d ← get
    k_write_reg c.dma_addr_a (u32 (d.dma_handle d.drain))
    k_write_reg c.dma_config_a (d.dma_buffer d.drain).count

  abbrev pub second_advance_drain : M (Unit {0})
  second_advance_drain = modify λ d. record d { drain = (d.drain + 1) % c.num_bufs }

  abbrev pub second_advance_fill : M (Unit {0})
  second_advance_fill = modify λ d. record d { fill = (d.fill + 1) % c.num_bufs }

  -- `dma_interrupt` under its lock
  unfoldable pub second_retire_buffer : M (Unit {0})
  second_retire_buffer d =
      if d.fill == d.drain
      then (if (d.dma_buffer d.fill).is_full == 1
          then (do
            set_full d.drain 0
            second_advance_drain
            second_stream_drain
            emit wake_up_interruptible)
              d
          else ok tt d)
      else (do
        set_full d.drain 0
        second_advance_drain
        e ← get
        (if not (e.fill == e.drain) then (do second_sync; second_stream_drain) else pure tt))
          d

  -- `dma_interrupt`
  unfoldable pub second_dma_interrupt : M IrqReturn
  second_dma_interrupt = do
    flags ← k_read_reg c.interrupt_status
    k_write_reg c.interrupt_status 0xFFFFFFFF
    (if flags / 2 ^ c.buf_a_flushed % 2 == 0
        then pure irq_none
        else (do second_retire_buffer; pure irq_handled))

  -- `initiateTransfer` from its wake-up to its end
  unfoldable pub second_resume_transfer : ℕ → M (Unit {0})
  second_resume_transfer num_bytes = do
    d ← get
    set_full d.fill 1
    set_count d.fill num_bytes
    second_advance_fill

  -- `initiateTransfer` up to its end or to its sleep
  unfoldable pub second_initiate_transfer : ℕ → M Progress
  second_initiate_transfer num_bytes d =
      if num_bytes == 0
      then ok returned d
      else if d.fill == d.drain
      then (if (d.dma_buffer d.fill).is_full == 1
          then ok asleep d
          else (do
            set_full d.fill 1
            set_count d.fill num_bytes
            k_write_reg c.dma_addr_a (u32 (d.dma_handle d.fill))
            k_write_reg c.dma_config_a num_bytes
            second_advance_fill
            pure returned)
              d)
      else (do set_count d.fill num_bytes; set_full d.fill 1; second_advance_fill; pure returned) d

  -- `setFrame0`, `setDAC0` and `setClearColor`
  abbrev pub set_frame0 : M (Unit {0})
  set_frame0 = write_all (
      (c.frame0_base, 1024)
      ∷ (c.frame0_base + 0x4, 768)
      ∷ (c.frame0_base + 0x8, 4096)
      ∷ (c.frame0_base + 0xc, 0xF888)
      ∷ (c.frame0_base + 0x10, 0)
      ∷ [])

  abbrev pub set_dac0 : M (Unit {0})
  set_dac0 = write_all (
      (c.dac0_base, 1024)
      ∷ (c.dac0_base + 0x4, 768)
      ∷ (c.dac0_base + 0x8, 0)
      ∷ (c.dac0_base + 0xc, 0)
      ∷ (c.dac0_base + 0x10, 0)
      ∷ [])

  abbrev pub set_clear_color : M (Unit {0})
  set_clear_color = write_all (
      (c.clear_color, float_0_2)
      ∷ (c.clear_color + 0x4, float_0_2)
      ∷ (c.clear_color + 0x8, float_0_2)
      ∷ (c.clear_color + 0xc, 0)
      ∷ [])

  -- `VMODE` with GRAPHICS_ON
  unfoldable pub second_graphics_on : M (Unit {0})
  second_graphics_on = do
    set_frame0
    set_dac0
    k_write_reg c.acc_reg 0x40000000
    second_sync
    k_write_reg c.modeset 1
    set_clear_color
    k_write_reg c.flush_reg 1
    second_sync
    k_write_reg c.clear_buf_reg 1

  -- The loop over the buffers that waits until each is free; only an interrupt frees one.
  unfoldable pub await_buffers : ℕ → ℕ → M (Unit {0})
  await_buffers zero i d = ok tt d
  await_buffers (suc rounds) i d =
      let rest = await_buffers rounds (i + 1) d in
      if (d.dma_buffer i).is_full == 1 then stop waiting d else rest

  unfoldable pub second_graphics_off : Flags → M (Unit {0})
  second_graphics_off flags = do
    second_sync
    (if flags.dma_mapped then await_buffers c.num_bufs 0 else k_write_reg c.reboot 1)

  -- `BIND_DMA`
  unfoldable pub second_bind_dma : Grants → ℕ → M (Unit {0})
  second_bind_dma g arg = do
    modify (bind_buffers g c.num_bufs 0)
    d ← get
    emit (copy_to_user arg (d.user_virt_addr 0))
    modify (λ e. record e { fill = 0; drain = 0 })
    emit pci_enable_msi
    emit request_irq
    k_write_reg c.interrupt_status 0xFFFFFFFF
    k_write_reg c.interrupt (2 ^ c.buf_a_flushed)

  -- The end of `START_DMA`
  unfoldable pub second_report_next : Flags → ℕ → M SecondReply
  second_report_next flags arg = do
    d ← get
    emit (copy_to_user arg (d.user_virt_addr d.fill))
    pure (ends flags (pos 0))

  unfoldable pub second_start_dma : Flags → ℕ → ℕ → M SecondReply
  second_start_dma flags size arg =
      if not flags.dma_mapped then pure (ends flags (negsuc 0)) else (do
        modify (λ d. record d { size = size })
        p ← second_initiate_transfer size
        elim p [ returned ↦ second_report_next flags arg | asleep ↦ pure (sleeps flags) ])

  -- `START_DMA` from the wake-up on
  unfoldable pub second_start_dma_woken : Flags → ℕ → ℕ → M SecondReply
  second_start_dma_woken flags size arg = do
    second_resume_transfer size
    second_report_next flags arg

  -- `kyouko2_ioctl`
  unfoldable pub second_ioctl : Flags → SecondCommand → M SecondReply
  second_ioctl flags (vmode arg) =
      if u32 arg == c.graphics_on_value
      then (do second_graphics_on; pure (ends (record flags { shows_graphics = true }) (pos 0)))
      else (do
        second_graphics_off flags
        pure (ends (record flags { shows_graphics = false }) (pos 0)))
  second_ioctl flags sync_cmd = do second_sync; pure (ends flags (pos 0))
  second_ioctl flags (bind_command g hooked arg) = do
    second_bind_dma g arg
    pure (ends (record flags { dma_mapped = true }) hooked)
  second_ioctl flags (start_command size arg) = second_start_dma flags size arg
  second_ioctl flags flush_cmd = do k_write_reg c.flush_reg 0; pure (ends flags (pos 0))
  second_ioctl flags other_cmd = pure (ends flags (pos 0))
