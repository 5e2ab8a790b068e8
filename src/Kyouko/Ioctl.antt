-- ===== src/Kyouko/Ioctl.antt =====
-- The `ioctl` of the driver (dmaBuffer.c, lines 92-139 and 251-321).
pub mod Results
pub mod Graphics
use linux_ker_dev.Prelude.{ℕ, zero, suc, ◌+◌, ◌*◌, List, [], ◌∷◌, ◌++◌, update, ◌==◌, if◌then◌else◌}
use linux_ker_dev.Kyouko.Regs.{
  buffers, graphics_on_arg, config_reboot, config_modeset, config_interrupt, config_acceleration,
  raster_clear, raster_flush, info_status, draw_clear_color_r, draw_clear_color_g,
  draw_clear_color_b, draw_clear_color_alpha, frame_columns, frame_rows, frame_row_pitch,
  frame_pixel_format, frame_start_address, encoder_width, encoder_height, encoder_offset_x,
  encoder_offset_y, encoder_frame,
}
use linux_ker_dev.Kyouko.Device.{
  Driver, M, ok, stop, ◌>>=◌, ◌>>◌, pure, get, modify, emit, u32, copy_to_user, pci_enable_msi,
  request_irq, k_write_reg, sync,
}
use linux_ker_dev.Kyouko.Ring.{returned, asleep, initiate_transfer, resume_transfer}

-- The bits of the `float` 0.2, which `K_WRITE_REG_F` stores as they are.
abbrev pub float_0_2 : ℕ
float_0_2 = 0x3E4CCCCD

pub writeflush : M (Unit {0})
writeflush = k_write_reg raster_flush 1

pub clear_buf_1 : M (Unit {0})
clear_buf_1 = k_write_reg raster_clear 1

pub reboot_1 : M (Unit {0})
reboot_1 = k_write_reg config_reboot 1

-- The registers that `graphicsOn` sets before it waits for the card, and behind that.
abbrev pub mode_settings : List (ℕ × ℕ)
mode_settings =
    (frame_columns, 1024)
    ∷ (frame_rows, 768)
    ∷ (frame_row_pitch, 4 * 1024)
    ∷ (frame_pixel_format, 0xf888)
    ∷ (frame_start_address, 0)
    ∷ (encoder_width, 1024)
    ∷ (encoder_height, 768)
    ∷ (encoder_offset_x, 0)
    ∷ (encoder_offset_y, 0)
    ∷ (encoder_frame, 0)
    ∷ (config_acceleration, 0x40000000)
    ∷ []

abbrev pub color_settings : List (ℕ × ℕ)
color_settings =
    (config_modeset, 1)
    ∷ (draw_clear_color_r, float_0_2)
    ∷ (draw_clear_color_g, float_0_2)
    ∷ (draw_clear_color_b, float_0_2)
    ∷ (draw_clear_color_alpha, 0)
    ∷ []

unfoldable pub write_all : List (ℕ × ℕ) → M (Unit {0})
write_all [] = pure tt
write_all ((reg, value) ∷ more) = do k_write_reg reg value; write_all more

unfoldable pub graphics_on : M (Unit {0})
unfolding write_all writeflush clear_buf_1
graphics_on = do write_all mode_settings; sync; write_all color_settings; writeflush; clear_buf_1

-- What the kernel gives for the buffer `i`: an address, 0 for none, with its DMA handle, and the
-- place in the process where it is mapped, by the offset that it is mapped at.
pub record Grants : Type 0 where
  pub consistent : ℕ → ℕ
  pub handle : ℕ → ℕ
  pub mapped_at : ℕ → ℕ → ℕ

-- The body of the loop of `BIND_DMA`.
abbrev pub bind_buffer : Grants → ℕ → Driver → Driver
bind_buffer g i d = record d {
  dma_buffer = update d.dma_buffer i (record { buffer = g.consistent i; count = 0; is_full = 0 });
  dma_handle = update d.dma_handle i (g.handle i);
  user_virt_addr = update d.user_virt_addr i (g.mapped_at i ((i + 1) * 0x1000));
}

-- `for (i = …; i < BUFFERS; ++i)`, by the rounds that are left.
unfoldable pub bind_buffers : Grants → ℕ → ℕ → Driver → Driver
bind_buffers g zero i d = d
bind_buffers g (suc rounds) i d = bind_buffers g rounds (i + 1) (bind_buffer g i d)

unfoldable pub bind_dma : Grants → ℕ → M (Unit {0})
bind_dma g arg = do
  modify (bind_buffers g buffers 0)
  d ← get
  emit (copy_to_user arg (d.user_virt_addr 0))
  modify (λ e. record e { fill = 0; drain = 0 })
  emit pci_enable_msi
  emit request_irq
  k_write_reg info_status 0xFFFFFFFF
  k_write_reg config_interrupt 0x2

-- The commands; `VMODE` looks at its argument as an `int`, and `START_DMA` comes with what `copy_from_user` leaves in `size`.
pub data Command : Type 0 where
  vmode : ℕ → Command
  sync_cmd flush other : Command
  bind : Grants → ℕ → Command
  start : ℕ → ℕ → Command

-- How far a call comes: to its end with its value, or to the sleep of `initiateTransfer`.
pub data Reply : Type 0 where
  done : ℕ → Reply
  sleeping : Reply

-- The end of `START_DMA`: the user gets the address of the next buffer.
unfoldable pub report_next : ℕ → M Reply
report_next arg = do d ← get; emit (copy_to_user arg (d.user_virt_addr d.fill)); pure (done 0)

unfoldable pub start_dma : ℕ → ℕ → M Reply
start_dma size arg = do
  modify (λ d. record d { size = size })
  p ← initiate_transfer size
  elim p [ returned ↦ report_next arg | asleep ↦ pure sleeping ]

-- `START_DMA` from the wake-up on.
unfoldable pub start_dma_woken : ℕ → ℕ → M Reply
start_dma_woken size arg = do resume_transfer size; report_next arg

unfoldable pub ioctl : Command → M Reply
unfolding graphics_on reboot_1 writeflush bind_dma start_dma
ioctl (vmode arg) = do
  (if u32 arg == graphics_on_arg then graphics_on else (do sync; reboot_1))
  pure (done 0)
ioctl sync_cmd = do sync; pure (done 0)
ioctl (bind g arg) = do bind_dma g arg; pure (done 0)
ioctl (start size arg) = start_dma size arg
ioctl flush = do writeflush; pure (done 0)
ioctl other = pure (done 0)
