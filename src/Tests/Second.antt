-- ===== src/Tests/Second.antt =====
-- The theorems on the driver driver.c at concrete inputs: a driver with two transfers on its ring.
use linux_ker_dev.Prelude.{ℕ, ◌+◌, ◌*◌, ◌≡◌, refl, true, false, [], ◌∷◌, ltb, if◌then◌else◌, negsuc}
use linux_ker_dev.Kyouko.Device.{Driver, ok}
use linux_ker_dev.Kyouko.Ring.{initiate_transfer, resume_transfer, dma_interrupt}
use linux_ker_dev.Kyouko.Second.{
  DataTypes, Flags, ends, second_initiate_transfer, second_resume_transfer, second_dma_interrupt,
  second_start_dma,
}
use linux_ker_dev.Kyouko.Second.Agrees.{as_card, ring_agrees}
use linux_ker_dev.Kyouko.Second.Files.{second_release, released_driver, second_release_lem}

abbrev constants : DataTypes
constants = record {
  fifo_depth = 0x4004;
  reboot = 0x1000;
  modeset = 0x1008;
  interrupt = 0x100C;
  acc_reg = 0x1010;
  dma_addr_a = 0x2000;
  dma_config_a = 0x2008;
  clear_buf_reg = 0x3008;
  flush_reg = 0x3FFC;
  interrupt_status = 0x4008;
  clear_color = 0x5100;
  frame0_base = 0x8000;
  dac0_base = 0x9000;
  buf_a_flushed = 1;
  num_bufs = 8;
  control_size = 65536;
  graphics_on_value = 1;
}

abbrev busy : Driver
busy = record {
  p_control_base = 0xF0000000;
  p_card_ram_base = 0xF8000000;
  k_control_base = 0x1000000;
  k_card_ram_base = 0x2000000;
  dma_buffer = λ i. record { buffer = 0x10 * i; count = 64; is_full = if ltb i 2 then 1 else 0 };
  user_virt_addr = λ i. 0x400000 + i * 0x1F000;
  dma_handle = λ i. 0x800000 + i * 0x1F000;
  fill = 2;
  drain = 0;
  size = 0;
  control_mapped = true;
  answers = λ reg. 2 ∷ 0 ∷ [];
  log = [];
}

abbrev bound : Flags
bound = record { dma_mapped = true; shows_graphics = true }

abbrev unbound_again : Flags
unbound_again = record { dma_mapped = false; shows_graphics = true }

ring_agrees_example :
    (second_initiate_transfer (as_card constants) 64 busy ≡ initiate_transfer 64 busy)
    × (second_resume_transfer (as_card constants) 64 busy ≡ resume_transfer 64 busy)
    × (second_dma_interrupt (as_card constants) busy ≡ dma_interrupt busy)
ring_agrees_example = ring_agrees constants 64 busy

second_release_lem_example :
    (second_release constants bound busy
      ≡ ok (unbound_again, 0) (released_driver constants bound busy))
    × ((size arg : ℕ)
        → second_start_dma constants unbound_again size arg (released_driver constants bound busy)
          ≡ ok (ends unbound_again (negsuc 0)) (released_driver constants bound busy))
second_release_lem_example = second_release_lem constants bound busy refl
