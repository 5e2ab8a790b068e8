-- ===== src/Kyouko/Regs.antt =====
-- The constants of regdmaBuffer.h and macrodmaBuffer.h.
use linux_ker_dev.Prelude.{ℕ}

abbrev pub kyouko2_control_size : ℕ
kyouko2_control_size = 65536

abbrev pub buffers : ℕ
buffers = 8

abbrev pub graphics_on_arg : ℕ
graphics_on_arg = 1

abbrev pub config_reboot : ℕ
config_reboot = 0x1000

abbrev pub config_modeset : ℕ
config_modeset = 0x1008

abbrev pub config_interrupt : ℕ
config_interrupt = 0x100C

abbrev pub config_acceleration : ℕ
config_acceleration = 0x1010

abbrev pub stream_buffer_a_address : ℕ
stream_buffer_a_address = 0x2000

abbrev pub stream_buffer_a_config : ℕ
stream_buffer_a_config = 0x2008

abbrev pub raster_clear : ℕ
raster_clear = 0x3008

abbrev pub raster_flush : ℕ
raster_flush = 0x3FFC

abbrev pub info_fifo_depth : ℕ
info_fifo_depth = 0x4004

abbrev pub info_status : ℕ
info_status = 0x4008

abbrev pub draw_clear_color_r : ℕ
draw_clear_color_r = 0x5100

abbrev pub draw_clear_color_g : ℕ
draw_clear_color_g = 0x5104

abbrev pub draw_clear_color_b : ℕ
draw_clear_color_b = 0x5108

abbrev pub draw_clear_color_alpha : ℕ
draw_clear_color_alpha = 0x510C

abbrev pub frame_columns : ℕ
frame_columns = 0x8000

abbrev pub frame_rows : ℕ
frame_rows = 0x8004

abbrev pub frame_row_pitch : ℕ
frame_row_pitch = 0x8008

abbrev pub frame_pixel_format : ℕ
frame_pixel_format = 0x800C

abbrev pub frame_start_address : ℕ
frame_start_address = 0x8010

abbrev pub encoder_width : ℕ
encoder_width = 0x9000

abbrev pub encoder_height : ℕ
encoder_height = 0x9004

abbrev pub encoder_offset_x : ℕ
encoder_offset_x = 0x9008

abbrev pub encoder_offset_y : ℕ
encoder_offset_y = 0x900C

abbrev pub encoder_frame : ℕ
encoder_frame = 0x9010
