-- ===== src/Kyouko/Ioctl/Graphics.antt =====
-- What `VMODE` tells the card to show graphics (dmaBuffer.c, `graphicsOn`).
use linux_ker_dev.Prelude.{
  ℕ, ◌≡◌, sym, ◌∙◌, ap, subst, true, List, [], ◌∷◌, ◌++◌, none, some, arith,
}
use mathlib.Core.List.{append-nil, append_assoc}
use linux_ker_dev.Kyouko.Regs.{info_fifo_depth, graphics_on_arg}
use linux_ker_dev.Kyouko.Device.{
  Driver, M, ◌>>◌, Action, ok, stop, waiting, u32, write_reg, k_write_reg, sync, logged, >>-ok,
  >>-stop, k_write_reg-ok,
}
use linux_ker_dev.Kyouko.Sync.{after_zero, with_depths, sync_lem, SyncResult}
use linux_ker_dev.Kyouko.Ioctl.{
  ioctl, done, vmode, mode_settings, color_settings, write_all, graphics_on, writeflush,
  clear_buf_1,
}

-- The writes of a list of settings.
abbrev writes : List (ℕ × ℕ) → List Action
writes [] = []
writes ((reg, value) ∷ more) = write_reg reg value ∷ writes more

write_all_lem :
    (l : List (ℕ × ℕ)) (d : Driver)
    → d.control_mapped ≡ true
    → write_all l d ≡ ok tt (logged d (writes l))
unfolding write_all
write_all_lem [] d m = ap (λ l. ok tt (record d { log = l })) (sym (append-nil d.log))
write_all_lem ((reg, value) ∷ more) d m =
    >>-ok (k_write_reg reg value) (write_all more) d (logged d (write_reg reg value ∷ []))
      (k_write_reg-ok reg value d m)
    ∙ write_all_lem more (logged d (write_reg reg value ∷ [])) m
    ∙ ap (λ l. ok tt (record d { log = l }))
        (append_assoc d.log (write_reg reg value ∷ []) (writes more))

-- A screen of 1024 by 768 pixels of 4 bytes each, shown by the encoder from its corner on, with the
-- acceleration on
abbrev pub frame_writes : List Action
frame_writes =
    write_reg 0x8000 1024
    ∷ write_reg 0x8004 768
    ∷ write_reg 0x8008 4096
    ∷ write_reg 0x800C 0xF888
    ∷ write_reg 0x8010 0
    ∷ write_reg 0x9000 1024
    ∷ write_reg 0x9004 768
    ∷ write_reg 0x9008 0
    ∷ write_reg 0x900C 0
    ∷ write_reg 0x9010 0
    ∷ write_reg 0x1010 0x40000000
    ∷ []

-- The mode, the clear colour, whose parts are the `float` 0.2 and 0, a flush and a clear
abbrev pub color_writes : List Action
color_writes =
    write_reg 0x1008 1
    ∷ write_reg 0x5100 0x3E4CCCCD
    ∷ write_reg 0x5104 0x3E4CCCCD
    ∷ write_reg 0x5108 0x3E4CCCCD
    ∷ write_reg 0x510C 0
    ∷ write_reg 0x3FFC 1
    ∷ write_reg 0x3008 1
    ∷ []

-- What `graphicsOn` does behind its first writes, and behind `sync`
abbrev colors : M (Unit {0})
colors = write_all color_settings >> (writeflush >> clear_buf_1)

abbrev waits : M (Unit {0})
waits = sync >> colors

graphics_on_lem :
    (d : Driver) (vs : List ℕ)
    → d.control_mapped ≡ true
    → after_zero (d.answers info_fifo_depth) ≡ some vs
    → graphics_on d ≡ ok tt (logged (with_depths d vs) (frame_writes ++ color_writes))
unfolding graphics_on
graphics_on_lem d vs m z =
    let d1 : Driver = logged d (writes mode_settings) in
    let d2 : Driver = with_depths d1 vs in
    let d3 : Driver = logged d2 (writes color_settings) in
    let d4 : Driver = logged d3 (write_reg 0x3FFC 1 ∷ []) in
    let last : M (Unit {0}) = writeflush >> clear_buf_1 in
    >>-ok (write_all mode_settings) waits d d1 (write_all_lem mode_settings d m)
    ∙ >>-ok sync colors d1 d2 (subst (λ o. SyncResult d1 o (sync d1)) z (sync_lem d1 m))
    ∙ >>-ok (write_all color_settings) last d2 d3 (write_all_lem color_settings d2 m)
    ∙ >>-ok writeflush clear_buf_1 d3 d4 (k_write_reg-ok 0x3FFC 1 d3 m)
    ∙ k_write_reg-ok 0x3008 1 d4 m
    ∙ ap (λ l. ok tt (record d2 { log = l })) (simp append_assoc)

graphics_on-waits :
    (d : Driver)
    → d.control_mapped ≡ true
    → after_zero (d.answers info_fifo_depth) ≡ none
    → graphics_on d ≡ stop waiting (logged (with_depths d []) frame_writes)
unfolding graphics_on
graphics_on-waits d m z =
    let d1 : Driver = logged d (writes mode_settings) in
    let d2 : Driver = with_depths d1 [] in
    >>-ok (write_all mode_settings) waits d d1 (write_all_lem mode_settings d m)
    ∙ >>-stop sync colors d1 d2 waiting (subst (λ o. SyncResult d1 o (sync d1)) z (sync_lem d1 m))

-- If the registers are mapped, `VMODE` with the argument GRAPHICS_ON tells the card the frame of
-- 1024 by 768 pixels, the encoder and the acceleration, by the listed writes, and then waits for
-- the card. If the depth of the card's queue will be read as 0, it goes on with the mode, the
-- clear colour, a flush and a clear, as listed, returns 0, and has done nothing else; if it will
-- not, the call waits on and has made only the first writes.
pub ioctl-graphics_on :
    (arg : ℕ) (d : Driver)
    → d.control_mapped ≡ true
    → u32 arg ≡ graphics_on_arg
    → ((vs : List ℕ)
        → after_zero (d.answers info_fifo_depth) ≡ some vs
        → ioctl (vmode arg) d
          ≡ ok (done 0) (logged (with_depths d vs) (frame_writes ++ color_writes)))
      × (after_zero (d.answers info_fifo_depth) ≡ none
          → ioctl (vmode arg) d ≡ stop waiting (logged (with_depths d []) frame_writes))
unfolding ioctl
ioctl-graphics_on arg d m a =
    (λ vs z. ground (arith, graphics_on_lem d vs m z), λ z. ground (arith, graphics_on-waits d m z))
