-- ===== src/Kyouko/Triangle.antt =====
-- The driver of drawLineTriangle.c, which has no DMA: `open`, `release`, `ioctl` and `mmap`, its
-- loading and unloading (drawLineTriangle.c, lines 29-223). The fields of the ring of `Driver` are
-- not used by it.
use linux_ker_dev.Prelude.{
  ℕ, ◌/◌, ◌^◌, ◌≡◌, refl, ◌∙◌, ap, false, List, [], ◌∷◌, Option, none, some, ◌==◌, if◌then◌else◌, ℤ,
  Bool-cases, inl, inr,
}
use linux_ker_dev.Kyouko.Regs.{graphics_on_arg}
use linux_ker_dev.Kyouko.Device.{
  Driver, Outcome, M, ok, stop, bad_access, iounmap, ◌>>=◌, ◌>>◌, pure, get, modify, emit, u32,
  k_write_reg, k_read_reg, sync, sync_rounds,
}
use linux_ker_dev.Kyouko.Ioctl.{graphics_on, reboot_1, write_all}
use linux_ker_dev.Kyouko.Files.{kyouko2_open, offset_of}
use linux_ker_dev.Kyouko.Load.{Answers, Call, init, exit, kyouko2_probe}

-- `kyouko2_open`: the size of the card's memory is read and not used; the mappings and the value
-- behind it are those of dmaBuffer.c.
unfoldable pub triangle_open : ℕ → ℕ → M ℕ
triangle_open control ram = do ram_size ← k_read_reg 0x20; kyouko2_open control ram

-- `kyouko2_release`
unfoldable pub triangle_release : M ℕ
triangle_release = do
  k_write_reg 0x1000 1
  d ← get
  emit (iounmap d.k_control_base)
  modify (λ e. record e { control_mapped = false })
  emit (iounmap d.k_card_ram_base)
  pure 0

-- The commands; `VMODE` looks at its argument as an `int`.
pub data TriangleCommand : Type 0 where
  set_mode : ℕ → TriangleCommand
  await_card unknown_command : TriangleCommand

-- `sync` and `graphicsOn` have the text and the constants of dmaBuffer.c.
abbrev pub triangle_sync : M (Unit {0})
triangle_sync = sync

abbrev pub triangle_graphics_on : M (Unit {0})
triangle_graphics_on = graphics_on

-- `kyouko2_ioctl`
unfoldable pub triangle_ioctl : TriangleCommand → M ℕ
triangle_ioctl (set_mode arg) = do
  (if u32 arg == graphics_on_arg then triangle_graphics_on else (do triangle_sync; reboot_1))
  pure 0
triangle_ioctl await_card = do triangle_sync; pure 0
triangle_ioctl unknown_command = pure 0

-- `kyouko2_mmap`: the page frame that is handed to `io_remap_pfn_range`; without one the call
-- gives -1.
unfoldable pub triangle_mmap : ℕ → Driver → ℕ → Option ℕ
triangle_mmap page_shift d pgoff =
    if offset_of page_shift pgoff == 0
    then some (d.p_control_base / 2 ^ page_shift)
    else if offset_of page_shift pgoff == 0x80000000
    then some (d.p_card_ram_base / 2 ^ page_shift)
    else none

-- `kyouko2_probe`, `drawLineTriangle_init` and `drawLineTriangle_exit` have the text of
-- dmaBuffer.c.
abbrev pub triangle_probe : ℕ → ℕ → Driver → Driver
triangle_probe = kyouko2_probe

abbrev pub triangle_init : Answers → ℤ × List Call
triangle_init = init

abbrev pub triangle_exit : List Call
triangle_exit = exit

-- The entries of `kyouko2_fops`: a call of the driver by a process, `open` with the addresses that
-- `ioremap_nocache` would give, and `mmap` with the width of a page and the offset in pages.
pub data FileCall : Type 0 where
  opens : ℕ → ℕ → FileCall
  controls : TriangleCommand → FileCall
  maps : ℕ → ℕ → FileCall
  releases : FileCall

-- What a call gives that comes back: a value, or what is mapped, if anything is.
pub data FileReply : Type 0 where
  returns : ℕ → FileReply
  remapped : Option ℕ → FileReply

abbrev returning : M ℕ → M FileReply
returning m = do value ← m; pure (returns value)

abbrev pub serve : FileCall → M FileReply
serve (opens control ram) = returning (triangle_open control ram)
serve (controls c) = returning (triangle_ioctl c)
serve (maps page_shift pgoff) = do d ← get; pure (remapped (triangle_mmap page_shift d pgoff))
serve releases = returning triangle_release

-- The driver behind a call, and behind calls one after the other; a call that stops leaves the
-- driver as it was then.
abbrev pub behind : {A : Type 0} → Outcome A → Driver
behind (ok a d) = d
behind (stop s d) = d

abbrev pub behind_all : List FileCall → Driver → Driver
behind_all [] d = d
behind_all (f ∷ fs) d = behind_all fs (behind (serve f d))

triangle_open-faults :
    (control ram : ℕ) (d : Driver)
    → d.control_mapped ≡ false
    → triangle_open control ram d ≡ stop bad_access d
unfolding triangle_open k_read_reg
triangle_open-faults control ram d m = rw m refl

triangle_release-faults :
    (d : Driver) → d.control_mapped ≡ false → triangle_release d ≡ stop bad_access d
unfolding triangle_release k_write_reg
triangle_release-faults d m = rw m refl

sync-faults : (d : Driver) → d.control_mapped ≡ false → sync d ≡ stop bad_access d
unfolding sync sync_rounds k_read_reg
sync-faults d m = rw m refl

graphics_on-faults : (d : Driver) → d.control_mapped ≡ false → graphics_on d ≡ stop bad_access d
unfolding graphics_on write_all k_write_reg
graphics_on-faults d m = rw m refl

-- A first part that faults ends the whole.
>>-faults :
    {B : Type 0} (m : M (Unit {0})) (k : M B) (d : Driver)
    → m d ≡ stop bad_access d
    → ◌>>◌ m k d ≡ stop bad_access d
>>-faults {B} m k d h =
    ap {B = Outcome B} (λ r. elim r [ ok a d' ↦ k d' | stop s d' ↦ stop s d' ]) h

>>-behind :
    (m : M (Unit {0})) (k : M ℕ) (d : Driver) → m d ≡ stop bad_access d → behind (◌>>◌ m k d) ≡ d
>>-behind m k d h = ap behind (>>-faults m k d h)

triangle_ioctl-behind :
    (c : TriangleCommand) (d : Driver) → d.control_mapped ≡ false → behind (triangle_ioctl c d) ≡ d
unfolding triangle_ioctl
triangle_ioctl-behind (set_mode arg) d m = elim (Bool-cases (u32 arg == graphics_on_arg)) [
  | inl e ↦ rw e (>>-behind graphics_on (pure 0) d (graphics_on-faults d m))
  | inr e ↦
      rw e (>>-behind (do sync; reboot_1) (pure 0) d (>>-faults sync reboot_1 d (sync-faults d m)))
]
triangle_ioctl-behind await_card d m = >>-behind sync (pure 0) d (sync-faults d m)
triangle_ioctl-behind unknown_command d m = refl

behind-reply :
    (r : Outcome ℕ)
    → behind {A = FileReply} (elim r [ ok v d ↦ ok (returns v) d | stop s d ↦ stop s d ]) ≡ behind r
behind-reply (ok v d) = refl
behind-reply (stop s d) = refl

returning-behind : (m : M ℕ) (d : Driver) → behind (returning m d) ≡ behind (m d)
returning-behind m d = behind-reply (m d)

serve-behind : (f : FileCall) (d : Driver) → d.control_mapped ≡ false → behind (serve f d) ≡ d
serve-behind (opens control ram) d m =
    returning-behind (triangle_open control ram) d
    ∙ ap behind (triangle_open-faults control ram d m)
serve-behind (controls c) d m = returning-behind (triangle_ioctl c) d ∙ triangle_ioctl-behind c d m
serve-behind (maps page_shift pgoff) d m = refl
serve-behind releases d m =
    returning-behind triangle_release d ∙ ap behind (triangle_release-faults d m)

behind_all_lem : (fs : List FileCall) (d : Driver) → d.control_mapped ≡ false → behind_all fs d ≡ d
behind_all_lem [] d m = refl
behind_all_lem (f ∷ fs) d m = rw (serve-behind f d m) (behind_all_lem fs d m)

pub never_mapped :
    (fs : List FileCall) (d : Driver) (control ram : ℕ)
    → d.control_mapped ≡ false
    → (behind_all fs d ≡ d) × (triangle_open control ram (behind_all fs d) ≡ stop bad_access d)
never_mapped fs d control ram m =
    (behind_all_lem fs d m, rw (behind_all_lem fs d m) (triangle_open-faults control ram d m))
