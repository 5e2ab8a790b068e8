-- ===== src/Kyouko/Files.antt =====
-- `open`, `release` and `mmap` of the driver (dmaBuffer.c, lines 60-85 and 323-356).
use linux_ker_dev.Prelude.{
  ℕ, zero, suc, ◌+◌, ◌*◌, ◌/◌, ◌%◌, ◌^◌, ◌<◌, ◌≡◌, ◌≢◌, refl, true, false, [], ◌∷◌, ◌++◌, Option,
  none, some, arith, ◌==◌, if◌then◌else◌, ne→==,
}
use mathlib.Core.List.{append_assoc}
use linux_ker_dev.Kyouko.Regs.{kyouko2_control_size, buffers, config_interrupt}
use linux_ker_dev.Kyouko.Device.{
  Driver, M, ok, stop, bad_access, write_reg, ioremap_nocache, iounmap, free_irq, pci_disable_msi,
  do_munmap, pci_free_consistent, ◌>>=◌, ◌>>◌, pure, get, modify, emit, k_write_reg, logged,
}

-- `kyouko2_open`, with the two addresses that `ioremap_nocache` gives.
unfoldable pub kyouko2_open : ℕ → ℕ → M ℕ
kyouko2_open control ram = do
  d ← get
  emit (ioremap_nocache d.p_control_base kyouko2_control_size)
  modify (λ e. record e { k_control_base = control; control_mapped = true })
  emit (ioremap_nocache d.p_card_ram_base kyouko2_control_size)
  modify (λ e. record e { k_card_ram_base = ram })
  pure 0

-- The loop of `kyouko2_release` over the buffers, by the rounds that are left.
unfoldable pub free_buffers : ℕ → ℕ → M (Unit {0})
free_buffers zero i d = ok tt d
free_buffers (suc rounds) i d = free_buffers rounds (i + 1) (
    logged (logged d (do_munmap (d.user_virt_addr i) ∷ []))
      (pci_free_consistent (d.dma_buffer i).buffer (d.dma_handle i) ∷ []))

-- `kyouko2_release`
unfoldable pub kyouko2_release : M ℕ
unfolding free_buffers
kyouko2_release = do
  k_write_reg 0x1000 1
  d ← get
  emit (iounmap d.k_control_base)
  modify (λ e. record e { control_mapped = false })
  emit (iounmap d.k_card_ram_base)
  k_write_reg config_interrupt 0x00
  emit free_irq
  emit pci_disable_msi
  free_buffers buffers 0
  pure 0

-- If the registers are mapped, `kyouko2_release` writes to the control window after it has
-- unmapped it; besides the reset and the two unmappings nothing is done before that.
pub kyouko2_release_faults :
    (d : Driver)
    → d.control_mapped ≡ true
    → (e : Driver) × (kyouko2_release d ≡ stop bad_access e)
      × (e.log
          ≡ d.log ++ write_reg 0x1000 1 ∷ iounmap d.k_control_base ∷ iounmap d.k_card_ram_base ∷ [])
unfolding kyouko2_release k_write_reg
kyouko2_release_faults d m = (
  record d {
    control_mapped = false;
    log =
        ((d.log ++ write_reg 0x1000 1 ∷ []) ++ iounmap d.k_control_base ∷ [])
        ++ iounmap d.k_card_ram_base ∷ [];
  },
  rw m refl,
  simp append_assoc,
)

-- `vma->vm_pgoff << PAGE_SHIFT` in 64 bits; the width of a page is the kernel's.
abbrev pub offset_of : ℕ → ℕ → ℕ
offset_of page_shift pgoff = pgoff * 2 ^ page_shift % 2 ^ 64

-- The bus address that `kyouko2_mmap` maps at an offset, if it maps any.
unfoldable pub mmap_base : Driver → ℕ → Option ℕ
mmap_base d offset =
    if offset == 0
    then some d.p_control_base
    else if offset == 0x80000000
    then some d.p_card_ram_base
    else if offset == 0x1000
    then some (d.dma_handle 0)
    else if offset == 0x2000
    then some (d.dma_handle 1)
    else if offset == 0x3000
    then some (d.dma_handle 2)
    else if offset == 0x4000
    then some (d.dma_handle 3)
    else if offset == 0x5000
    then some (d.dma_handle 4)
    else if offset == 0x6000
    then some (d.dma_handle 5)
    else if offset == 0x7000
    then some (d.dma_handle 6)
    else if offset == 0x8000
    then some (d.dma_handle 7)
    else none

-- `kyouko2_mmap`: the page frame that is handed to `io_remap_pfn_range`; without one the call
-- gives -1.
unfoldable pub kyouko2_mmap : ℕ → Driver → ℕ → Option ℕ
unfolding mmap_base
kyouko2_mmap page_shift d pgoff = elim (mmap_base d (offset_of page_shift pgoff)) [
  | none ↦ none
  | some base ↦ some (base / 2 ^ page_shift)
]

mmap_base-buffer :
    (d : Driver) (i : ℕ) → i < buffers → mmap_base d ((i + 1) * 0x1000) ≡ some (d.dma_handle i)
unfolding mmap_base
mmap_base-buffer d zero h = refl
mmap_base-buffer d (suc zero) h = refl
mmap_base-buffer d (suc (suc zero)) h = refl
mmap_base-buffer d (suc (suc (suc zero))) h = refl
mmap_base-buffer d (suc (suc (suc (suc zero)))) h = refl
mmap_base-buffer d (suc (suc (suc (suc (suc zero))))) h = refl
mmap_base-buffer d (suc (suc (suc (suc (suc (suc zero)))))) h = refl
mmap_base-buffer d (suc (suc (suc (suc (suc (suc (suc zero))))))) h = refl
mmap_base-buffer d (suc (suc (suc (suc (suc (suc (suc (suc i)))))))) h = absurd (omega arith)

mmap_base-refuses :
    (d : Driver) (offset : ℕ)
    → offset ≢ 0
    → offset ≢ 0x80000000
    → ((i : ℕ) → i < buffers → offset ≢ (i + 1) * 0x1000)
    → mmap_base d offset ≡ none
unfolding mmap_base
mmap_base-refuses d offset z r h =
    let at = λ (i : ℕ) (l : i < buffers). ne→== (h i l) in
    rw
      (
        ne→== z,
        ne→== r,
        at 0 (omega arith),
        at 1 (omega arith),
        at 2 (omega arith),
        at 3 (omega arith),
        at 4 (omega arith),
        at 5 (omega arith),
        at 6 (omega arith),
        at 7 (omega arith),
      )
      refl

-- The offset at which `BIND_DMA` maps the buffer i leads to the handle of the buffer i, 0 to the
-- registers and 0x80000000 to the card's memory; every other offset leads nowhere.
pub mmap_base_lem :
    (d : Driver) (offset : ℕ)
    → (mmap_base d 0 ≡ some d.p_control_base)
      × (mmap_base d 0x80000000 ≡ some d.p_card_ram_base)
      × ((i : ℕ) → i < buffers → mmap_base d ((i + 1) * 0x1000) ≡ some (d.dma_handle i))
      × (offset ≢ 0
          → offset ≢ 0x80000000
          → ((i : ℕ) → i < buffers → offset ≢ (i + 1) * 0x1000)
          → mmap_base d offset ≡ none)
unfolding mmap_base
mmap_base_lem d offset = (refl, refl, mmap_base-buffer d, mmap_base-refuses d offset)
