-- ===== src/Kyouko/Second/Files.antt =====
-- `open`, `release` and `mmap` of the second driver, and its loading (driver.c, lines 47-56, 65-141
-- and 382-412).
use linux_ker_dev.Prelude.{
  ℕ, zero, suc, ◌+◌, ◌/◌, ◌^◌, ◌≡◌, refl, sym, ap, ◌∙◌, true, false, not, List, [], ◌∷◌, ◌++◌, none,
  some, ℤ, negsuc, is_nonzero, ◌==◌, if◌then◌else◌, Bool-cases, inl, inr,
}
use mathlib.Core.List.{append_assoc, append-nil}
use linux_ker_dev.Kyouko.Device.{
  Driver, M, Action, ok, write_reg, ioremap_nocache, iounmap, free_irq, pci_disable_msi, do_munmap,
  pci_free_consistent, ◌>>=◌, ◌>>◌, pure, get, modify, emit, k_write_reg, k_write_reg-ok, >>-ok,
  logged,
}
use linux_ker_dev.Kyouko.Files.{free_buffers, offset_of, mmap_base}
use linux_ker_dev.Kyouko.Load.{
  Answers, Call, cdev_add, pci_register_driver, pci_enable_device, pci_set_master,
  pci_unregister_driver, cdev_del,
}
use linux_ker_dev.Kyouko.Second.{DataTypes, Flags, ends, second_start_dma}

-- `kyouko2_probe`
unfoldable pub second_probe : ℕ → ℕ → Driver → Driver
second_probe control ram d = record d { p_control_base = control; p_card_ram_base = ram }

-- What `kyouko2_mmap` gives: -1 to a user other than root, 1 at an offset that it does not know, or
-- the answer of `io_remap_pfn_range` for a page frame.
pub data MmapReply : Type 0 where
  only_root unknown_offset : MmapReply
  remaps : ℕ → MmapReply

-- `kyouko2_mmap`; its chain of offsets is that of the other driver.
unfoldable pub second_mmap : ℕ → ℕ → Driver → ℕ → MmapReply
second_mmap page_shift uid d pgoff =
    if not (uid == 0) then only_root else elim (mmap_base d (offset_of page_shift pgoff)) [
      | none ↦ unknown_offset
      | some base ↦ remaps (base / 2 ^ page_shift)
    ]

-- `my_init_function`: its value and the calls that it makes
unfoldable pub my_init_function : Answers → ℤ × List Call
my_init_function a =
    if is_nonzero a.added
    then (a.added, cdev_add ∷ [])
    else if is_nonzero a.registered
    then (a.registered, cdev_add ∷ pci_register_driver ∷ pci_set_master ∷ [])
    else (a.enabled, cdev_add ∷ pci_register_driver ∷ pci_enable_device ∷ pci_set_master ∷ [])

-- `my_exit_function`
unfoldable pub my_exit_function : List Call
my_exit_function = pci_unregister_driver ∷ cdev_del ∷ []

-- What is undone for the buffers from `i` on.
abbrev pub frees : Driver → ℕ → ℕ → List Action
frees d zero i = []
frees d (suc rounds) i =
    do_munmap (d.user_virt_addr i)
    ∷ pci_free_consistent (d.dma_buffer i).buffer (d.dma_handle i)
    ∷ frees d rounds (i + 1)

logged-logged : (d : Driver) (l k : List Action) → logged (logged d l) k ≡ logged d (l ++ k)
logged-logged d l k = ap (λ x. record d { log = x }) (append_assoc d.log l k)

frees-logged :
    (d : Driver) (l : List Action) (rounds i : ℕ) → frees (logged d l) rounds i ≡ frees d rounds i
frees-logged d l zero i = refl
frees-logged d l (suc rounds) i = rw (frees-logged d l rounds (i + 1)) refl

free_buffers-ok :
    (rounds i : ℕ) (d : Driver) → free_buffers rounds i d ≡ ok tt (logged d (frees d rounds i))
unfolding free_buffers
free_buffers-ok zero i d = ap (λ l. ok tt (record d { log = l })) (sym (append-nil d.log))
free_buffers-ok (suc rounds) i d =
    let one = do_munmap (d.user_virt_addr i) ∷ [] in
    let two = pci_free_consistent (d.dma_buffer i).buffer (d.dma_handle i) ∷ [] in
    let e = logged (logged d one) two in
    let same : frees e rounds (i + 1) ≡ frees d rounds (i + 1) =
      frees-logged (logged d one) two rounds (i + 1) ∙ frees-logged d one rounds (i + 1) in
    rw (free_buffers-ok rounds (i + 1) e, same)
      (ap (λ l. ok tt (record d { log = l })) (simp append_assoc))

module _ (c : DataTypes) where
  -- `kyouko2_open`
  unfoldable pub second_open : ℕ → ℕ → M ℕ
  second_open control ram = do
    d ← get
    emit (ioremap_nocache d.p_control_base c.control_size)
    modify (λ e. record e { k_control_base = control; control_mapped = true })
    emit (ioremap_nocache d.p_card_ram_base c.control_size)
    modify (λ e. record e { k_card_ram_base = ram })
    pure 0

  -- What `kyouko2_release` undoes of BIND_DMA.
  unfoldable pub unbind_dma : M (Unit {0})
  unbind_dma = do
    k_write_reg c.interrupt 0x00
    emit free_irq
    emit pci_disable_msi
    free_buffers c.num_bufs 0
    k_write_reg c.reboot 1

  -- The two unmappings
  unfoldable pub unmap_card : M (Unit {0})
  unmap_card = do
    d ← get
    emit (iounmap d.k_control_base)
    modify (λ e. record e { control_mapped = false })
    emit (iounmap d.k_card_ram_base)

  -- `kyouko2_release`
  unfoldable pub second_release : Flags → M (Flags × ℕ)
  second_release flags = do
    (if flags.dma_mapped then unbind_dma else pure tt)
    unmap_card
    pure (record flags { dma_mapped = false }, 0)

  -- What `kyouko2_release` does outside, in order.
  abbrev pub unbound : Driver → List Action
  unbound d =
      write_reg c.interrupt 0x00
      ∷ free_irq
      ∷ pci_disable_msi
      ∷ (frees d c.num_bufs 0 ++ write_reg c.reboot 1 ∷ [])

  abbrev pub undone : Flags → Driver → List Action
  undone flags d =
      (if flags.dma_mapped then unbound d else [])
      ++ iounmap d.k_control_base ∷ iounmap d.k_card_ram_base ∷ []

  unbind_dma-ok :
      (d : Driver) → d.control_mapped ≡ true → unbind_dma d ≡ ok tt (logged d (unbound d))
  unfolding unbind_dma
  unbind_dma-ok d m =
      let e : Driver =
        logged (logged (logged d (write_reg c.interrupt 0x00 ∷ [])) (free_irq ∷ []))
          (pci_disable_msi ∷ []) in
      let same : frees e c.num_bufs 0 ≡ frees d c.num_bufs 0 =
        frees-logged (logged (logged d (write_reg c.interrupt 0x00 ∷ [])) (free_irq ∷ []))
          (pci_disable_msi ∷ []) c.num_bufs 0
        ∙ frees-logged (logged d (write_reg c.interrupt 0x00 ∷ [])) (free_irq ∷ []) c.num_bufs 0
        ∙ frees-logged d (write_reg c.interrupt 0x00 ∷ []) c.num_bufs 0 in
      let last = logged e (frees e c.num_bufs 0) in
      >>-ok (k_write_reg c.interrupt 0x00)
        (do emit free_irq; emit pci_disable_msi; free_buffers c.num_bufs 0; k_write_reg c.reboot 1)
        d (logged d (write_reg c.interrupt 0x00 ∷ [])) (k_write_reg-ok c.interrupt 0x00 d m)
      ∙ >>-ok (free_buffers c.num_bufs 0) (k_write_reg c.reboot 1) e last
          (free_buffers-ok c.num_bufs 0 e)
      ∙ k_write_reg-ok c.reboot 1 last m
      ∙ rw same (ap (λ l. ok tt (record d { log = l })) (simp append_assoc))

  unmap_card-ok :
      (d : Driver)
      → unmap_card d
        ≡ ok tt (record (logged d (iounmap d.k_control_base ∷ iounmap d.k_card_ram_base ∷ [])) {
          control_mapped = false;
        })
  unfolding unmap_card
  unmap_card-ok d =
      ap (λ l. ok tt (record d { log = l; control_mapped = false }))
        (append_assoc d.log (iounmap d.k_control_base ∷ []) (iounmap d.k_card_ram_base ∷ []))

  -- The driver behind `kyouko2_release`
  abbrev pub released_driver : Flags → Driver → Driver
  released_driver flags d = record (logged d (undone flags d)) { control_mapped = false }

  second_release-ok :
      (flags : Flags) (d : Driver)
      → d.control_mapped ≡ true
      → second_release flags d
        ≡ ok (record flags { dma_mapped = false }, 0) (released_driver flags d)
  unfolding second_release
  second_release-ok flags d m =
      let closed : Flags × ℕ = (record flags { dma_mapped = false }, 0) in
      elim (Bool-cases flags.dma_mapped) [
        | inl f ↦ rw f (
            >>-ok unbind_dma (do unmap_card; pure closed) d (logged d (unbound d))
              (unbind_dma-ok d m)
            ∙ >>-ok unmap_card (pure closed) (logged d (unbound d)) _
                (unmap_card-ok (logged d (unbound d)))
            ∙ ap (λ l. ok closed (record d { log = l; control_mapped = false }))
                (simp append_assoc))
        | inr f ↦ rw f (>>-ok unmap_card (pure closed) d _ (unmap_card-ok d))
      ]

  -- If the registers are mapped, `kyouko2_release` of driver.c returns 0; where BIND_DMA was done,
  -- it turns the interrupt off, gives back the interrupt and each of the buffers and resets the
  -- card, in this order; then it takes the two mappings down, and does nothing more. After it
  -- START_DMA gives -1 and does nothing.
  pub second_release_lem :
      (flags : Flags) (d : Driver)
      → d.control_mapped ≡ true
      → (second_release flags d
          ≡ ok (record flags { dma_mapped = false }, 0) (released_driver flags d))
        × ((size arg : ℕ)
            → second_start_dma c
                (record flags { dma_mapped = false })
                size
                arg
                (released_driver flags d)
              ≡ ok
                  (ends (record flags { dma_mapped = false }) (negsuc 0))
                  (released_driver flags d))
  unfolding second_start_dma
  second_release_lem flags d m = (second_release-ok flags d m, λ size arg. refl)
