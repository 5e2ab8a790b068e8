-- ===== src/Kyouko/Load.antt =====
-- Loading and unloading the module, and the `probe` that the bus calls (dmaBuffer.c, lines
-- 373-433). `dmaBuffer_init` is also the text of the module in drawLineTriangle.
use linux_ker_dev.Prelude.{
  ℕ, ◌≡◌, true, List, [], ◌∷◌, arith, if◌then◌else◌, ℤ, pos, is_nonzero, is_le_zero, ◌↔◌,
}
use linux_ker_dev.Kyouko.Device.{Driver}

pub data Call : Type 0 where
  cdev_add pci_register_driver pci_enable_device pci_set_master : Call
  pci_unregister_driver cdev_del : Call

-- What the kernel answers while the module is loaded.
pub record Answers : Type 0 where
  pub added : ℤ
  pub registered : ℤ
  pub enabled : ℤ

-- `dmaBuffer_init`: its value and the calls that it makes.
unfoldable pub init : Answers → ℤ × List Call
init a =
    if is_nonzero a.added
    then (a.added, cdev_add ∷ [])
    else if is_le_zero a.registered
    then (if is_nonzero a.enabled
        then (a.enabled, cdev_add ∷ pci_register_driver ∷ pci_enable_device ∷ [])
        else (a.enabled, cdev_add ∷ pci_register_driver ∷ pci_enable_device ∷ pci_set_master ∷ []))
    else (a.registered, cdev_add ∷ pci_register_driver ∷ [])

-- `dmaBuffer_exit`
unfoldable pub exit : List Call
exit = pci_unregister_driver ∷ cdev_del ∷ []

-- `kyouko2_probe`, with the two bus addresses that `pci_resource_start` gives.
unfoldable pub kyouko2_probe : ℕ → ℕ → Driver → Driver
kyouko2_probe control ram d = record d { p_control_base = control; p_card_ram_base = ram }

-- Loading gives 0 exactly if the character device was added, the bus answered with 0 or with a
-- negative error, and the device was enabled.
pub init_succeeds_iff :
    (a : Answers)
    → ((init a).0 ≡ pos 0)
      ↔ ((a.added ≡ pos 0) × (is_le_zero a.registered ≡ true) × (a.enabled ≡ pos 0))
unfolding init
init_succeeds_iff a = ground arith
