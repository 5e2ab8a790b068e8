-- ===== src/Kyouko/Contact.antt =====
-- The driver of contactWithGraphicCard.c, which lets a process map the registers and nothing more,
-- and the module of launchModule.c (contactWithGraphicCard.c, lines 29-151; launchModule.c, lines
-- 12-51). The fields of the ring of `Driver` are not used by them.
use linux_ker_dev.Prelude.{
  ℕ, ◌/◌, ◌^◌, ◌≡◌, refl, sym, ◌∙◌, ap, true, false, List, [], ◌∷◌, ◌++◌, if◌then◌else◌, ℤ,
  is_nonzero,
}
use mathlib.Core.List.{append_assoc, append-nil}
use linux_ker_dev.Kyouko.Regs.{kyouko2_control_size}
use linux_ker_dev.Kyouko.Device.{
  Driver, Action, Outcome, M, ok, stop, bad_access, write_reg, ioremap_nocache, iounmap, ◌>>=◌,
  ◌>>◌, pure, get, modify, emit, k_write_reg, logged,
}
use linux_ker_dev.Kyouko.Load.{
  Answers, Call, cdev_add, pci_register_driver, pci_enable_device, pci_set_master,
  pci_unregister_driver, cdev_del,
}

-- `kyouko2_open`, with the two addresses that `ioremap_nocache` gives.
unfoldable pub contact_open : ℕ → ℕ → M ℕ
contact_open control ram = do
  d ← get
  emit (ioremap_nocache d.p_control_base kyouko2_control_size)
  modify (λ e. record e { k_control_base = control; control_mapped = true })
  emit (ioremap_nocache d.p_card_ram_base kyouko2_control_size)
  modify (λ e. record e { k_card_ram_base = ram })
  pure 0

-- `kyouko2_release`
unfoldable pub contact_release : M ℕ
contact_release = do
  k_write_reg 0x1000 1
  d ← get
  emit (iounmap d.k_control_base)
  modify (λ e. record e { control_mapped = false })
  emit (iounmap d.k_card_ram_base)
  pure 0

-- `kyouko2_mmap`: the page frame that is handed to `io_remap_pfn_range`, whatever the offset.
unfoldable pub contact_mmap : ℕ → Driver → ℕ
contact_mmap page_shift d = d.p_control_base / 2 ^ page_shift

-- `kyouko2_probe`
unfoldable pub contact_probe : ℕ → ℕ → Driver → Driver
contact_probe control ram d = record d { p_control_base = control; p_card_ram_base = ram }

-- `shuaiwei_init`: its value and the calls that it makes
unfoldable pub shuaiwei_init : Answers → ℤ × List Call
shuaiwei_init a =
    if is_nonzero a.added
    then (a.added, cdev_add ∷ [])
    else if is_nonzero a.registered
    then (a.registered, cdev_add ∷ pci_register_driver ∷ [])
    else if is_nonzero a.enabled
    then (a.enabled, cdev_add ∷ pci_register_driver ∷ pci_enable_device ∷ [])
    else (a.enabled, cdev_add ∷ pci_register_driver ∷ pci_enable_device ∷ pci_set_master ∷ [])

-- What `shuaiwei_exit` calls, in order
pub data ExitCall : Type 0 where
  pci_disable_device : ExitCall
  then_call : Call → ExitCall

-- `shuaiwei_exit`
unfoldable pub shuaiwei_exit : List ExitCall
shuaiwei_exit = pci_disable_device ∷ then_call pci_unregister_driver ∷ then_call cdev_del ∷ []

-- `launchModule_init`, by what `cdev_add` answers, and `launchModule_exit`
unfoldable pub launch_module_init : ℤ → ℤ × List Call
launch_module_init added = (added, cdev_add ∷ [])

unfoldable pub launch_module_exit : List Call
launch_module_exit = cdev_del ∷ []

-- Processes that open and close the device one after the other, by the addresses that each gets:
-- what `open` and `release` give them.
unfoldable pub sessions : List (ℕ × ℕ) → M (List (ℕ × ℕ))
sessions [] = pure []
sessions ((control, ram) ∷ more) = do
  opened ← contact_open control ram
  closed ← contact_release
  values ← sessions more
  pure ((opened, closed) ∷ values)

-- 0 for each call of each process
abbrev pub zeros : List (ℕ × ℕ) → List (ℕ × ℕ)
zeros [] = []
zeros (u ∷ more) = (0, 0) ∷ zeros more

-- What one process does outside.
abbrev pub session_actions : Driver → ℕ → ℕ → List Action
session_actions d control ram =
    ioremap_nocache d.p_control_base kyouko2_control_size
    ∷ ioremap_nocache d.p_card_ram_base kyouko2_control_size
    ∷ write_reg 0x1000 1
    ∷ iounmap control
    ∷ iounmap ram
    ∷ []

abbrev pub all_actions : Driver → List (ℕ × ℕ) → List Action
all_actions d [] = []
all_actions d ((control, ram) ∷ more) = session_actions d control ram ++ all_actions d more

-- Two processes that have the device open at the same time.
unfoldable pub overlap : ℕ × ℕ → ℕ × ℕ → M ℕ
overlap first second = do
  opened ← contact_open first.0 first.1
  opened_too ← contact_open second.0 second.1
  closed ← contact_release
  contact_release

-- The driver behind a session
closed_driver : ℕ → ℕ → Driver → Driver
closed_driver control ram d = record (logged d (session_actions d control ram)) {
  k_control_base = control;
  k_card_ram_base = ram;
  control_mapped = false;
}

append_five :
    (l : List Action) (a b c e f : Action)
    → ((((l ++ a ∷ []) ++ b ∷ []) ++ c ∷ []) ++ e ∷ []) ++ f ∷ [] ≡ l ++ a ∷ b ∷ c ∷ e ∷ f ∷ []
append_five l a b c e f = simp append_assoc

-- The values of a session that went well, before those of the later ones
abbrev with_session : M (List (ℕ × ℕ)) → M (List (ℕ × ℕ))
with_session later = do values ← later; pure ((0, 0) ∷ values)

with_session-ok :
    (later : M (List (ℕ × ℕ))) (d e : Driver) (values : List (ℕ × ℕ))
    → later d ≡ ok values e
    → with_session later d ≡ ok ((0, 0) ∷ values) e
with_session-ok later d e values h =
    ap {B = Outcome (List (ℕ × ℕ))}
      (λ r. elim r [ ok values e ↦ ok ((0, 0) ∷ values) e | stop s e ↦ stop s e ]) h

sessions-cons :
    (control ram : ℕ) (more : List (ℕ × ℕ)) (d : Driver)
    → sessions ((control, ram) ∷ more) d
      ≡ with_session (sessions more) (closed_driver control ram d)
unfolding sessions contact_open contact_release k_write_reg closed_driver
sessions-cons control ram more d =
    ap
      (λ l. with_session (sessions more) (record d {
        log = l;
        k_control_base = control;
        k_card_ram_base = ram;
        control_mapped = false;
      }))
      (append_five _ _ _ _ _ _)

actions-closed :
    (control ram : ℕ) (more : List (ℕ × ℕ)) (d : Driver)
    → all_actions (closed_driver control ram d) more ≡ all_actions d more
unfolding closed_driver
actions-closed control ram [] d = refl
actions-closed control ram ((c, r) ∷ more) d =
    ap (λ l. session_actions d c r ++ l) (actions-closed control ram more d)

sessions_log :
    (control ram : ℕ) (more : List (ℕ × ℕ)) (d e : Driver)
    → e.log ≡ (closed_driver control ram d).log ++ all_actions (closed_driver control ram d) more
    → e.log ≡ d.log ++ all_actions d ((control, ram) ∷ more)
unfolding closed_driver
sessions_log control ram more d e l =
    l
    ∙ ap (λ a. (d.log ++ session_actions d control ram) ++ a) (actions-closed control ram more d)
    ∙ append_assoc d.log (session_actions d control ram) (all_actions d more)

sessions_lem :
    (users : List (ℕ × ℕ)) (d : Driver)
    → (e : Driver) × (sessions users d ≡ ok (zeros users) e)
      × (e.log ≡ d.log ++ all_actions d users)
unfolding sessions
sessions_lem [] d = (d, refl, sym (append-nil d.log))
sessions_lem ((control, ram) ∷ more) d =
    let (e, r, l) = sessions_lem more (closed_driver control ram d) in
    (
      e,
      sessions-cons control ram more d
          ∙ with_session-ok (sessions more) (closed_driver control ram d) e (zeros more) r,
      sessions_log control ram more d e l,
    )

overlap_lem :
    (first second : ℕ × ℕ) (d : Driver)
    → (e : Driver) × (overlap first second d ≡ stop bad_access e)
      × (e.log
          ≡ d.log
            ++ ioremap_nocache d.p_control_base kyouko2_control_size
              ∷ ioremap_nocache d.p_card_ram_base kyouko2_control_size
              ∷ session_actions d second.0 second.1)
unfolding overlap contact_open contact_release k_write_reg
overlap_lem first second d = (_, refl, simp append_assoc)

pub open_release_lem :
    (users : List (ℕ × ℕ)) (first second : ℕ × ℕ) (d : Driver)
    → ((e : Driver) × (sessions users d ≡ ok (zeros users) e)
        × (e.log ≡ d.log ++ all_actions d users))
      × ((e : Driver) × (overlap first second d ≡ stop bad_access e)
          × (e.log
              ≡ d.log
                ++ ioremap_nocache d.p_control_base kyouko2_control_size
                  ∷ ioremap_nocache d.p_card_ram_base kyouko2_control_size
                  ∷ session_actions d second.0 second.1))
open_release_lem users first second d = (sessions_lem users d, overlap_lem first second d)
