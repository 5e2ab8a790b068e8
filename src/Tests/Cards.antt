-- ===== src/Tests/Cards.antt =====
-- The theorems on the drivers of drawLineTriangle and contactWithGraphicCard at concrete inputs: a
-- card that nobody has opened yet.
use linux_ker_dev.Prelude.{ℕ, ◌≡◌, refl, false, List, [], ◌∷◌, ◌++◌}
use linux_ker_dev.Kyouko.Regs.{kyouko2_control_size}
use linux_ker_dev.Kyouko.Device.{Driver, ok, stop, bad_access, ioremap_nocache}
use linux_ker_dev.Kyouko.Triangle.{
  FileCall, set_mode, await_card, opens, controls, releases, behind_all, triangle_open,
  never_mapped,
}
use linux_ker_dev.Kyouko.Contact.{sessions, overlap, session_actions, all_actions, open_release_lem}

abbrev unopened : Driver
unopened = record {
  p_control_base = 0xF0000000;
  p_card_ram_base = 0xF8000000;
  k_control_base = 0;
  k_card_ram_base = 0;
  dma_buffer = λ i. record { buffer = 0; count = 0; is_full = 0 };
  user_virt_addr = λ i. 0;
  dma_handle = λ i. 0;
  fill = 0;
  drain = 0;
  size = 0;
  control_mapped = false;
  answers = λ reg. 32 ∷ 0 ∷ [];
  log = [];
}

abbrev tries : List FileCall
tries = opens 0x1000000 0x2000000 ∷ controls (set_mode 1) ∷ controls await_card ∷ releases ∷ []

never_mapped_example :
    (behind_all tries unopened ≡ unopened)
    × (triangle_open 0x1000000 0x2000000 (behind_all tries unopened) ≡ stop bad_access unopened)
never_mapped_example = never_mapped tries unopened 0x1000000 0x2000000 refl

abbrev users : List (ℕ × ℕ)
users = (0x1000000, 0x2000000) ∷ (0x3000000, 0x4000000) ∷ []

abbrev one : ℕ × ℕ
one = (0x1000000, 0x2000000)

abbrev other : ℕ × ℕ
other = (0x3000000, 0x4000000)

open_release_lem_example :
    ((e : Driver) × (sessions users unopened ≡ ok ((0, 0) ∷ (0, 0) ∷ []) e)
      × (e.log ≡ [] ++ all_actions unopened users))
    × ((e : Driver) × (overlap one other unopened ≡ stop bad_access e)
        × (e.log
            ≡ []
              ++ ioremap_nocache 0xF0000000 kyouko2_control_size
                ∷ ioremap_nocache 0xF8000000 kyouko2_control_size
                ∷ session_actions unopened other.0 other.1))
open_release_lem_example = open_release_lem users one other unopened
