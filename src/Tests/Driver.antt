-- ===== src/Tests/Driver.antt =====
-- The theorems on the driver dmaBuffer.c at concrete inputs: a card that is about to answer, and
-- rings that hold no request, one, seven and eight.
use linux_ker_dev.Prelude.{
  ℕ, ◌+◌, ◌%◌, ◌≡◌, ◌≢◌, ◌≤◌, ◌<◌, ◌↔◌, ◌++◌, ◌*◌, refl, true, List, [], ◌∷◌, none, some, length,
  get_or, arith, ltb, ◌==◌, if◌then◌else◌,
}
use linux_ker_dev.Kyouko.Regs.{info_status, info_fifo_depth, buffers, stream_buffer_a_config}
use linux_ker_dev.Kyouko.Device.{
  Driver, Action, write_reg, iounmap, ok, stop, bad_access, waiting, copy_to_user, sync, logged,
}
use linux_ker_dev.Kyouko.Sync.{after_zero, with_depths, SyncResult, sync_lem}
use linux_ker_dev.Kyouko.Ring.{
  initiate_transfer, dma_interrupt, irq_handled, returned, may_wake, resume_transfer,
}
use linux_ker_dev.Kyouko.Ring.Spec.{IsRing, starts}
use linux_ker_dev.Kyouko.Ring.Contract.{
  Follows, initiate_transfer_appends, dma_interrupt_takes_head,
}
use linux_ker_dev.Kyouko.Ring.System.{System, submit, Reach, here, next, Holds, IsStalled}
use linux_ker_dev.Kyouko.Ring.System.Order.{no_request_lost}
use linux_ker_dev.Kyouko.Ring.System.Halt.{sleeper_may_stall}
use linux_ker_dev.Kyouko.Ring.Races.{interrupted_sleep, two_sleepers}
use linux_ker_dev.Kyouko.Ioctl.{Grants, ioctl, bind, start, done, vmode}
use linux_ker_dev.Kyouko.Ioctl.Results.{ioctl-bind, ioctl-start}
use linux_ker_dev.Kyouko.Ioctl.Graphics.{frame_writes, color_writes, ioctl-graphics_on}
use linux_ker_dev.Kyouko.Files.{kyouko2_release, kyouko2_release_faults}

abbrev started : List ℕ → List Action
started [] = []
started (x ∷ q) = write_reg stream_buffer_a_config x ∷ []

-- A driver whose ring holds the queue from the slot 0 on.
abbrev holding : List ℕ → Driver
holding q = record {
  p_control_base = 0xF0000000;
  p_card_ram_base = 0xF8000000;
  k_control_base = 0x1000000;
  k_card_ram_base = 0x2000000;
  dma_buffer =
      λ i. record { buffer = 0; count = get_or q i 0; is_full = if ltb i (length q) then 1 else 0 };
  user_virt_addr = λ i. 0x400000 + i * 0x1F000;
  dma_handle = λ i. 0x800000 + i * 0x1F000;
  fill = length q % 8;
  drain = 0;
  size = 0;
  control_mapped = true;
  answers = λ reg. if reg == info_status then 2 ∷ [] else 3 ∷ 0 ∷ [];
  log = started q;
}

place : (i : ℕ) → i < 8 → (0 + i) % 8 ≡ i
place i h = omega arith

holding-IsRing : (q : List ℕ) → length q ≤ 8 → IsRing (holding q) q
holding-IsRing q h = record {
  bounded = h;
  drain_lt = omega arith;
  fill_eq = omega arith;
  used = λ i l. rw (place i (omega arith)) (ground arith);
  counts = λ i l. rw (place i (omega arith)) refl;
  free = λ i l k. rw (place i k) (ground arith);
}

abbrev one : List ℕ
one = 400 ∷ []

abbrev seven : List ℕ
seven = 400 ∷ 401 ∷ 402 ∷ 403 ∷ 404 ∷ 405 ∷ 406 ∷ []

abbrev eight : List ℕ
eight = 400 ∷ 401 ∷ 402 ∷ 403 ∷ 404 ∷ 405 ∷ 406 ∷ 407 ∷ []

abbrev nine : ℕ
nine = 9

abbrev elsewhere : ℕ
elsewhere = 0x9000

nonzero : nine ≢ 0
nonzero = λ e. absurd (omega arith)

initiate_transfer_appends_example :
    (e : Driver) × (initiate_transfer 9 (holding one) ≡ ok returned e)
    × Follows (holding one) e (400 ∷ 9 ∷ []) []
initiate_transfer_appends_example =
    initiate_transfer_appends (holding one) one 9 refl (holding-IsRing one (omega arith)) nonzero
      (omega arith)

dma_interrupt_takes_head_example :
    (e : Driver) × (dma_interrupt (holding seven) ≡ ok irq_handled e)
    × Follows (holding seven) e (401 ∷ 402 ∷ 403 ∷ 404 ∷ 405 ∷ 406 ∷ []) (401 ∷ [])
dma_interrupt_takes_head_example =
    dma_interrupt_takes_head (holding seven) 2 [] refl refl 400
      (401 ∷ 402 ∷ 403 ∷ 404 ∷ 405 ∷ 406 ∷ []) [] refl (holding-IsRing seven (omega arith)) refl

abbrev idle : System
idle = record { driver = holding []; submitted = []; ended = 0; sleeper = none }

idle-Holds : Holds idle []
idle-Holds = record {
  ring = holding-IsRing [] (omega arith);
  mapped = refl;
  in_order = refl;
  balance = refl;
}

abbrev busy_driver : Driver
busy_driver =
    (initiate_transfer_appends (holding []) [] 9 refl (holding-IsRing [] (omega arith)) nonzero
      (omega arith)).0

abbrev busy : System
busy = record idle { driver = busy_driver; submitted = 9 ∷ [] }

to_busy : Reach idle busy
to_busy = next here (
    submit 9 busy_driver refl nonzero
      (initiate_transfer_appends (holding []) [] 9 refl (holding-IsRing [] (omega arith)) nonzero
        (omega arith)).1
      refl)

no_request_lost_example :
    (rest : List ℕ) × (starts busy_driver.log ++ rest ≡ 9 ∷ []) × (length rest ≤ 8)
no_request_lost_example = no_request_lost to_busy idle-Holds

abbrev crowded : System
crowded = record { driver = holding eight; submitted = eight; ended = 0; sleeper = some 9 }

crowded-Holds : Holds crowded eight
crowded-Holds = record {
  ring = holding-IsRing eight (omega arith);
  mapped = refl;
  in_order = refl;
  balance = refl;
}

sleeper_may_stall_example :
    (t : System) × Reach crowded t
    × IsStalled t (9 ∷ [])
    × ((u : System) → Reach t u → length (starts u.driver.log) ≡ length (starts t.driver.log))
sleeper_may_stall_example = sleeper_may_stall crowded eight 9 crowded-Holds refl

interrupted_sleep_example :
    (e : Driver) × (resume_transfer 9 (holding eight) ≡ ok tt e)
    × ((e.dma_buffer e.drain).count ≡ 9)
    × ((p : List ℕ) → ¬ IsRing e p)
interrupted_sleep_example =
    interrupted_sleep (holding eight) eight 9 (holding-IsRing eight (omega arith)) refl

two_sleepers_example :
    (e f : Driver) × (may_wake (holding seven) ≡ true)
    × (resume_transfer 9 (holding seven) ≡ ok tt e)
    × (resume_transfer 10 e ≡ ok tt f)
    × ((p : List ℕ) → ¬ IsRing f p)
two_sleepers_example =
    two_sleepers (holding seven) seven 9 10 (holding-IsRing seven (omega arith)) refl

sync_lem_example : SyncResult (holding one) (some []) (sync (holding one))
sync_lem_example = sync_lem (holding one) refl

abbrev grants : Grants
grants = record {
  consistent = λ i. 0x10000 + i;
  handle = λ i. 0x20000 + i;
  mapped_at = λ i at. 0x30000 + at;
}

ioctl-bind_example :
    (e : Driver) × (ioctl (bind grants 77) (holding eight) ≡ ok (done 0) e)
    × IsRing e []
    × ((i : ℕ)
        → i < buffers
        → (e.dma_handle i ≡ 0x20000 + i) × (e.user_virt_addr i ≡ 0x30000 + (i + 1) * 0x1000))
ioctl-bind_example = ioctl-bind grants 77 (holding eight) refl

ioctl-start_example :
    (e : Driver) × (ioctl (start 9 77) (holding seven) ≡ ok (done 0) e)
    × ((l : List Action) × (e.log ≡ l ++ copy_to_user 77 (e.user_virt_addr e.fill) ∷ []))
    × ((7 < 7) ↔ ((e.dma_buffer e.fill).is_full ≡ 0))
ioctl-start_example =
    ioctl-start (holding seven) seven 9 77 refl (holding-IsRing seven (omega arith)) nonzero
      (omega arith)

ioctl-graphics_on_example :
    ((vs : List ℕ)
      → after_zero ((holding one).answers info_fifo_depth) ≡ some vs
      → ioctl (vmode 1) (holding one)
        ≡ ok (done 0) (logged (with_depths (holding one) vs) (frame_writes ++ color_writes)))
    × (after_zero ((holding one).answers info_fifo_depth) ≡ none
        → ioctl (vmode 1) (holding one)
          ≡ stop waiting (logged (with_depths (holding one) []) frame_writes))
ioctl-graphics_on_example = ioctl-graphics_on 1 (holding one) refl refl

kyouko2_release_faults_example :
    (e : Driver) × (kyouko2_release (holding one) ≡ stop bad_access e)
    × (e.log
        ≡ write_reg stream_buffer_a_config 400
          ∷ write_reg 0x1000 1
          ∷ iounmap 0x1000000
          ∷ iounmap 0x2000000
          ∷ [])
kyouko2_release_faults_example = kyouko2_release_faults (holding one) refl
