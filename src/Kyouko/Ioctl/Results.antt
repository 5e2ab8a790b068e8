-- ===== src/Kyouko/Ioctl/Results.antt =====
-- What the commands of the driver's `ioctl` leave behind (dmaBuffer.c, `kyouko2_ioctl`).
use linux_ker_dev.Prelude.{
  ℕ, zero, suc, ℕ_discrete, ◌+◌, ◌*◌, ◌%◌, ◌≤◌, ◌<◌, ◌≡◌, ◌≢◌, refl, ◌∙◌, subst, true, List, [],
  ◌∷◌, ◌++◌, length, length-append, arith, inl, inr, ◌↔◌,
}
use linux_ker_dev.Kyouko.Regs.{buffers, info_status, config_interrupt}
use linux_ker_dev.Kyouko.Device.{
  Driver, Action, ok, write_reg, copy_to_user, k_write_reg, pci_enable_msi, request_irq,
}
use linux_ker_dev.Kyouko.Ring.{returned, initiate_transfer}
use linux_ker_dev.Kyouko.Ring.Spec.{IsRing}
use linux_ker_dev.Kyouko.Ring.System.Steps.{room-or-full}
use linux_ker_dev.Kyouko.Ring.Contract.{initiate_transfer_appends, initiate_transfer_full}
use linux_ker_dev.Kyouko.Ioctl.{
  Grants, bind_buffer, bind_buffers, bind, ioctl, done, sleeping, start, report_next,
}

-- What the loop of `BIND_DMA` leaves at an index that it has passed, and at one before it.
module _ (g : Grants) where
  bind_buffers-before :
      (n i j : ℕ) (d : Driver)
      → j < i
      → ((bind_buffers g n i d).dma_buffer j ≡ d.dma_buffer j)
        × ((bind_buffers g n i d).dma_handle j ≡ d.dma_handle j)
        × ((bind_buffers g n i d).user_virt_addr j ≡ d.user_virt_addr j)
  unfolding bind_buffers
  bind_buffers-before zero i j d h = (refl, refl, refl)
  bind_buffers-before (suc n) i j d h =
      let (a, b, c) = bind_buffers-before n (i + 1) j (bind_buffer g i d) (omega arith) in
      ground arith

  bind_buffers-inside :
      (n i j : ℕ) (d : Driver)
      → i ≤ j
      → j < i + n
      → (((bind_buffers g n i d).dma_buffer j).is_full ≡ 0)
        × ((bind_buffers g n i d).dma_handle j ≡ g.handle j)
        × ((bind_buffers g n i d).user_virt_addr j ≡ g.mapped_at j ((j + 1) * 0x1000))
  unfolding bind_buffers
  bind_buffers-inside zero i j d h k = absurd (omega arith)
  bind_buffers-inside (suc n) i j d h k = elim (ℕ_discrete i j) [
    | yes at ↦
        let (a, b, c) = bind_buffers-before n (i + 1) j (bind_buffer g i d) (omega arith) in
        ground arith
    | no past ↦ bind_buffers-inside n (i + 1) j (bind_buffer g i d) (omega arith) (omega arith)
  ]

  bind_buffers-mapped :
      (n i : ℕ) (d : Driver) → (bind_buffers g n i d).control_mapped ≡ d.control_mapped
  unfolding bind_buffers
  bind_buffers-mapped zero i d = refl
  bind_buffers-mapped (suc n) i d = bind_buffers-mapped n (i + 1) (bind_buffer g i d)

-- The driver after `BIND_DMA`.
abbrev bound : Grants → ℕ → Driver → Driver
bound g arg d =
    let b = bind_buffers g buffers 0 d in
    record b {
      fill = 0;
      drain = 0;
      log =
          ((((b.log ++ copy_to_user arg (b.user_virt_addr 0) ∷ []) ++ pci_enable_msi ∷ [])
              ++ request_irq ∷ [])
            ++ write_reg info_status 0xFFFFFFFF ∷ [])
          ++ write_reg config_interrupt 0x2 ∷ [];
    }

ioctl-bound :
    (g : Grants) (arg : ℕ) (d : Driver)
    → (bind_buffers g buffers 0 d).control_mapped ≡ true
    → ioctl (bind g arg) d ≡ ok (done 0) (bound g arg d)
unfolding ioctl k_write_reg bind_buffers
ioctl-bound g arg d m = rw m refl

bound-IsRing : (g : Grants) (arg : ℕ) (d : Driver) → IsRing (bound g arg d) []
bound-IsRing g arg d = record {
  bounded = omega arith;
  drain_lt = omega arith;
  fill_eq = refl;
  used = λ i h. absurd (omega arith);
  counts = λ i h. absurd (omega arith);
  free = λ i h k. (bind_buffers-inside g 8 0 ((0 + i) % 8) d (omega arith) (omega arith)).0;
}

-- If the registers are mapped, `BIND_DMA` returns 0 with an empty ring, and each of the eight
-- buffers has the handle and the address that the kernel gave for it.
pub ioctl-bind :
    (g : Grants) (arg : ℕ) (d : Driver)
    → d.control_mapped ≡ true
    → (e : Driver) × (ioctl (bind g arg) d ≡ ok (done 0) e)
      × IsRing e []
      × ((i : ℕ)
          → i < buffers
          → (e.dma_handle i ≡ g.handle i) × (e.user_virt_addr i ≡ g.mapped_at i ((i + 1) * 0x1000)))
ioctl-bind g arg d m = (
  bound g arg d,
  ioctl-bound g arg d (bind_buffers-mapped g 8 0 d ∙ m),
  bound-IsRing g arg d,
  λ i h. let (a, b, c) = bind_buffers-inside g 8 0 i d (omega arith) (omega arith) in (b, c),
)

-- What `START_DMA` does once the request is on the ring.
reported : Driver → ℕ → Driver
reported e arg = record e { log = e.log ++ copy_to_user arg (e.user_virt_addr e.fill) ∷ [] }

start_ok :
    (d e : Driver) (n arg : ℕ)
    → initiate_transfer n (record d { size = n }) ≡ ok returned e
    → ioctl (start n arg) d ≡ ok (done 0) (reported e arg)
unfolding ioctl report_next reported
start_ok d e n arg run = ground arith

sized-IsRing : (d : Driver) (q : List ℕ) (n : ℕ) → IsRing d q → IsRing (record d { size = n }) q
sized-IsRing d q n r = record {
  bounded = r.bounded;
  drain_lt = r.drain_lt;
  fill_eq = r.fill_eq;
  used = r.used;
  counts = r.counts;
  free = r.free;
}

next_slot_full :
    (e : Driver) (p : List ℕ)
    → IsRing e p
    → (length p < buffers) ↔ ((e.dma_buffer e.fill).is_full ≡ 0)
next_slot_full e p r = (
  λ room. rw r.fill_eq (r.free (length p) (omega arith) room),
  λ empty. elim (room-or-full e p r) [
    | inl room ↦ room
    | inr full ↦
        let at : (e.drain + 0) % 8 ≡ e.fill = omega (arith, r.fill_eq, r.drain_lt) in
        let busy : (e.dma_buffer e.fill).is_full ≡ 1 =
          subst (λ k. (e.dma_buffer k).is_full ≡ 1) at (r.used 0 (omega arith)) in
        absurd (omega (arith, busy, empty))
  ],
)

-- If the registers are mapped and the ring has room, `START_DMA` with a size that is not 0 returns
-- 0 and last reports the address of the buffer at `fill`; that buffer is free exactly if fewer
-- than seven requests were on the ring before.
pub ioctl-start :
    (d : Driver) (q : List ℕ) (n arg : ℕ)
    → d.control_mapped ≡ true
    → IsRing d q
    → n ≢ 0
    → length q < buffers
    → (e : Driver) × (ioctl (start n arg) d ≡ ok (done 0) e)
      × ((l : List Action) × (e.log ≡ l ++ copy_to_user arg (e.user_virt_addr e.fill) ∷ []))
      × ((length q < 7) ↔ ((e.dma_buffer e.fill).is_full ≡ 0))
unfolding reported
ioctl-start d q n arg m r nz room =
    let (e, run, w) =
      initiate_transfer_appends (record d { size = n }) q n m (sized-IsRing d q n r) nz room in
    let free = next_slot_full e (q ++ n ∷ []) w.ring in
    (
      reported e arg,
      start_ok d e n arg run,
      (e.log, refl),
      (
        λ h. free.0 (omega (arith, length-append q (n ∷ []))),
        λ h. omega (arith, length-append q (n ∷ []), free.1 h),
      ),
    )

-- On a full ring `START_DMA` sleeps and reports nothing.
pub ioctl-start_full :
    (d : Driver) (q : List ℕ) (n arg : ℕ)
    → IsRing d q
    → n ≢ 0
    → length q ≡ buffers
    → ioctl (start n arg) d ≡ ok sleeping (record d { size = n })
unfolding ioctl
ioctl-start_full d q n arg r nz full =
    ground
      (arith, initiate_transfer_full (record d { size = n }) q n (sized-IsRing d q n r) nz full)
