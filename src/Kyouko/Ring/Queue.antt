-- ===== src/Kyouko/Ring/Queue.antt =====
-- The operations of dmaBuffer.c on its ring, as operations on the queue that the ring holds.
use linux_ker_dev.Prelude.{
  ℕ, ◌+◌, ◌%◌, ◌<◌, ◌≡◌, ◌≢◌, ap, true, false, List, [], ◌∷◌, ◌++◌, length, update, length-append,
  get_or-append_left, get_or-append_last, ◌==◌, arith, ◌⊎◌, fun_ext, eq→==, ne→==,
}
use native.Mathlib.Decide.{dec_lt}
use linux_ker_dev.Kyouko.Regs.{buffers, stream_buffer_a_address, stream_buffer_a_config}
use linux_ker_dev.Kyouko.Device.{Driver, ok, u32, write_reg, k_write_reg}
use linux_ker_dev.Kyouko.Ring.{returned, asleep, initiate_transfer, resume_transfer}
use linux_ker_dev.Kyouko.Ring.Spec.{IsRing}

-- Two places of a ring of eight that are less than eight apart are different slots.
slots_differ : (a i n : ℕ) → i < n → n < 8 → (a + i) % 8 ≢ (a + n) % 8
slots_differ a i n h k = omega arith

-- The driver after a request has been stored at `fill`.
abbrev pub stored : Driver → ℕ → Driver
stored d n = record d {
  dma_buffer = update d.dma_buffer d.fill (record (d.dma_buffer d.fill) { is_full = 1; count = n });
  fill = (d.fill + 1) % buffers;
}

pub stored-IsRing :
    (d : Driver) (q : List ℕ) (n : ℕ)
    → IsRing d q
    → length q < buffers
    → IsRing (stored d n) (q ++ n ∷ [])
stored-IsRing d q n r h = record {
  bounded = omega (arith, length-append q (n ∷ []));
  drain_lt = r.drain_lt;
  fill_eq = omega (arith, length-append q (n ∷ []), r.fill_eq);
  used = λ i p.
      ground
        (arith, length-append q (n ∷ []), r.fill_eq, r.used i, slots_differ d.drain i (length q));
  counts = λ i p. elim (dec_lt i (length q)) [
    | yes old ↦ ground (
      arith,
      r.fill_eq,
      r.counts i old,
      slots_differ d.drain i (length q) old h,
      get_or-append_left q (n ∷ []) i 0 old,
    )
    | no new ↦
        let e : i ≡ length q = omega (arith, length-append q (n ∷ [])) in
        rw e (ground (arith, r.fill_eq, get_or-append_last q n 0))
  ];
  free = λ i p k.
      ground
        (arith, length-append q (n ∷ []), r.fill_eq, r.free i, slots_differ d.drain (length q) i);
}

-- The two stores into one slot, in either order, are one.
full_then_count :
    (d : Driver) (n : ℕ)
    → update
        (update d.dma_buffer d.fill (record (d.dma_buffer d.fill) { is_full = 1 }))
        d.fill
        (record (update d.dma_buffer d.fill (record (d.dma_buffer d.fill) { is_full = 1 }) d.fill) {
          count = n;
        })
      ≡ (stored d n).dma_buffer
full_then_count d n = fun_ext λ j. ground arith

count_then_full :
    (d : Driver) (n : ℕ)
    → update
        (update d.dma_buffer d.fill (record (d.dma_buffer d.fill) { count = n }))
        d.fill
        (record (update d.dma_buffer d.fill (record (d.dma_buffer d.fill) { count = n }) d.fill) {
          is_full = 1;
        })
      ≡ (stored d n).dma_buffer
count_then_full d n = fun_ext λ j. ground arith

-- The driver after the register writes that start the request `n` in the slot `i`.
abbrev pub streamed : Driver → ℕ → ℕ → Driver
streamed d i n = record d {
  log =
      (d.log ++ write_reg stream_buffer_a_address (u32 (d.dma_handle i)) ∷ [])
      ++ write_reg stream_buffer_a_config n ∷ [];
}

pub resume_transfer-stored : (d : Driver) (n : ℕ) → resume_transfer n d ≡ ok tt (stored d n)
unfolding resume_transfer
resume_transfer-stored d n =
    ap (λ f. ok tt (record d { dma_buffer = f; fill = (d.fill + 1) % buffers }))
      (full_then_count d n)

empty_test : {v : ℕ} → v ≡ 0 → (v == 1) ≡ false
empty_test h = ground arith

module _ (d : Driver) (n : ℕ) (nonzero : n ≢ 0) where
  pub initiate_transfer-behind : d.fill ≢ d.drain → initiate_transfer n d ≡ ok returned (stored d n)
  unfolding initiate_transfer
  initiate_transfer-behind e =
      rw (ne→== nonzero, ne→== e)
        (ap (λ f. ok returned (record d { dma_buffer = f; fill = (d.fill + 1) % buffers }))
          (count_then_full d n))

  pub initiate_transfer-first :
      d.control_mapped ≡ true
      → d.fill ≡ d.drain
      → (d.dma_buffer d.fill).is_full ≡ 0
      → initiate_transfer n d ≡ ok returned (streamed (stored d n) d.fill n)
  unfolding initiate_transfer k_write_reg
  initiate_transfer-first m e f =
      rw (ne→== nonzero, eq→== e, empty_test f, m)
        (ap
          (λ g. ok returned (record (streamed d d.fill n) {
            dma_buffer = g;
            fill = (d.fill + 1) % buffers;
            control_mapped = true;
          }))
          (full_then_count d n))

  pub initiate_transfer-asleep :
      d.fill ≡ d.drain → (d.dma_buffer d.fill).is_full ≡ 1 → initiate_transfer n d ≡ ok asleep d
  unfolding initiate_transfer
  initiate_transfer-asleep e f = ground arith

-- What the queue says of the two indices.
pub fill-eq-drain :
    (d : Driver) (q : List ℕ)
    → IsRing d q
    → (length q ≡ 0) ⊎ (length q ≡ buffers)
    → d.fill ≡ d.drain
fill-eq-drain d q r h = ground (arith, r.fill_eq, r.drain_lt)

pub fill-ne-drain :
    (d : Driver) (q : List ℕ) → IsRing d q → length q ≢ 0 → length q < buffers → d.fill ≢ d.drain
fill-ne-drain d q r h k = omega (arith, r.fill_eq, r.drain_lt)

pub streamed-IsRing : (d : Driver) (q : List ℕ) (i n : ℕ) → IsRing d q → IsRing (streamed d i n) q
streamed-IsRing d q i n r = record {
  bounded = r.bounded;
  drain_lt = r.drain_lt;
  fill_eq = r.fill_eq;
  used = r.used;
  counts = r.counts;
  free = r.free;
}
