-- ===== src/Kyouko/Ring/Retire.antt =====
-- The end of a transfer (dmaBuffer.c, `dma_interrupt`), as an operation on the queue.
use linux_ker_dev.Prelude.{
  ℕ, suc, ◌+◌, ◌%◌, ◌<◌, ◌≡◌, ◌≢◌, refl, true, List, [], ◌∷◌, length, update, arith, some, subst,
}
use linux_ker_dev.Kyouko.Regs.{buffers, info_fifo_depth}
use linux_ker_dev.Kyouko.Device.{Driver, ok, emit, wake_up_interruptible, k_write_reg, sync}
use linux_ker_dev.Kyouko.Sync.{after_zero, with_depths, sync_lem, SyncResult}
use linux_ker_dev.Kyouko.Ring.{retire_buffer, stream_drain}
use linux_ker_dev.Kyouko.Ring.Spec.{IsRing}
use linux_ker_dev.Kyouko.Ring.Queue.{streamed, fill-eq-drain, fill-ne-drain}

-- The driver after the oldest request has been taken off.
abbrev pub retired : Driver → Driver
retired d = record d {
  dma_buffer = update d.dma_buffer d.drain (record (d.dma_buffer d.drain) { is_full = 0 });
  drain = (d.drain + 1) % buffers;
}

other_slot : (a i : ℕ) → 0 < i → i < 8 → a < 8 → (a + i) % 8 ≢ a
other_slot a i h k l = omega arith

next_slot : (a i : ℕ) → ((a + 1) % 8 + i) % 8 ≡ (a + suc i) % 8
next_slot a i = omega arith

last_slot : (a i : ℕ) → a < 8 → i ≡ 7 → (a + suc i) % 8 ≡ a
last_slot a i h e = omega arith

pub retired-IsRing : (d : Driver) (x : ℕ) (q : List ℕ) → IsRing d (x ∷ q) → IsRing (retired d) q
retired-IsRing d x q r = record {
  bounded = omega (arith, r.bounded);
  drain_lt = omega arith;
  fill_eq = omega (arith, r.fill_eq);
  used = λ i p.
      rw (next_slot d.drain i)
        (ground (arith, r.used (suc i), r.bounded, r.drain_lt, other_slot d.drain (suc i)));
  counts = λ i p.
      rw (next_slot d.drain i)
        (ground (arith, r.counts (suc i), r.bounded, r.drain_lt, other_slot d.drain (suc i)));
  free = λ i p k.
      rw (next_slot d.drain i)
        (ground (arith, r.free (suc i), r.bounded, r.drain_lt, last_slot d.drain i));
}

stream_drain-streamed :
    (d : Driver)
    → d.control_mapped ≡ true
    → stream_drain d ≡ ok tt (streamed d d.drain (d.dma_buffer d.drain).count)
unfolding stream_drain k_write_reg
stream_drain-streamed d m = rw m refl

slot_zero : (a : ℕ) → a < 8 → (a + 0) % 8 ≡ a
slot_zero a h = omega arith

pub first_used :
    (d : Driver) (x : ℕ) (q : List ℕ) → IsRing d (x ∷ q) → (d.dma_buffer d.drain).is_full ≡ 1
first_used d x q r =
    subst (λ k. (d.dma_buffer k).is_full ≡ 1) (slot_zero d.drain r.drain_lt)
      (r.used 0 (omega arith))

pub first_count :
    (d : Driver) (x : ℕ) (q : List ℕ) → IsRing d (x ∷ q) → (d.dma_buffer d.drain).count ≡ x
first_count d x q r =
    subst (λ k. (d.dma_buffer k).count ≡ x) (slot_zero d.drain r.drain_lt)
      (r.counts 0 (omega arith))

-- The driver after the next request has gone to the card.
abbrev pub restarted : Driver → Driver
restarted d = streamed d d.drain (d.dma_buffer d.drain).count

module _ (d : Driver) (x : ℕ) (q : List ℕ) (m : d.control_mapped ≡ true)
    (r : IsRing d (x ∷ q)) where
  pub retire_buffer-last : q ≡ [] → retire_buffer d ≡ ok tt (retired d)
  unfolding retire_buffer
  retire_buffer-last e = ground (arith, r.fill_eq, r.drain_lt)

  pub retire_buffer-full :
      length q ≡ 7 → retire_buffer d ≡ (do emit wake_up_interruptible) (restarted (retired d))
  unfolding retire_buffer
  retire_buffer-full e =
      ground
        (arith, fill-eq-drain d (x ∷ q) r, first_used d x q r, stream_drain-streamed (retired d) m)

  pub retire_buffer-next :
      (vs : List ℕ)
      → 0 < length q
      → length q < 7
      → after_zero (d.answers info_fifo_depth) ≡ some vs
      → retire_buffer d ≡ ok tt (restarted (with_depths (retired d) vs))
  unfolding retire_buffer
  retire_buffer-next vs h k e =
      let synced : sync (retired d) ≡ ok tt (with_depths (retired d) vs) =
        subst (λ o. SyncResult (retired d) o (sync (retired d))) e (sync_lem (retired d) m) in
      ground (
        arith,
        fill-ne-drain d (x ∷ q) r,
        r.fill_eq,
        r.drain_lt,
        synced,
        stream_drain-streamed (with_depths (retired d) vs) m,
      )
