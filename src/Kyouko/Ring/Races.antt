-- ===== src/Kyouko/Ring/Races.antt =====
-- What happens when `initiateTransfer` of dmaBuffer.c goes on behind `wait_event_interruptible`
-- while the ring is full: the result of the wait is not looked at, and the condition is not tested
-- again under the lock.
use linux_ker_dev.Prelude.{
  ℕ, ◌+◌, ◌%◌, ◌≤◌, ◌<◌, ◌≡◌, true, List, [], ◌∷◌, ◌++◌, length, arith, length-append,
}
use linux_ker_dev.Kyouko.Regs.{buffers}
use linux_ker_dev.Kyouko.Device.{Driver, ok}
use linux_ker_dev.Kyouko.Ring.{resume_transfer, may_wake}
use linux_ker_dev.Kyouko.Ring.Spec.{slot, IsRing}
use linux_ker_dev.Kyouko.Ring.Queue.{stored, stored-IsRing, fill-eq-drain, resume_transfer-stored}
use linux_ker_dev.Kyouko.Ring.System.Steps.{may_wake_iff}

one_ahead : (a b n : ℕ) → a < 8 → b ≡ a → (b + 1) % 8 ≡ (a + n) % 8 → n ≤ 8 → n ≡ 1
one_ahead a b n h e k l = omega arith

-- A request stored on a full ring overwrites the one that is being streamed, and what is left is
-- no ring of any requests.
pub stored_on_full :
    (d : Driver) (q : List ℕ) (n : ℕ)
    → IsRing d q
    → length q ≡ buffers
    → ((stored d n).dma_buffer (stored d n).drain).count ≡ n
      × ((p : List ℕ) → ¬ IsRing (stored d n) p)
stored_on_full d q n r full =
    let at : d.fill ≡ d.drain = fill-eq-drain d q r (omega arith) in
    (
      ground arith,
      λ p s.
          let one : length p ≡ 1 =
            one_ahead d.drain d.fill (length p) r.drain_lt at s.fill_eq s.bounded in
          let gone : (slot (stored d n) 1).is_full ≡ 0 = s.free 1 (omega arith) (omega arith) in
          let there : (slot d 1).is_full ≡ 1 = r.used 1 (omega arith) in ground (arith, r.drain_lt),
    )

-- On a ring that holds eight requests, the end of `initiateTransfer` behind the sleep stores its
-- count over that of the request being streamed, and the result holds no queue.
pub interrupted_sleep :
    (d : Driver) (q : List ℕ) (n : ℕ)
    → IsRing d q
    → length q ≡ buffers
    → (e : Driver) × (resume_transfer n d ≡ ok tt e)
      × ((e.dma_buffer e.drain).count ≡ n)
      × ((p : List ℕ) → ¬ IsRing e p)
interrupted_sleep d q n r full =
    let (over, broken) = stored_on_full d q n r full in
    (stored d n, resume_transfer-stored d n, over, broken)

-- On a ring with room for one request the condition of the sleep is true; if two processes that
-- saw it both go on, the result holds no queue.
pub two_sleepers :
    (d : Driver) (q : List ℕ) (n m : ℕ)
    → IsRing d q
    → length q + 1 ≡ buffers
    → (e f : Driver) × (may_wake d ≡ true)
      × (resume_transfer n d ≡ ok tt e)
      × (resume_transfer m e ≡ ok tt f)
      × ((p : List ℕ) → ¬ IsRing f p)
two_sleepers d q n m r one =
    let (over, broken) =
      stored_on_full (stored d n) (q ++ n ∷ []) m (stored-IsRing d q n r (omega arith))
        (omega (arith, length-append q (n ∷ []))) in
    (
      stored d n,
      stored (stored d n) m,
      (may_wake_iff d q r).1 (omega arith),
      resume_transfer-stored d n,
      resume_transfer-stored (stored d n) m,
      broken,
    )
