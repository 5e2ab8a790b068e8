-- ===== src/Kyouko/Ring/Spec.antt =====
-- The abstract view of the ring of dmaBuffer.c: a queue of byte counts, the oldest of which is
-- being streamed.
use linux_ker_dev.Prelude.{
  ℕ, ◌+◌, ◌%◌, ◌≤◌, ◌<◌, ◌≡◌, refl, List, [], ◌∷◌, ◌++◌, length, get_or, ◌==◌, if◌then◌else◌,
}
use mathlib.Core.List.{append_assoc, append-nil}
use linux_ker_dev.Kyouko.Regs.{buffers, stream_buffer_a_address, stream_buffer_a_config}
use linux_ker_dev.Kyouko.Device.{DmaBuffer, Driver, Action, write_reg}

-- The slot of the ring that holds the request at the place `i` of the queue.
abbrev pub slot : Driver → ℕ → DmaBuffer
slot d i = d.dma_buffer ((d.drain + i) % buffers)

-- The driver holds the queue `q`, oldest request first.
pub record IsRing (d : Driver) (q : List ℕ) : Type 0 where
  pub bounded : length q ≤ buffers
  pub drain_lt : d.drain < buffers
  pub fill_eq : d.fill ≡ (d.drain + length q) % buffers
  pub used : (i : ℕ) → i < length q → (slot d i).is_full ≡ 1
  pub counts : (i : ℕ) → i < length q → (slot d i).count ≡ get_or q i 0
  pub free : (i : ℕ) → length q ≤ i → i < buffers → (slot d i).is_full ≡ 0

-- The byte counts that the card was given, in order: what was stored in its configuration
-- register of the stream buffer.
abbrev pub start_of : Action → List ℕ
start_of (write_reg reg value) = if reg == stream_buffer_a_config then value ∷ [] else []
start_of _ = []

abbrev pub starts : List Action → List ℕ
starts [] = []
starts (a ∷ log) = start_of a ++ starts log

pub starts-append : (log more : List Action) → starts (log ++ more) ≡ starts log ++ starts more
starts-append [] more = refl
starts-append (a ∷ log) more = rw (starts-append log more, append_assoc) refl

-- A start of the card: an address, then a count.
pub starts-streamed :
    (log : List Action) (a n : ℕ)
    → starts (
        (log ++ write_reg stream_buffer_a_address a ∷ [])
        ++ write_reg stream_buffer_a_config n ∷ [])
      ≡ starts log ++ n ∷ []
starts-streamed log a n = simp (starts-append, append-nil, append_assoc)
