-- ===== src/Kyouko/Ring/Contract.antt =====
-- What a caller may rely on: `initiateTransfer` appends to the queue and `dma_interrupt` takes its
-- head off, and each starts the card exactly when a new request comes to the head.
use linux_ker_dev.Prelude.{
  ℕ, ◌+◌, ◌%◌, ◌/◌, ◌<◌, ◌≡◌, ◌≢◌, refl, sym, ◌∙◌, ap, true, List, [], ◌∷◌, ◌++◌, some, dec_lt,
  length, update, arith, subst, eq→==,
}
use mathlib.Core.List.{append-nil}
use linux_ker_dev.Kyouko.Regs.{buffers, info_fifo_depth, info_status}
use linux_ker_dev.Kyouko.Device.{
  Driver, Action, ok, write_reg, u32, wake_up_interruptible, k_write_reg, k_read_reg,
}
use linux_ker_dev.Kyouko.Sync.{after_zero, with_depths}
use linux_ker_dev.Kyouko.Ring.{
  returned, asleep, initiate_transfer, retire_buffer, dma_interrupt, irq_none, irq_handled,
}
use linux_ker_dev.Kyouko.Ring.Spec.{IsRing, starts, starts-append, starts-streamed}
use linux_ker_dev.Kyouko.Ring.Queue.{
  stored, streamed, stored-IsRing, streamed-IsRing, fill-eq-drain, fill-ne-drain,
  initiate_transfer-behind, initiate_transfer-first, initiate_transfer-asleep,
}
use linux_ker_dev.Kyouko.Ring.Retire.{
  retired, restarted, retired-IsRing, first_used, first_count, retire_buffer-last,
  retire_buffer-full, retire_buffer-next,
}

-- The driver `e` holds the queue `q` with the register window still mapped, and since `d` the card
-- was given the requests `new`.
pub record Follows (d e : Driver) (q new : List ℕ) : Type 0 where
  pub ring : IsRing e q
  pub mapped : e.control_mapped ≡ true
  pub started : starts e.log ≡ starts d.log ++ new

-- The request at the head of a queue.
abbrev pub head_of : List ℕ → List ℕ
head_of [] = []
head_of (x ∷ q) = x ∷ []

-- What the card is given at once when `n` joins the queue.
abbrev pub at_once : List ℕ → ℕ → List ℕ
at_once [] n = n ∷ []
at_once (x ∷ q) n = []

no_new : (d : Driver) → starts d.log ≡ starts d.log ++ []
no_new d = sym (append-nil _)

-- The first free slot of an empty ring.
pub empty_first : (d : Driver) → IsRing d [] → (d.dma_buffer d.fill).is_full ≡ 0
empty_first d r =
    let at_zero : (d.drain + 0) % 8 ≡ d.fill = sym r.fill_eq in
    subst (λ k. (d.dma_buffer k).is_full ≡ 0) at_zero (r.free 0 (omega arith) (omega arith))

-- If the registers are mapped and the ring has room, `initiateTransfer` of a count that is not 0
-- returns with the request appended to the queue, and gives it to the card at once exactly if the
-- queue was empty.
pub initiate_transfer_appends :
    (d : Driver) (q : List ℕ) (n : ℕ)
    → d.control_mapped ≡ true
    → IsRing d q
    → n ≢ 0
    → length q < buffers
    → (e : Driver) × (initiate_transfer n d ≡ ok returned e)
      × Follows d e (q ++ n ∷ []) (at_once q n)
initiate_transfer_appends d [] n m r h k =
    let at : d.fill ≡ d.drain = fill-eq-drain d [] r (omega arith) in
    (
      streamed (stored d n) d.fill n,
      initiate_transfer-first d n h m at (empty_first d r),
      record {
        ring = streamed-IsRing (stored d n) (n ∷ []) d.fill n (stored-IsRing d [] n r k);
        mapped = m;
        started = starts-streamed d.log _ n;
      },
    )
initiate_transfer_appends d (x ∷ q) n m r h k = (
  stored d n,
  initiate_transfer-behind d n h (fill-ne-drain d (x ∷ q) r (omega arith) k),
  record { ring = stored-IsRing d (x ∷ q) n r k; mapped = m; started = no_new d },
)

-- On a ring that holds eight requests, `initiateTransfer` of a count that is not 0 goes to sleep
-- and changes nothing.
pub initiate_transfer_full :
    (d : Driver) (q : List ℕ) (n : ℕ)
    → IsRing d q
    → n ≢ 0
    → length q ≡ buffers
    → initiate_transfer n d ≡ ok asleep d
initiate_transfer_full d [] n r h k = absurd (omega arith)
initiate_transfer_full d (x ∷ q) n r h k =
    let at : d.fill ≡ d.drain = fill-eq-drain d (x ∷ q) r (omega arith) in
    initiate_transfer-asleep d n h at
      (subst (λ i. (d.dma_buffer i).is_full ≡ 1) (sym at) (first_used d x q r))

second_count :
    (d : Driver) (x y : ℕ) (q : List ℕ)
    → IsRing d (x ∷ y ∷ q)
    → ((retired d).dma_buffer (retired d).drain).count ≡ y
second_count d x y q r = first_count (retired d) y q (retired-IsRing d x (y ∷ q) r)

logged-IsRing :
    (d : Driver) (q : List ℕ) (log : List Action) → IsRing d q → IsRing (record d { log = log }) q
logged-IsRing d q log r = record {
  bounded = r.bounded;
  drain_lt = r.drain_lt;
  fill_eq = r.fill_eq;
  used = r.used;
  counts = r.counts;
  free = r.free;
}

pub answered-IsRing :
    (d : Driver) (q : List ℕ) (f : ℕ → List ℕ) → IsRing d q → IsRing (record d { answers = f }) q
answered-IsRing d q f r = record {
  bounded = r.bounded;
  drain_lt = r.drain_lt;
  fill_eq = r.fill_eq;
  used = r.used;
  counts = r.counts;
  free = r.free;
}

abbrev woken : Driver → Driver
woken d = let e = restarted (retired d) in record e { log = e.log ++ wake_up_interruptible ∷ [] }

woken-starts :
    (d : Driver)
    → starts (woken d).log ≡ starts d.log ++ ((retired d).dma_buffer (retired d).drain).count ∷ []
woken-starts d =
    starts-append (restarted (retired d)).log (wake_up_interruptible ∷ [])
    ∙ append-nil (starts (restarted (retired d)).log)
    ∙ starts-streamed d.log (u32 (d.dma_handle (retired d).drain))
        ((retired d).dma_buffer (retired d).drain).count

-- If the registers are mapped, the ring holds a queue that is not empty and the depth of the
-- card's own queue will be read as 0, then the body of the interrupt handler returns with the head
-- of the queue taken off, and gives the card the next request, if there is one, and no other.
pub retire_buffer_takes_head :
    (d : Driver) (x : ℕ) (q vs : List ℕ)
    → d.control_mapped ≡ true
    → IsRing d (x ∷ q)
    → after_zero (d.answers info_fifo_depth) ≡ some vs
    → (e : Driver) × (retire_buffer d ≡ ok tt e) × Follows d e q (head_of q)
retire_buffer_takes_head d x [] vs m r a = (
  retired d,
  retire_buffer-last d x [] m r refl,
  record { ring = retired-IsRing d x [] r; mapped = m; started = no_new d },
)
retire_buffer_takes_head d x (y ∷ q) vs m r a = elim (dec_lt (length q) 6) [
  | yes room ↦ (
    restarted (with_depths (retired d) vs),
    retire_buffer-next d x (y ∷ q) m r vs (omega arith) (omega arith) a,
    record {
      ring =
          streamed-IsRing _ (y ∷ q) _ _
            (answered-IsRing (retired d) (y ∷ q) _ (retired-IsRing d x (y ∷ q) r));
      mapped = m;
      started =
          starts-streamed d.log _ _ ∙ ap (λ n. starts d.log ++ n ∷ []) (second_count d x y q r);
    },
  )
  | no full ↦ (
    woken d,
    retire_buffer-full d x (y ∷ q) m r (omega (arith, r.bounded)),
    record {
      ring = logged-IsRing (restarted (retired d)) (y ∷ q) (woken d).log (
          streamed-IsRing (retired d) (y ∷ q) (retired d).drain
            ((retired d).dma_buffer (retired d).drain).count (retired-IsRing d x (y ∷ q) r));
      mapped = m;
      started = woken-starts d ∙ ap (λ n. starts d.log ++ n ∷ []) (second_count d x y q r);
    },
  )
]

-- An interrupt with no transfer to end leaves the ring as it is.
pub retire_buffer_idle : (d : Driver) → IsRing d [] → retire_buffer d ≡ ok tt d
unfolding retire_buffer
retire_buffer_idle d r =
    let first : (d.dma_buffer d.fill).is_full ≡ 0 = empty_first d r in
    rw (eq→== (fill-eq-drain d [] r (omega arith)), first) refl

-- The driver after the handler has read the status and acknowledged it.
abbrev pub acked : Driver → List ℕ → Driver
acked d rest = record d {
  answers = update d.answers info_status rest;
  log = d.log ++ write_reg info_status 0xFFFFFFFF ∷ [];
}

acked-IsRing : (d : Driver) (q rest : List ℕ) → IsRing d q → IsRing (acked d rest) q
acked-IsRing d q rest r =
    logged-IsRing (record d { answers = update d.answers info_status rest }) q (acked d rest).log
      (answered-IsRing d q (update d.answers info_status rest) r)

acked-starts : (d : Driver) (rest : List ℕ) → starts (acked d rest).log ≡ starts d.log
acked-starts d rest = starts-append d.log _ ∙ append-nil (starts d.log)

module _ (d : Driver) (flags : ℕ) (rest : List ℕ) (m : d.control_mapped ≡ true)
    (a : d.answers info_status ≡ flags ∷ rest) where
  status_read :
      k_read_reg info_status d ≡ ok flags (record d { answers = update d.answers info_status rest })
  unfolding k_read_reg
  status_read = rw (m, a) refl

  status_acked :
      k_write_reg info_status 0xFFFFFFFF (record d { answers = update d.answers info_status rest })
      ≡ ok tt (acked d rest)
  unfolding k_write_reg
  status_acked = rw m refl

  interrupt_ours :
      (e : Driver)
      → flags / 2 % 2 ≡ 1
      → retire_buffer (acked d rest) ≡ ok tt e
      → dma_interrupt d ≡ ok irq_handled e
  unfolding dma_interrupt
  interrupt_ours e f h = ground (arith, status_read, status_acked)

  -- If the registers are mapped and the status that is read has no bit of a flushed buffer, the
  -- handler refuses the interrupt; it has acknowledged the status and changed nothing else.
  pub dma_interrupt_not_ours : flags / 2 % 2 ≡ 0 → dma_interrupt d ≡ ok irq_none (acked d rest)
  unfolding dma_interrupt
  dma_interrupt_not_ours f = ground (arith, status_read, status_acked)

  -- If the registers are mapped, the status that is read has the bit of a flushed buffer, the ring
  -- holds a queue that is not empty, and the depth of the card's own queue will be read as 0, then
  -- the handler handles the interrupt, leaves the ring with the head of the queue taken off, and
  -- gives the card the next request, if there is one, and no other.
  pub dma_interrupt_takes_head :
      (x : ℕ) (q vs : List ℕ)
      → flags / 2 % 2 ≡ 1
      → IsRing d (x ∷ q)
      → after_zero (d.answers info_fifo_depth) ≡ some vs
      → (e : Driver) × (dma_interrupt d ≡ ok irq_handled e) × Follows d e q (head_of q)
  dma_interrupt_takes_head x q vs f r z =
      let (e, runs, next) =
        retire_buffer_takes_head (acked d rest) x q vs m (acked-IsRing d (x ∷ q) rest r) z in
      (
        e,
        interrupt_ours e f runs,
        record {
          ring = next.ring;
          mapped = next.mapped;
          started = next.started ∙ ap (λ l. l ++ head_of q) (acked-starts d rest);
        },
      )
