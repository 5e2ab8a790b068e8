-- ===== src/Kyouko/Sync.antt =====
-- The wait for the card's command queue to run empty (dmaBuffer.c, `sync`).
use linux_ker_dev.Prelude.{
  ℕ, zero, suc, ◌<◌, ◌≡◌, refl, ◌∙◌, fun_ext, true, List, [], ◌∷◌, Option, none, some, length,
  update, ap, subst, arith,
}
use linux_ker_dev.Kyouko.Regs.{info_fifo_depth}
use linux_ker_dev.Kyouko.Device.{Driver, Outcome, ok, stop, waiting, k_read_reg, sync_rounds, sync}

-- What is left of the answers behind the first zero.
abbrev pub after_zero : List ℕ → Option (List ℕ)
after_zero [] = none
after_zero (zero ∷ vs) = some vs
after_zero (suc v ∷ vs) = after_zero vs

-- The driver with these answers left for the depth of the queue.
abbrev pub with_depths : Driver → List ℕ → Driver
with_depths d vs = record d { answers = update d.answers info_fifo_depth vs }

with_depths_twice :
    (d : Driver) (us vs : List ℕ) → with_depths (with_depths d us) vs ≡ with_depths d vs
with_depths_twice d us vs = ap (λ f. record d { answers = f }) (fun_ext λ reg. ground arith)

read-cons :
    (d : Driver) (v : ℕ) (vs : List ℕ)
    → d.control_mapped ≡ true
    → d.answers info_fifo_depth ≡ v ∷ vs
    → k_read_reg info_fifo_depth d ≡ ok v (with_depths d vs)
unfolding k_read_reg
read-cons d v vs m e = rw (m, e) refl

read-nil :
    (d : Driver)
    → d.control_mapped ≡ true
    → d.answers info_fifo_depth ≡ []
    → k_read_reg info_fifo_depth d ≡ stop waiting d
unfolding k_read_reg
read-nil d m e = rw (m, e) refl

-- How `sync` ends, by the answers that the card gives.
abbrev pub SyncResult : Driver → Option (List ℕ) → Outcome (Unit {0}) → Type 0
SyncResult d none r = r ≡ stop waiting (with_depths d [])
SyncResult d (some vs) r = r ≡ ok tt (with_depths d vs)

shift :
    (d : Driver) (us : List ℕ) (o : Option (List ℕ)) (r : Outcome (Unit {0}))
    → SyncResult (with_depths d us) o r
    → SyncResult d o r
shift d us none r h = h ∙ ap (stop waiting) (with_depths_twice d us [])
shift d us (some vs) r h = h ∙ ap (ok tt) (with_depths_twice d us vs)

sync_rounds-again :
    (n : ℕ) (d : Driver) (v : ℕ) (vs : List ℕ)
    → d.control_mapped ≡ true
    → d.answers info_fifo_depth ≡ suc v ∷ vs
    → sync_rounds n (with_depths d vs) ≡ sync_rounds (suc n) d
unfolding sync_rounds
sync_rounds-again n d v vs m e = ground (arith, read-cons d (suc v) vs m e)

-- A driver without answers left is the one with none left.
no_depths : (d : Driver) → d.answers info_fifo_depth ≡ [] → with_depths d [] ≡ d
no_depths d e = ap (λ f. record d { answers = f }) (fun_ext λ reg. ground (arith, e))

waits-nil :
    (n : ℕ) (d : Driver)
    → d.control_mapped ≡ true
    → d.answers info_fifo_depth ≡ []
    → sync_rounds (suc n) d ≡ stop waiting (with_depths d [])
unfolding sync_rounds
waits-nil n d m e = rw (no_depths d e) (ground (arith, read-nil d m e))

sync_rounds_lem :
    (n : ℕ) (us : List ℕ) (d : Driver)
    → length us < n
    → d.control_mapped ≡ true
    → d.answers info_fifo_depth ≡ us
    → SyncResult d (after_zero us) (sync_rounds n d)
unfolding sync_rounds
sync_rounds_lem zero us d h m e = absurd (omega arith)
sync_rounds_lem (suc n) [] d h m e = waits-nil n d m e
sync_rounds_lem (suc n) (zero ∷ vs) d h m e = ground (arith, read-cons d zero vs m e)
sync_rounds_lem (suc n) (suc v ∷ vs) d h m e =
    let again = sync_rounds_lem n vs (with_depths d vs) (omega arith) m refl in
    subst (SyncResult d (after_zero vs)) (sync_rounds-again n d v vs m e)
      (shift d vs (after_zero vs) (sync_rounds n (with_depths d vs)) again)

-- If the registers are mapped: once an answer for the depth of the card's queue is 0, `sync`
-- returns having taken the answers up to that one, with nothing else changed; if none is, it waits
-- on having taken them all, with nothing else changed.
pub sync_lem :
    (d : Driver)
    → d.control_mapped ≡ true
    → SyncResult d (after_zero (d.answers info_fifo_depth)) (sync d)
unfolding sync
sync_lem d m = sync_rounds_lem _ (d.answers info_fifo_depth) d (omega arith) m refl
