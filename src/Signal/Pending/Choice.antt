-- ===== src/Signal/Pending/Choice.antt =====
-- Which signal `next_signal` of signal.c chooses.
use linux_ker_dev.Prelude.{
  ℕ, zero, suc, ◌+◌, ◌≤◌, ◌<◌, ◌≡◌, ◌≢◌, refl, sym, ap, subst, ◌∙◌, Bool, true, false, not, ◌&&◌,
  Option, none, some, ◌↔◌, inl, inr, Word, has_bit, test_mask, keep_mask, and_not_word,
  lowest_bit_from, arith, if◌then◌else◌, Bool-cases, Option-cases,
}
use linux_ker_dev.Signal.Numbers.{nsig, synchronous_mask}
use linux_ker_dev.Signal.Types.{Sigpending}
use linux_ker_dev.Signal.Pending.Shape.{test_mask-absent}
use linux_ker_dev.Signal.Pending.{
  lowest_bit, is_nonempty, first_signal, has_pending_signals, next_signal,
}

-- What a search for the lowest bit of `w` from `i` on says.
abbrev IsLowest : Word → ℕ → ℕ → Option ℕ → Type 0
IsLowest w i n none = (j : ℕ) → i ≤ j → j < i + n → w j ≡ false
IsLowest w i n (some b) =
    (i ≤ b) × (b < i + n) × (w b ≡ true) × ((j : ℕ) → i ≤ j → j < b → w j ≡ false)

IsLowest-later :
    (w : Word) (i n : ℕ) (o : Option ℕ)
    → w i ≡ false
    → IsLowest w (suc i) n o
    → IsLowest w i (suc n) o
IsLowest-later w i n none z h = λ j p q. ground (arith, h j)
IsLowest-later w i n (some b) z h = (omega arith, omega arith, h.2, λ j p q. ground (arith, h.3 j))

lowest_bit_from-IsLowest : (w : Word) (n i : ℕ) → IsLowest w i n (lowest_bit_from w i n)
unfolding lowest_bit_from
lowest_bit_from-IsLowest w zero i = λ j p q. absurd (omega arith)
lowest_bit_from-IsLowest w (suc n) i = elim (Bool-cases (w i)) [
  | inl on ↦ rw on (omega arith, omega arith, on, λ j p q. absurd (omega arith))
  | inr off ↦ rw off (
      IsLowest-later w i n (lowest_bit_from w (suc i) n) off (lowest_bit_from-IsLowest w n (suc i)))
]

-- The signal at the bit `b` is pending and not masked.
abbrev pub deliverable : Sigpending → Word → ℕ → Bool
deliverable s mask b = s.signal b && not (mask b)

abbrev pub is_synchronous : ℕ → Bool
is_synchronous = has_bit synchronous_mask

-- The right choice of a signal: none if none is deliverable, and else a deliverable one that is
-- synchronous if any is, and the lowest of its kind.
abbrev pub IsChoice : Sigpending → Word → ℕ → Type 0
IsChoice s mask zero = (c : ℕ) → c < nsig → deliverable s mask c ≡ false
IsChoice s mask (suc b) =
    (b < nsig)
    × (deliverable s mask b ≡ true)
    × ((c : ℕ)
        → c < nsig
        → deliverable s mask c ≡ true
        → (is_synchronous c ≡ true → is_synchronous b ≡ true)
          × (is_synchronous c ≡ is_synchronous b → b ≤ c))

-- The facts on the bits, with the words and the masks out of sight.
both_true : (a b : Bool) → (a && b) ≡ true → (a ≡ true) × (b ≡ true)
both_true a b h = ground arith

not_below :
    (p q : ℕ → Bool) (b c : ℕ)
    → ((j : ℕ) → 0 ≤ j → j < b → (p j && q j) ≡ false)
    → p c ≡ true
    → q c ≡ true
    → b ≤ c
not_below p q b c h x y = ground (arith, h c)

pub true_ne_false : {a : Bool} → a ≡ true → a ≡ false → ⊥
true_ne_false h k = cc

some_synchronous :
    (x : Word)
    → test_mask x synchronous_mask ≡ true
    → ¬ ((j : ℕ) → 0 ≤ j → j < nsig → keep_mask x synchronous_mask j ≡ false)
some_synchronous x t h =
    let at = λ (j : ℕ) (l : j < nsig). h j (omega arith) l in
    ground (
      arith,
      at 10 (omega arith),
      at 6 (omega arith),
      at 3 (omega arith),
      at 4 (omega arith),
      at 7 (omega arith),
    )

IsChoice-synchronous :
    (s : Sigpending) (mask : Word) (o : Option ℕ)
    → test_mask (and_not_word s.signal mask) synchronous_mask ≡ true
    → IsLowest (keep_mask (and_not_word s.signal mask) synchronous_mask) 0 nsig o
    → IsChoice s mask (elim o [ none ↦ 0 | some b ↦ suc b ])
IsChoice-synchronous s mask none t h = absurd (some_synchronous (and_not_word s.signal mask) t h)
IsChoice-synchronous s mask (some b) t h =
    let x = and_not_word s.signal mask in
    let (ready, sync) = both_true (x b) (is_synchronous b) h.2 in
    (h.1, ready, λ c l d. (λ k. sync, λ same. not_below x is_synchronous b c h.3 d (same ∙ sync)))

IsChoice-other :
    (s : Sigpending) (mask : Word) (o : Option ℕ)
    → test_mask (and_not_word s.signal mask) synchronous_mask ≡ false
    → IsLowest (and_not_word s.signal mask) 0 nsig o
    → IsChoice s mask (elim o [ none ↦ 0 | some b ↦ suc b ])
IsChoice-other s mask none t h = λ c l. h c (omega arith) l
IsChoice-other s mask (some b) t h =
    let x = and_not_word s.signal mask in
    (
      h.1,
      h.2,
      λ c l d. (
        λ k. absurd (true_ne_false d (test_mask-absent x synchronous_mask c t k)),
        λ same. not_below x x b c (λ j p q. rw (h.3 j p q) refl) d d,
      ),
    )

nonempty_test :
    (w : Word) (o : Option ℕ)
    → lowest_bit w ≡ o
    → is_nonempty w ≡ elim o [ none ↦ false | some b ↦ true ]
nonempty_test w o e = ap (λ r. elim r [ none ↦ false | some b ↦ true ]) e

choose : Bool → Word → ℕ
choose b x =
    if b
    then first_signal (if test_mask x synchronous_mask then keep_mask x synchronous_mask else x)
    else 0

next_signal-choose :
    (s : Sigpending) (mask : Word)
    → next_signal s mask
      ≡ choose (is_nonempty (and_not_word s.signal mask)) (and_not_word s.signal mask)
unfolding next_signal choose
next_signal-choose s mask = refl

module _ (s : Sigpending) (mask : Word) where
  abbrev ready : Word
  ready = and_not_word s.signal mask

  choose_nothing : lowest_bit ready ≡ none → IsChoice s mask (choose false ready)
  unfolding choose
  choose_nothing e =
      let h : IsLowest ready 0 nsig none =
        subst (IsLowest ready 0 nsig) e (lowest_bit_from-IsLowest ready nsig 0) in
      λ c l. h c (omega arith) l

  choose_something : IsChoice s mask (choose true ready)
  unfolding choose
  choose_something = elim (Bool-cases (test_mask ready synchronous_mask)) [
    | inl t ↦ rw t (
        IsChoice-synchronous s mask (lowest_bit (keep_mask ready synchronous_mask)) t
          (lowest_bit_from-IsLowest (keep_mask ready synchronous_mask) nsig 0))
    | inr t ↦
        rw t (IsChoice-other s mask (lowest_bit ready) t (lowest_bit_from-IsLowest ready nsig 0))
  ]

-- The signal that `next_signal` gives for a set and a mask is pending and not masked; it is a
-- synchronous one if any such is, and the lowest of its kind; and it is 0 only if none is pending
-- and not masked.
pub next_signal-IsChoice : (s : Sigpending) (mask : Word) → IsChoice s mask (next_signal s mask)
next_signal-IsChoice s mask =
    let x : Word = and_not_word s.signal mask in
    subst (IsChoice s mask) (sym (next_signal-choose s mask)) (elim (Option-cases (lowest_bit x)) [
      | inl e ↦
          subst (λ b. IsChoice s mask (choose b x)) (sym (nonempty_test x none e))
            (choose_nothing s mask e)
      | inr (b, e) ↦
          subst (λ t. IsChoice s mask (choose t x)) (sym (nonempty_test x (some b) e))
            (choose_something s mask)
    ])

pending_iff :
    (s : Sigpending) (mask : Word) (o : Option ℕ)
    → lowest_bit (and_not_word s.signal mask) ≡ o
    → (is_nonempty (and_not_word s.signal mask) ≡ true) ↔ (next_signal s mask ≢ 0)
unfolding choose
pending_iff s mask none e =
    let x : Word = and_not_word s.signal mask in
    let test : is_nonempty x ≡ false = nonempty_test x none e in
    let zero_next : next_signal s mask ≡ 0 =
      next_signal-choose s mask ∙ ap (λ b. choose b x) test in
    (λ h. absurd (true_ne_false h test), λ h. absurd (h zero_next))
pending_iff s mask (some b) e =
    let x : Word = and_not_word s.signal mask in
    let low : IsLowest x 0 nsig (some b) =
      subst (IsLowest x 0 nsig) e (lowest_bit_from-IsLowest x nsig 0) in
    (
      λ h z. true_ne_false low.2 (subst (IsChoice s mask) z (next_signal-IsChoice s mask) b low.1),
      λ h. nonempty_test x (some b) e,
    )

-- `has_pending_signals` of a set and a mask is true exactly if `next_signal` of them is not 0.
pub has_pending_signals_iff :
    (s : Sigpending) (mask : Word)
    → (has_pending_signals s.signal mask ≡ true) ↔ (next_signal s mask ≢ 0)
unfolding has_pending_signals
has_pending_signals_iff s mask = pending_iff s mask (lowest_bit (and_not_word s.signal mask)) refl

nonempty_by :
    (w : Word) (b : ℕ) (o : Option ℕ)
    → b < nsig
    → w b ≡ true
    → IsLowest w 0 nsig o
    → elim o [ none ↦ false | some c ↦ true ] ≡ true
nonempty_by w b none l h low = absurd (true_ne_false h (low b (omega arith) l))
nonempty_by w b (some c) l h low = refl

-- A word with a bit is not empty.
pub is_nonempty_holds : (w : Word) (b : ℕ) → b < nsig → w b ≡ true → is_nonempty w ≡ true
is_nonempty_holds w b l h = nonempty_by w b (lowest_bit w) l h (lowest_bit_from-IsLowest w nsig 0)
