-- ===== src/Signal/Syscalls/Wrap.antt =====
-- The `int` that `get_sigcounter` makes of a count, when the count goes up by one.
use linux_ker_dev.Prelude.{
  ℕ, zero, suc, ◌+◌, ◌-◌, ◌%◌, ◌^◌, ◌≤◌, ◌≡◌, refl, ◌∙◌, ap, true, ltb, ◌==◌, if◌then◌else◌,
  Bool-cases, inl, inr, ℤ, pos, negsuc, arith,
}
use linux_ker_dev.Signal.Syscalls.{as_int}

-- One more, for an `int`: behind the greatest comes the least.
abbrev pub next_int : ℤ → ℤ
next_int (pos n) = if n == 2 ^ 31 - 1 then negsuc (2 ^ 31 - 1) else pos (n + 1)
next_int (negsuc zero) = pos 0
next_int (negsuc (suc n)) = negsuc n

-- The `int` of a number below 2 ^ 32
abbrev int_below : ℕ → ℤ
int_below m = if ltb m (2 ^ 31) then pos m else negsuc (2 ^ 32 - 1 - m)

negative : (m k : ℕ) → m + k ≡ 2 ^ 32 - 1 → 2 ^ 31 ≤ m → int_below m ≡ negsuc k
negative m k e l = ground arith

positive_next : (m : ℕ) → ltb m (2 ^ 31) ≡ true → int_below (m + 1) ≡ next_int (int_below m)
positive_next m h = ground arith

-- The number behind one, in 32 bits
abbrev behind : ℕ → ℕ
behind m = if m == 2 ^ 32 - 1 then 0 else m + 1

behind-mod : (n : ℕ) → (n + 1) % 2 ^ 32 ≡ behind (n % 2 ^ 32)
behind-mod n = ground arith

below-next : (m : ℕ) → m ≤ 2 ^ 32 - 1 → int_below (behind m) ≡ next_int (int_below m)
below-next m l = elim (Bool-cases (m == 2 ^ 32 - 1)) [
  | inl e ↦ rw (e, negative m 0 (ground (arith, e)) (ground (arith, e))) refl
  | inr e ↦ elim (Bool-cases (ltb m (2 ^ 31))) [
    | inl h ↦ rw e (positive_next m h)
    | inr h ↦
        let k = 2 ^ 32 - 2 - m in
        rw
          (
            e,
            negative m (suc k) (ground (arith, e)) (ground (arith, h)),
            negative (m + 1) k (ground (arith, e)) (ground (arith, h)),
          )
          refl
  ]
]

pub as_int-next : (n : ℕ) → as_int ((n + 1) % 2 ^ 32) ≡ next_int (as_int n)
unfolding as_int
as_int-next n = ap int_below (ground arith ∙ behind-mod n) ∙ below-next (n % 2 ^ 32) (ground arith)
