-- ===== src/Signal/Notify/Status.antt =====
-- What a parent can read off the record of a child's death (signal.c, `do_notify_parent`).
use linux_ker_dev.Prelude.{
  ℕ, ◌+◌, ◌*◌, ◌/◌, ◌%◌, ◌^◌, ◌≡◌, ◌<◌, ◌⊎◌, arith, not, ℤ, ◌==◌, if◌then◌else◌, same_int, if-cases,
}
use linux_ker_dev.Signal.Numbers.{cld_exited, cld_killed, cld_dumped}
use linux_ker_dev.Signal.Notify.{exit_status}

-- The exit code as wait(2) gives it, from the code and the status of a record.
abbrev pub wait_status : ℤ × ℕ → ℕ
wait_status (code, status) =
    if same_int code cld_exited
    then status * 2 ^ 8
    else if same_int code cld_killed
    then status
    else status + 2 ^ 7

-- From the code and the status that `do_notify_parent` tells a parent, the exit code of the child
-- can be computed, if it is that of an exit, whose low 8 bits are 0, or that of a death by a
-- signal, below 256.
pub exit_status_roundtrip :
    (exit_code : ℕ)
    → (exit_code % 2 ^ 8 ≡ 0) ⊎ (exit_code < 2 ^ 8)
    → wait_status (exit_status exit_code) ≡ exit_code
unfolding exit_status
exit_status_roundtrip e h =
    if-cases (λ r. wait_status r ≡ e) (e / 2 ^ 7 % 2 == 1) (cld_dumped, e % 2 ^ 7) _
      (λ d. ground (arith, d, h))
      (λ d.
        if-cases (λ r. wait_status r ≡ e) (not (e % 2 ^ 7 == 0)) (cld_killed, e % 2 ^ 7)
          (cld_exited, e / 2 ^ 8) (λ k. ground (arith, d, k, h)) (λ k. ground (arith, d, k, h)))
