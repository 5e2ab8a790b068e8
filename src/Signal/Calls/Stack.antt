-- ===== src/Signal/Calls/Stack.antt =====
-- The alternate signal stack of a thread (signal.c, lines 2944-3008; sched.h, lines 2222-2237).
use linux_ker_dev.Prelude.{
  ℕ, ◌-◌, ◌≡◌, ◌≤◌, ◌⊎◌, inl, inr, refl, sym, ap, ◌∙◌, subst, arith, Bool, false, not, ◌&&◌, some,
  ℤ, pos, ltb, leb, ◌==◌, if◌then◌else◌, if-either, if-cases,
}
use linux_ker_dev.Signal.Numbers.{eperm, einval, enomem, efault}
use linux_ker_dev.Signal.Types.{Task, Process}
use linux_ker_dev.Signal.Calls.{
  Source, null_source, unreadable, holds, Dest, Reply, plain, write_out,
}

-- `stack_t`
pub record StackT : Type 0 where
  pub ss_sp : ℕ
  pub ss_flags : ℕ
  pub ss_size : ℕ

abbrev pub ss_onstack : ℕ
ss_onstack = 1

abbrev pub ss_disable : ℕ
ss_disable = 2

abbrev pub minsigstksz : ℕ
minsigstksz = 2048

-- `on_sig_stack`, for a stack that grows down
abbrev pub on_sig_stack : Task → ℕ → Bool
on_sig_stack t sp = ltb t.sas_ss_sp sp && leb (sp - t.sas_ss_sp) t.sas_ss_size

-- `sas_ss_flags`
abbrev pub sas_ss_flags : Task → ℕ → ℕ
sas_ss_flags t sp =
    if t.sas_ss_size == 0 then ss_disable else if on_sig_stack t sp then ss_onstack else 0

abbrev pub old_stack : Task → ℕ → StackT
old_stack t sp = record {
  ss_sp = t.sas_ss_sp;
  ss_flags = sas_ss_flags t sp;
  ss_size = t.sas_ss_size;
}

abbrev pub with_stack : Process → ℕ → ℕ → Process
with_stack p ss_sp ss_size = record p {
  self = record p.self { sas_ss_sp = ss_sp; sas_ss_size = ss_size };
}

-- `do_sigaltstack` with a new stack that was read
unfoldable pub set_stack : StackT → Dest → ℕ → Process → Reply StackT
set_stack ss uoss sp p =
    let oss = old_stack p.self sp in
    if on_sig_stack p.self sp
    then plain p eperm
    else if not (ss.ss_flags == ss_disable)
        && not (ss.ss_flags == ss_onstack)
        && not (ss.ss_flags == 0)
    then plain p einval
    else if ss.ss_flags == ss_disable
    then write_out (with_stack p 0 0) uoss oss (pos 0)
    else if ltb ss.ss_size minsigstksz
    then plain p enomem
    else write_out (with_stack p ss.ss_sp ss.ss_size) uoss oss (pos 0)

-- `do_sigaltstack`
unfoldable pub do_sigaltstack : Source StackT → Dest → ℕ → Process → Reply StackT
do_sigaltstack null_source uoss sp p = write_out p uoss (old_stack p.self sp) (pos 0)
do_sigaltstack unreadable uoss sp p = plain p efault
do_sigaltstack (holds ss) uoss sp p = set_stack ss uoss sp p

-- The thread has no alternate stack, or one of at least the least size.
abbrev pub IsUsable : Task → Type 0
IsUsable t = ((t.sas_ss_sp ≡ 0) × (t.sas_ss_size ≡ 0)) ⊎ (minsigstksz ≤ t.sas_ss_size)

-- What is written is the old stack, and only the stack changes.
abbrev pub IsSwitched : ℕ → Process → Reply StackT → Type 0
IsSwitched sp p r =
    (oss : StackT)
    → r.written ≡ some oss
    → (oss ≡ old_stack p.self sp)
      × (on_sig_stack p.self sp ≡ false)
      × (a : ℕ) × (b : ℕ) × (r.process ≡ with_stack p a b)

some-injective : {a b : StackT} → some a ≡ some b → a ≡ b
some-injective h = cc

plain-IsSwitched : (sp : ℕ) (p q : Process) (value : ℤ) → IsSwitched sp p (plain q value)
plain-IsSwitched sp p q value oss h = cc

write_out-IsSwitched :
    (sp : ℕ) (p : Process) (a b : ℕ) (d : Dest)
    → on_sig_stack p.self sp ≡ false
    → IsSwitched sp p (write_out (with_stack p a b) d (old_stack p.self sp) (pos 0))
write_out-IsSwitched sp p a b Dest.null_dest off oss h = cc
write_out-IsSwitched sp p a b Dest.unwritable off oss h = cc
write_out-IsSwitched sp p a b Dest.writable off oss h = (sym (some-injective h), off, a, b, refl)

set_stack-IsSwitched :
    (ss : StackT) (d : Dest) (sp : ℕ) (p : Process) → IsSwitched sp p (set_stack ss d sp p)
unfolding set_stack
set_stack-IsSwitched ss d sp p =
    if-cases (IsSwitched sp p) (on_sig_stack p.self sp) (plain p eperm) _
      (λ e. plain-IsSwitched sp p p eperm)
      (λ off.
        if-either (IsSwitched sp p)
          (not (ss.ss_flags == ss_disable)
            && not (ss.ss_flags == ss_onstack)
            && not (ss.ss_flags == 0))
          (plain p einval) _ (plain-IsSwitched sp p p einval)
          (if-either (IsSwitched sp p) (ss.ss_flags == ss_disable)
            (write_out (with_stack p 0 0) d (old_stack p.self sp) (pos 0)) _
            (write_out-IsSwitched sp p 0 0 d off)
            (if-either (IsSwitched sp p) (ltb ss.ss_size minsigstksz) (plain p enomem)
              (write_out (with_stack p ss.ss_sp ss.ss_size) d (old_stack p.self sp) (pos 0))
              (plain-IsSwitched sp p p enomem)
              (write_out-IsSwitched sp p ss.ss_sp ss.ss_size d off))))

write_out-process :
    (p : Process) (d : Dest) (a : StackT) (value : ℤ) → (write_out p d a value).process ≡ p
write_out-process p Dest.null_dest a value = refl
write_out-process p Dest.unwritable a value = refl
write_out-process p Dest.writable a value = refl

-- The old stack, given to a thread with another one, is its stack again.
set_old :
    (p : Process) (a b sp other : ℕ) (d : Dest)
    → IsUsable p.self
    → on_sig_stack p.self sp ≡ false
    → on_sig_stack (with_stack p a b).self other ≡ false
    → (set_stack (old_stack p.self sp) d other (with_stack p a b)).process ≡ p
unfolding set_stack
set_old p a b sp other d (inl (place, size)) off free =
    rw (free, size)
      (write_out-process (with_stack p 0 0) d _ (pos 0)
        ∙ ap (λ v. record p { self = record p.self { sas_ss_sp = v; sas_ss_size = 0 } })
            (sym place))
set_old p a b sp other d (inr size) off free =
    let some_size : (p.self.sas_ss_size == 0) ≡ false = ground (arith, size) in
    let enough : ltb p.self.sas_ss_size minsigstksz ≡ false = ground (arith, size) in
    rw (free, off, some_size, enough) (write_out-process p d _ (pos 0))

-- What a call of `do_sigaltstack` with a new stack writes as the old one is accepted by a later
-- call that is not made on the new stack, and gives the process back as it was, if the thread had
-- no stack, at address 0, or one of at least the least size.
pub do_sigaltstack_roundtrip :
    (p : Process) (ss oss : StackT) (d d' : Dest) (sp other : ℕ)
    → IsUsable p.self
    → (do_sigaltstack (holds ss) d sp p).written ≡ some oss
    → on_sig_stack (do_sigaltstack (holds ss) d sp p).process.self other ≡ false
    → (do_sigaltstack (holds oss) d' other (do_sigaltstack (holds ss) d sp p).process).process ≡ p
unfolding do_sigaltstack
do_sigaltstack_roundtrip p ss oss d d' sp other usable w free =
    let (old, off, a, b, new) = set_stack-IsSwitched ss d sp p oss w in
    let free' : on_sig_stack (with_stack p a b).self other ≡ false =
      subst (λ q. on_sig_stack q.self other ≡ false) new free in
    subst (λ o. (set_stack o d' other (set_stack ss d sp p).process).process ≡ p) (sym old)
      (subst (λ q. (set_stack (old_stack p.self sp) d' other q).process ≡ p) (sym new)
        (set_old p a b sp other d' usable off free'))
