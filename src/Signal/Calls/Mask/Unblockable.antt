-- ===== src/Signal/Calls/Mask/Unblockable.antt =====
-- No system call lets a thread block SIGKILL or SIGSTOP (signal.c).
use linux_ker_dev.Prelude.{
  ℕ, ◌≡◌, refl, sym, ap, ◌∙◌, subst, Bool, false, not, ◌&&◌, List, [], ◌∷◌, inl, inr, arith, Word,
  ℤ, clear_mask, or_word, and_not_word, Bool-cases, if-either, if◌then◌else◌, is_nonzero, ◌==◌,
}
use linux_ker_dev.Signal.Numbers.{einval}
use linux_ker_dev.Signal.Types.{Process, thread_group_empty}
use linux_ker_dev.Signal.Dequeue.{
  How, sig_block, sig_unblock, sig_setmask, other_how, set_task_blocked, sigprocmask,
  recalc_sigpending, has_work, retarget_shared_pending,
}
use linux_ker_dev.Signal.Calls.{
  Source, null_source, unreadable, holds, Dest, null_dest, unwritable, writable, Reply, plain,
  write_out,
}
use linux_ker_dev.Signal.Calls.Mask.{
  sigset_size, kernel_mask, change_mask, rt_sigprocmask, after_change, give_old, sys_sigprocmask,
  ssetmask, suspend_with, rt_sigsuspend,
}

-- The set has neither SIGKILL nor SIGSTOP.
abbrev pub IsOpen : Word → Type 0
IsOpen w = (w 8 ≡ false) × (w 18 ≡ false)

-- The thread blocks neither of them, nor will it when its saved set is put back.
pub record IsStoppable (p : Process) : Type 0 where
  pub blocked : IsOpen p.self.blocked
  pub saved : IsOpen p.self.saved_sigmask

-- What a change of the blocked set leaves to the thread.
pub record IsChanged (w : Word) (p q : Process) : Type 0 where
  pub blocked : q.self.blocked ≡ w
  pub saved : q.self.saved_sigmask ≡ p.self.saved_sigmask
  pub real : q.self.real_blocked ≡ p.self.real_blocked

pub recalc-IsChanged :
    (freezing : Bool) (p : Process) → IsChanged p.self.blocked p (recalc_sigpending freezing p)
unfolding recalc_sigpending
recalc-IsChanged freezing p = elim (Bool-cases (has_work p)) [
  | inl h ↦ rw h (record { blocked = refl; saved = refl; real = refl })
  | inr h ↦ elim (Bool-cases freezing) [
    | inl f ↦ rw (h, f) (record { blocked = refl; saved = refl; real = refl })
    | inr f ↦ rw (h, f) (record { blocked = refl; saved = refl; real = refl })
  ]
]

retarget-self : (p : Process) (w : Word) → (retarget_shared_pending p w).self ≡ p.self
unfolding retarget_shared_pending
retarget-self p w = if-either (λ q. q.self ≡ p.self) _ _ p refl refl

pub set_task_blocked-IsChanged :
    (freezing : Bool) (w : Word) (p : Process) → IsChanged w p (set_task_blocked freezing w p)
unfolding set_task_blocked
set_task_blocked-IsChanged freezing w p =
    let q : Process =
      if p.self.tif_sigpending && not (thread_group_empty p)
      then retarget_shared_pending p (and_not_word w p.self.blocked)
      else p in
    let own : q.self ≡ p.self =
      if-either (λ r. r.self ≡ p.self) (p.self.tif_sigpending && not (thread_group_empty p))
        (retarget_shared_pending p (and_not_word w p.self.blocked)) p (retarget-self p _) refl in
    let c = recalc-IsChanged freezing (record q { self = record q.self { blocked = w } }) in
    record {
      blocked = c.blocked;
      saved = c.saved ∙ ap (λ t. t.saved_sigmask) own;
      real = c.real ∙ ap (λ t. t.real_blocked) own;
    }

IsChanged-IsStoppable :
    (w : Word) (p q : Process)
    → IsChanged w p q
    → IsOpen w
    → IsOpen p.self.saved_sigmask
    → IsStoppable q
IsChanged-IsStoppable w p q c o s = record {
  blocked = subst IsOpen (sym c.blocked) o;
  saved = subst IsOpen (sym c.saved) s;
}

set-IsStoppable :
    (freezing : Bool) (w : Word) (p : Process)
    → IsOpen w
    → IsOpen p.self.saved_sigmask
    → IsStoppable (set_task_blocked freezing w p)
set-IsStoppable freezing w p o s =
    IsChanged-IsStoppable w p _ (set_task_blocked-IsChanged freezing w p) o s

-- The sets that the calls form from a set that the process gives.
clear-IsOpen : (w : Word) → IsOpen (clear_mask w kernel_mask)
clear-IsOpen w = (ground arith, ground arith)

or-IsOpen : (w v : Word) → IsOpen w → IsOpen v → IsOpen (or_word w v)
or-IsOpen w v o k = (rw (o.0, k.0) refl, rw (o.1, k.1) refl)

and_not-IsOpen : (w v : Word) → IsOpen w → IsOpen (and_not_word w v)
and_not-IsOpen w v o = (rw o.0 refl, rw o.1 refl)

block-IsStoppable :
    (freezing : Bool) (set : Word) (p : Process)
    → IsStoppable p
    → IsStoppable
        (set_task_blocked freezing (or_word p.self.blocked (clear_mask set kernel_mask)) p)
block-IsStoppable freezing set p h =
    set-IsStoppable freezing _ p
      (or-IsOpen p.self.blocked (clear_mask set kernel_mask) h.blocked (clear-IsOpen set)) h.saved

unblock-IsStoppable :
    (freezing : Bool) (set : Word) (p : Process)
    → IsStoppable p
    → IsStoppable
        (set_task_blocked freezing (and_not_word p.self.blocked (clear_mask set kernel_mask)) p)
unblock-IsStoppable freezing set p h =
    set-IsStoppable freezing _ p
      (and_not-IsOpen p.self.blocked (clear_mask set kernel_mask) h.blocked) h.saved

write_out-IsStoppable {ℓ} :
    {A : Type ℓ} (p : Process) (d : Dest) (a : A) (value : ℤ)
    → IsStoppable p
    → IsStoppable (write_out p d a value).process
write_out-IsStoppable p null_dest a value h = h
write_out-IsStoppable p unwritable a value h = h
write_out-IsStoppable p writable a value h = h

after_change-IsStoppable :
    (oset : Dest) (old : Word) (r : Process × Word × ℤ)
    → IsStoppable r.0
    → IsStoppable (after_change oset old r).process
after_change-IsStoppable oset old (p, before, error) h =
    if-either (λ (q : Reply Word). IsStoppable q.process) (is_nonzero error) (plain p error)
      (give_old p oset old) h (write_out-IsStoppable p oset old (ℤ.pos 0) h)

sigprocmask-IsStoppable :
    (freezing : Bool) (how : How) (set : Word) (p : Process)
    → IsStoppable p
    → IsStoppable (sigprocmask freezing how (clear_mask set kernel_mask) p).0
unfolding sigprocmask
sigprocmask-IsStoppable freezing sig_block set p h = block-IsStoppable freezing set p h
sigprocmask-IsStoppable freezing sig_unblock set p h = unblock-IsStoppable freezing set p h
sigprocmask-IsStoppable freezing sig_setmask set p h =
    set-IsStoppable freezing _ p (clear-IsOpen set) h.saved
sigprocmask-IsStoppable freezing other_how set p h = h

change_mask-IsStoppable :
    (freezing : Bool) (how : How) (nset : Source Word) (oset : Dest) (p : Process)
    → IsStoppable p
    → IsStoppable (change_mask freezing how nset oset p).process
change_mask-IsStoppable freezing how null_source oset p h =
    write_out-IsStoppable p oset p.self.blocked (ℤ.pos 0) h
change_mask-IsStoppable freezing how unreadable oset p h = h
change_mask-IsStoppable freezing how (holds set) oset p h =
    after_change-IsStoppable oset p.self.blocked
      (sigprocmask freezing how (clear_mask set kernel_mask) p)
      (sigprocmask-IsStoppable freezing how set p h)

sys_sigprocmask-IsStoppable :
    (freezing : Bool) (how : How) (nset : Source Word) (oset : Dest) (p : Process)
    → IsStoppable p
    → IsStoppable (sys_sigprocmask freezing how nset oset p).process
unfolding sys_sigprocmask
sys_sigprocmask-IsStoppable freezing how null_source oset p h =
    write_out-IsStoppable p oset p.self.blocked (ℤ.pos 0) h
sys_sigprocmask-IsStoppable freezing how unreadable oset p h = h
sys_sigprocmask-IsStoppable freezing sig_block (holds set) oset p h =
    write_out-IsStoppable _ oset p.self.blocked (ℤ.pos 0) (block-IsStoppable freezing set p h)
sys_sigprocmask-IsStoppable freezing sig_unblock (holds set) oset p h =
    write_out-IsStoppable _ oset p.self.blocked (ℤ.pos 0) (unblock-IsStoppable freezing set p h)
sys_sigprocmask-IsStoppable freezing sig_setmask (holds set) oset p h =
    write_out-IsStoppable _ oset p.self.blocked (ℤ.pos 0)
      (set-IsStoppable freezing _ p (clear-IsOpen set) h.saved)
sys_sigprocmask-IsStoppable freezing other_how (holds set) oset p h = h

suspend_with-IsStoppable :
    (freezing : Bool) (unewset : Source Word) (p : Process)
    → IsStoppable p
    → IsStoppable (suspend_with freezing unewset p).process
suspend_with-IsStoppable freezing null_source p h = h
suspend_with-IsStoppable freezing unreadable p h = h
suspend_with-IsStoppable freezing (holds newset) p h =
    let s =
      set-IsStoppable freezing (clear_mask newset kernel_mask)
        (record p { self = record p.self { saved_sigmask = p.self.blocked } }) (clear-IsOpen newset)
        h.blocked in
    record { blocked = s.blocked; saved = s.saved }

-- A system call that changes what a thread blocks.
pub data MaskCall : Type 0 where
  rt_procmask : How → Source Word → Dest → ℕ → MaskCall
  procmask : How → Source Word → Dest → MaskCall
  set_whole_mask : Word → MaskCall
  suspend : Source Word → ℕ → MaskCall

abbrev pub made : Bool → MaskCall → Process → Process
made freezing (rt_procmask how nset oset size) p =
    (rt_sigprocmask freezing how nset oset size p).process
made freezing (procmask how nset oset) p = (sys_sigprocmask freezing how nset oset p).process
made freezing (set_whole_mask w) p = (ssetmask freezing w p).0
made freezing (suspend unewset size) p = (rt_sigsuspend freezing unewset size p).process

abbrev pub made_all : Bool → List MaskCall → Process → Process
made_all freezing [] p = p
made_all freezing (c ∷ cs) p = made_all freezing cs (made freezing c p)

made-IsStoppable :
    (freezing : Bool) (c : MaskCall) (p : Process) → IsStoppable p → IsStoppable (made freezing c p)
unfolding rt_sigprocmask ssetmask rt_sigsuspend
made-IsStoppable freezing (rt_procmask how nset oset size) p h =
    if-either (λ (r : Reply Word). IsStoppable r.process) (not (size == sigset_size))
      (plain p einval) _ h (change_mask-IsStoppable freezing how nset oset p h)
made-IsStoppable freezing (procmask how nset oset) p h =
    sys_sigprocmask-IsStoppable freezing how nset oset p h
made-IsStoppable freezing (set_whole_mask w) p h =
    set-IsStoppable freezing _ p (clear-IsOpen w) h.saved
made-IsStoppable freezing (suspend unewset size) p h =
    if-either (λ (r : Reply Word). IsStoppable r.process) (not (size == sigset_size))
      (plain p einval) _ h (suspend_with-IsStoppable freezing unewset p h)

-- Whatever sequence of `rt_sigprocmask`, `sigprocmask`, `ssetmask` and `rt_sigsuspend` a thread
-- makes, with whatever arguments, if it blocks neither SIGKILL nor SIGSTOP before and its saved
-- set has neither, then so it is afterwards.
pub mask_calls_lem :
    (freezing : Bool) (cs : List MaskCall) (p : Process)
    → IsStoppable p
    → IsStoppable (made_all freezing cs p)
mask_calls_lem freezing [] p h = h
mask_calls_lem freezing (c ∷ cs) p h =
    mask_calls_lem freezing cs (made freezing c p) (made-IsStoppable freezing c p h)
