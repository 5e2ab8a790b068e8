-- ===== src/Signal/Enqueue/Exclusive.antt =====
-- SIGCONT and the stop signals exclude one another among the pending signals of a group
-- (signal.c, `__send_signal`).
use linux_ker_dev.Prelude.{
  ℕ, zero, suc, ◌-◌, ◌≡◌, refl, sym, subst, Bool, true, false, not, ◌&&◌, ◌||◌, List, Mask, has_bit,
  test_mask, arith, ◌==◌, if◌then◌else◌, Bool-cases, inl, inr, ◌⊎◌, Option, none, some, All-set,
  All-map, if-either, ==_iff, ◌≤◌, ltb, leb, ℤ, All-get_or,
}
use linux_ker_dev.Signal.Numbers.{
  sigcont, sigkill, sigmask, sig_kernel_stop, sig_kernel_stop_mask, sigrtmin, signal_group_exit,
  jobctl_pending_mask,
}
use linux_ker_dev.Signal.Types.{
  Info, Sigqueue, Sigpending, Task, Users, Process, signal_wake_up, thread, thread_group_empty,
  nr_threads, is_si_special, sigaddset,
}
use linux_ker_dev.Signal.Jobctl.Clear.{clear-SameBut}
use linux_ker_dev.Signal.Send.{
  note_target, wake_chosen, choose_target, kill_thread, update_thread, wake_target, complete_signal,
  prepare_effects, prepare_signal, sig_ignored, takes_group_down, wants_signal, find_target,
}
use linux_ker_dev.Signal.Send.Prepare.{Absent, Nowhere, prepare_stop, prepare_continue}
use linux_ker_dev.Signal.Enqueue.{
  Sender, enqueue, enqueue_charged, post_with, sigqueue_alloc, pending_of, post_signal,
  send_signal_ns, legacy_queue, is_forced, may_override, not_from_kill,
}

module _ (mask : Mask) (no_kill : has_bit mask (sigkill - 1) ≡ false) where
  kill_thread-Absent : (t : Task) → Absent mask t.pending → Absent mask (kill_thread t).pending
  unfolding kill_thread
  kill_thread-Absent t h =
      λ b e. ground (arith, no_kill, h b e, (clear-SameBut t jobctl_pending_mask).pending)

  woken_thread :
      (p : Process) (i : ℕ) (b : Bool)
      → Nowhere mask p
      → Nowhere mask (update_thread p i (signal_wake_up (thread p i) b))
  unfolding update_thread
  woken_thread p zero b h = record { shared = h.shared; own = h.own; others = h.others }
  woken_thread p (suc i) b h = record {
    shared = h.shared;
    own = h.own;
    others =
        All-set (λ t. Absent mask t.pending) p.others i _
          (All-get_or (λ t. Absent mask t.pending) p.others i p.self h.own h.others) h.others;
  }

  wake_target-Nowhere :
      (sig i : ℕ) (p : Process) → Nowhere mask p → Nowhere mask (wake_target sig i p)
  unfolding wake_target
  wake_target-Nowhere sig i p h =
      if-either (Nowhere mask) (takes_group_down sig p (thread p i)) _ _
        (record {
          shared = h.shared;
          own = kill_thread-Absent p.self h.own;
          others =
              All-map (λ t. Absent mask t.pending) (λ t. Absent mask t.pending) kill_thread p.others
                kill_thread-Absent h.others;
        })
        (woken_thread p i (sig == sigkill) h)

  abbrev Chosen : Option (ℕ × Process) → Type 0
  Chosen none = Unit {0}
  Chosen (some (i, q)) = Nowhere mask q

  noted : (p : Process) (o : Option ℕ) → Nowhere mask p → Chosen (note_target p o)
  noted p none h = tt
  noted p (some t) h = record { shared = h.shared; own = h.own; others = h.others }

  choose_target-Chosen :
      (sig : ℕ) (p : Process) (group : Bool) → Nowhere mask p → Chosen (choose_target sig p group)
  unfolding choose_target
  choose_target-Chosen sig p group h = if-either Chosen (wants_signal sig p.self) _ _ h (
      if-either Chosen (not group || thread_group_empty p) _ _ tt
        (noted p (find_target sig p (nr_threads p) p.signal.curr_target) h))

  wake_chosen-Nowhere :
      (sig : ℕ) (p : Process) (o : Option (ℕ × Process))
      → Nowhere mask p
      → Chosen o
      → Nowhere mask (wake_chosen sig p o)
  wake_chosen-Nowhere sig p none h c = h
  wake_chosen-Nowhere sig p (some (i, q)) h c = wake_target-Nowhere sig i q c

  complete_signal-Nowhere :
      (sig : ℕ) (p : Process) (group : Bool)
      → Nowhere mask p
      → Nowhere mask (complete_signal sig p group)
  unfolding complete_signal
  complete_signal-Nowhere sig p group h =
      wake_chosen-Nowhere sig p (choose_target sig p group) h (choose_target-Chosen sig p group h)

  module _ (sig : ℕ) (other : has_bit mask (sig - 1) ≡ false) where
    added-Absent :
        (s : Sigpending) (q : List Sigqueue)
        → Absent mask s
        → Absent mask (record { signal = sigaddset s.signal sig; queue = q })
    added-Absent s q h = λ b e. ground (arith, other, h b e)

    abbrev Enqueued : Option Sigpending × Users → Type 0
    Enqueued (none, users) = Unit {0}
    Enqueued (some s, users) = Absent mask s

    charged-Enqueued :
        (sender : Sender) (info : Info) (ns : Bool) (s : Sigpending) (r : Option ℕ × Users)
        → Absent mask s
        → Enqueued (enqueue_charged sender sig info ns s r)
    unfolding enqueue_charged
    charged-Enqueued sender info ns s (some user, users) h = λ b e. ground (arith, other, h b e)
    charged-Enqueued sender info ns s (none, users) h =
        if-either Enqueued (not (is_si_special info) && (leb sigrtmin sig && not_from_kill info))
          (none, users) (some (record s { signal = sigaddset s.signal sig }), users) tt
          (added-Absent s s.queue h)

    enqueue-Enqueued :
        (sender : Sender) (info : Info) (ns : Bool) (t : Task) (s : Sigpending) (users : Users)
        → Absent mask s
        → Enqueued (enqueue sender sig info ns t s users)
    unfolding enqueue
    enqueue-Enqueued sender info ns t s users h =
        let charged =
          sigqueue_alloc sender t (if ltb sig sigrtmin then may_override info else false) users in
        if-either Enqueued (is_forced info)
          (some (record s { signal = sigaddset s.signal sig }), users)
          (enqueue_charged sender sig info ns s charged) (added-Absent s s.queue h)
          (charged-Enqueued sender info ns s charged h)

    post_with-Nowhere :
        (p : Process) (group : Bool) (r : Option Sigpending × Users)
        → Nowhere mask p
        → Enqueued r
        → Nowhere mask (post_with sig p group r).0
    unfolding post_with
    post_with-Nowhere p group (none, users) h e = record {
      shared = h.shared;
      own = h.own;
      others = h.others;
    }
    post_with-Nowhere p true (some s, users) h e =
        complete_signal-Nowhere sig _ true (record { shared = e; own = h.own; others = h.others })
    post_with-Nowhere p false (some s, users) h e =
        complete_signal-Nowhere sig _ false
          (record { shared = h.shared; own = e; others = h.others })

    pending_of-Absent :
        (p : Process) (group : Bool) → Nowhere mask p → Absent mask (pending_of p group)
    pending_of-Absent p true h = h.shared
    pending_of-Absent p false h = h.own

    post_signal-Nowhere :
        (sender : Sender) (info : Info) (p : Process) (group ns : Bool)
        → Nowhere mask p
        → Nowhere mask (post_signal sender sig info p group ns).0
    unfolding post_signal
    post_signal-Nowhere sender info p group ns h =
        if-either (λ (r : Process × ℤ). Nowhere mask r.0) (legacy_queue (pending_of p group) sig) _
          _ h
          (post_with-Nowhere p group _ h (
            enqueue-Enqueued sender info ns p.self (pending_of p group) p.users
              (pending_of-Absent p group h)))

    -- A signal outside the mask brings no signal of the mask back.
    send_signal_ns-Nowhere :
        (sender : Sender) (info : Info) (p : Process) (group ns : Bool)
        → Nowhere mask (prepare_effects sig p)
        → Nowhere mask (send_signal_ns sender sig info p group ns).0
    unfolding send_signal_ns prepare_signal
    send_signal_ns-Nowhere sender info p group ns h =
        if-either (λ (r : Process × ℤ). Nowhere mask r.0)
          (not (sig_ignored (prepare_effects sig p) sig ns)) _ _
          (post_signal-Nowhere sender info (prepare_effects sig p) group ns h) h

stop-not_cont : (sig : ℕ) → sig_kernel_stop sig ≡ true → has_bit (sigmask sigcont) (sig - 1) ≡ false
stop-not_cont sig k = ground arith

not_cont :
    (sig : ℕ) → 1 ≤ sig → (sig == sigcont) ≡ false → has_bit (sigmask sigcont) (sig - 1) ≡ false
not_cont sig l c = ground arith

not_stop : (sig : ℕ) → sig_kernel_stop sig ≡ false → has_bit sig_kernel_stop_mask (sig - 1) ≡ false
not_stop sig k = ground arith

-- At most one of SIGCONT and the stop signals is pending in a group.
abbrev pub Exclusive : Process → Type 0
Exclusive q = Nowhere (sigmask sigcont) q ⊎ Nowhere sig_kernel_stop_mask q

module _ (sender : Sender) (sig : ℕ) (info : Info) (p : Process) (group ns : Bool)
    (alive : test_mask p.signal.flags signal_group_exit ≡ false) where
  -- After a stop signal was sent to a group that is not exiting, no SIGCONT is pending anywhere in it.
  pub send_stop :
      sig_kernel_stop sig ≡ true
      → Nowhere (sigmask sigcont) (send_signal_ns sender sig info p group ns).0
  send_stop k =
      send_signal_ns-Nowhere (sigmask sigcont) refl sig (stop-not_cont sig k) sender info p group ns
        (prepare_stop sig p alive k)

  send_cont :
      (sig == sigcont) ≡ true
      → Nowhere sig_kernel_stop_mask (send_signal_ns sender sig info p group ns).0
  send_cont c =
      let is_cont : sig ≡ sigcont = (==_iff sig sigcont).0 c in
      send_signal_ns-Nowhere sig_kernel_stop_mask refl sig (rw is_cont refl) sender info p group ns
        (rw is_cont (prepare_continue p alive))

  prepare_other : sig_kernel_stop sig ≡ false → (sig == sigcont) ≡ false → prepare_effects sig p ≡ p
  unfolding prepare_effects
  prepare_other k c = rw (alive, k, c) refl

  -- Sending a signal, whose number is at least 1, to a group that is not exiting keeps at most one
  -- of SIGCONT and the stop signals pending in the group: if there was no SIGCONT anywhere or no
  -- stop signal anywhere before, one of the two holds after.
  pub send_signal_ns-Exclusive :
      1 ≤ sig → Exclusive p → Exclusive (send_signal_ns sender sig info p group ns).0
  send_signal_ns-Exclusive l h = elim (Bool-cases (sig_kernel_stop sig)) [
    | inl k ↦ inl (send_stop k)
    | inr k ↦ elim (Bool-cases (sig == sigcont)) [
      | inl c ↦ inr (send_cont c)
      | inr c ↦
          let same = sym (prepare_other k c) in
          elim h [
            | inl n ↦ inl (
                send_signal_ns-Nowhere (sigmask sigcont) refl sig (not_cont sig l c) sender info p
                  group ns (subst (Nowhere (sigmask sigcont)) same n))
            | inr n ↦ inr (
                send_signal_ns-Nowhere sig_kernel_stop_mask refl sig (not_stop sig k) sender info p
                  group ns (subst (Nowhere sig_kernel_stop_mask) same n))
          ]
    ]
  ]
