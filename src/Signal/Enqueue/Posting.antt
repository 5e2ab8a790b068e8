-- ===== src/Signal/Enqueue/Posting.antt =====
-- The records of a group behind the queueing of a signal and the choice of its target (signal.c,
-- `complete_signal`, `__send_signal` and `do_send_sig_info`).
use linux_ker_dev.Prelude.{
  ℕ, Bool, true, false, not, ◌&&◌, ◌||◌, List, ◌==◌, if◌then◌else◌, Option, none, some, All-append,
  All-map, if-either, ltb, leb, ℤ,
}
use linux_ker_dev.Signal.Numbers.{sigkill, sigrtmin}
use linux_ker_dev.Signal.Types.{
  Siginfo, Info, Sigqueue, Sigpending, Task, Users, Process, thread, thread_group_empty, nr_threads,
  is_si_special, sigaddset, si_fromuser,
}
use linux_ker_dev.Signal.Send.{
  note_target, wake_chosen, choose_target, kill_thread, wake_target, complete_signal,
  prepare_effects, prepare_signal, sig_ignored, takes_group_down, wants_signal, find_target,
}
use linux_ker_dev.Signal.Enqueue.{
  Sender, enqueue, enqueue_charged, entry_info, post_with, sigqueue_alloc, pending_of, post_signal,
  send_signal_ns, send_signal, do_send_sig_info, with_count, count_signal, legacy_queue, is_forced,
  may_override, not_from_kill,
}
use linux_ker_dev.Signal.Enqueue.Records.{
  Records, Throughout, prepare-Throughout, kill_thread-Records, woken-Throughout,
}

module _ (P : Siginfo → Type 0) where
  wake_target-Throughout :
      (sig i : ℕ) (p : Process) → Throughout P p → Throughout P (wake_target sig i p)
  unfolding wake_target
  wake_target-Throughout sig i p h =
      if-either (Throughout P) (takes_group_down sig p (thread p i)) _ _
        (record {
          shared = h.shared;
          own = kill_thread-Records P p.self h.own;
          others =
              All-map (λ (t : Task). Records P t.pending) (λ (t : Task). Records P t.pending)
                kill_thread p.others (kill_thread-Records P) h.others;
        })
        (woken-Throughout P p i (sig == sigkill) h)

  abbrev Chosen : Option (ℕ × Process) → Type 0
  Chosen none = Unit {0}
  Chosen (some (i, q)) = Throughout P q

  noted : (p : Process) (o : Option ℕ) → Throughout P p → Chosen (note_target p o)
  noted p none h = tt
  noted p (some t) h = record { shared = h.shared; own = h.own; others = h.others }

  choose_target-Chosen :
      (sig : ℕ) (p : Process) (group : Bool) → Throughout P p → Chosen (choose_target sig p group)
  unfolding choose_target
  choose_target-Chosen sig p group h = if-either Chosen (wants_signal sig p.self) _ _ h (
      if-either Chosen (not group || thread_group_empty p) _ _ tt
        (noted p (find_target sig p (nr_threads p) p.signal.curr_target) h))

  wake_chosen-Throughout :
      (sig : ℕ) (p : Process) (o : Option (ℕ × Process))
      → Throughout P p
      → Chosen o
      → Throughout P (wake_chosen sig p o)
  wake_chosen-Throughout sig p none h c = h
  wake_chosen-Throughout sig p (some (i, q)) h c = wake_target-Throughout sig i q c

  complete_signal-Throughout :
      (sig : ℕ) (p : Process) (group : Bool)
      → Throughout P p
      → Throughout P (complete_signal sig p group)
  unfolding complete_signal
  complete_signal-Throughout sig p group h =
      wake_chosen-Throughout sig p (choose_target sig p group) h
        (choose_target-Chosen sig p group h)

  abbrev Enqueued : Option Sigpending × Users → Type 0
  Enqueued (none, users) = Unit {0}
  Enqueued (some s, users) = Records P s

  -- What a send that comes back leaves.
  abbrev pub Left : Option (Process × ℤ) → Type 0
  Left none = Unit {0}
  Left (some (q, value)) = Throughout P q

  module _ (sender : Sender) (sig : ℕ) (info : Info)
      (entry : (ns : Bool) → P (entry_info sender sig info ns)) where
    charged-Enqueued :
        (ns : Bool) (s : Sigpending) (r : Option ℕ × Users)
        → Records P s
        → Enqueued (enqueue_charged sender sig info ns s r)
    unfolding enqueue_charged
    charged-Enqueued ns s (some user, users) h =
        All-append (λ (e : Sigqueue). P e.info) s.queue _ h (entry ns, tt)
    charged-Enqueued ns s (none, users) h =
        if-either Enqueued (not (is_si_special info) && (leb sigrtmin sig && not_from_kill info))
          (none, users) (some (record s { signal = sigaddset s.signal sig }), users) tt h

    enqueue-Enqueued :
        (ns : Bool) (t : Task) (s : Sigpending) (users : Users)
        → Records P s
        → Enqueued (enqueue sender sig info ns t s users)
    unfolding enqueue
    enqueue-Enqueued ns t s users h =
        let charged =
          sigqueue_alloc sender t (if ltb sig sigrtmin then may_override info else false) users in
        if-either Enqueued (is_forced info)
          (some (record s { signal = sigaddset s.signal sig }), users)
          (enqueue_charged sender sig info ns s charged) h (charged-Enqueued ns s charged h)

    post_with-Throughout :
        (p : Process) (group : Bool) (r : Option Sigpending × Users)
        → Throughout P p
        → Enqueued r
        → Throughout P (post_with sig p group r).0
    unfolding post_with
    post_with-Throughout p group (none, users) h e = record {
      shared = h.shared;
      own = h.own;
      others = h.others;
    }
    post_with-Throughout p true (some s, users) h e =
        complete_signal-Throughout sig _ true
          (record { shared = e; own = h.own; others = h.others })
    post_with-Throughout p false (some s, users) h e =
        complete_signal-Throughout sig _ false
          (record { shared = h.shared; own = e; others = h.others })

    pending_of-Records :
        (p : Process) (group : Bool) → Throughout P p → Records P (pending_of p group)
    pending_of-Records p true h = h.shared
    pending_of-Records p false h = h.own

    post_signal-Throughout :
        (p : Process) (group ns : Bool)
        → Throughout P p
        → Throughout P (post_signal sender sig info p group ns).0
    unfolding post_signal
    post_signal-Throughout p group ns h =
        if-either (λ (r : Process × ℤ). Throughout P r.0) (legacy_queue (pending_of p group) sig) _
          _ h
          (post_with-Throughout p group _ h (
            enqueue-Enqueued ns p.self (pending_of p group) p.users (pending_of-Records p group h)))

    pub send_signal_ns-Throughout :
        (p : Process) (group ns : Bool)
        → Throughout P p
        → Throughout P (send_signal_ns sender sig info p group ns).0
    unfolding send_signal_ns prepare_signal
    send_signal_ns-Throughout p group ns h =
        let q = prepare_effects sig p in
        if-either (λ (r : Process × ℤ). Throughout P r.0) (not (sig_ignored q sig ns)) _ _
          (post_signal-Throughout q group ns (prepare-Throughout P sig p h))
          (prepare-Throughout P sig p h)

    send_signal-Throughout :
        (p : Process) (group : Bool)
        → Throughout P p
        → Throughout P (send_signal sender sig info p group).0
    unfolding send_signal
    send_signal-Throughout p group h =
        send_signal_ns-Throughout p group (si_fromuser info && sender.pid_in_ns == 0) h

    counted-Left :
        (r : Process × ℤ) (o : Option (List ℕ)) → Throughout P r.0 → Left (with_count r o)
    counted-Left r none h = tt
    counted-Left r (some counters) h = record { shared = h.shared; own = h.own; others = h.others }

    pub do_send_sig_info-Left :
        (p : Process) (group : Bool)
        → Throughout P p
        → Left (do_send_sig_info sender sig info p group)
    unfolding do_send_sig_info
    do_send_sig_info-Left p group h =
        let r = send_signal sender sig info p group in
        if-either Left p.sighand (with_count r (count_signal sig r.0.counters)) _
          (counted-Left r (count_signal sig r.0.counters) (send_signal-Throughout p group h)) h
