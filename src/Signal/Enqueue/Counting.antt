-- ===== src/Signal/Enqueue/Counting.antt =====
-- The count of the signals of a process (signal.c, line 1180, and the table that sched.h declares at
-- line 452).
use linux_ker_dev.Prelude.{
  ℕ, zero, suc, ◌+◌, ◌%◌, negsuc, ◌^◌, ◌≤◌, ◌≡◌, ◌≢◌, refl, ◌∙◌, ap, Bool, true, false, not, List,
  ◌==◌, Option, none, some, if-either, if-true, ℤ, pos, length, get_elem?, set, ◌||◌, ◌&&◌,
  get_elem?-none, get_elem?-set_self, get_elem?-set_ne, test_mask,
}
use linux_ker_dev.Signal.Numbers.{esrch, sigcont, sig_kernel_stop, signal_group_exit, sigkill}
use linux_ker_dev.Signal.Types.{
  Info, Task, Users, Process, Sigpending, thread, thread_group_empty, nr_threads, signal_wake_up,
  si_fromuser,
}
use linux_ker_dev.Signal.Syscalls.{get_sigcounter, as_int}
use linux_ker_dev.Signal.Syscalls.Wrap.{next_int, as_int-next}
use linux_ker_dev.Signal.Send.{
  over_group, rm_shared, prepare_effects, prepare_signal, sig_ignored, note_target, wake_chosen,
  choose_target, update_thread, wake_target, takes_group_down, complete_signal, wants_signal,
  find_target,
}
use linux_ker_dev.Signal.Enqueue.{
  Sender, post_with, post_signal, with_pending, pending_of, send_signal_ns, send_signal, with_count,
  count_signal, do_send_sig_info, enqueue, legacy_queue,
}

-- The table of counts, and whether there is one, are left alone.
abbrev SameTable : Process → Process → Type 0
SameTable p q = (q.counters ≡ p.counters)

prepare-SameTable : (sig : ℕ) (p : Process) → SameTable p (prepare_effects sig p)
unfolding prepare_effects over_group rm_shared
prepare-SameTable sig p =
    if-either (SameTable p) (test_mask p.signal.flags signal_group_exit) _ _ refl (
      if-either (SameTable p) (sig_kernel_stop sig) _ _ refl
        (if-either (SameTable p) (sig == sigcont) _ _ refl refl))

update-SameTable : (p : Process) (i : ℕ) (t : Task) → SameTable p (update_thread p i t)
unfolding update_thread
update-SameTable p zero t = refl
update-SameTable p (suc i) t = refl

wake_target-SameTable : (sig i : ℕ) (p : Process) → SameTable p (wake_target sig i p)
unfolding wake_target
wake_target-SameTable sig i p =
    if-either (SameTable p) (takes_group_down sig p (thread p i)) _ _ refl
      (update-SameTable p i (signal_wake_up (thread p i) (sig == sigkill)))

abbrev Noted : Process → Option (ℕ × Process) → Type 0
Noted p none = Unit {0}
Noted p (some (i, q)) = SameTable p q

Noted-SameTable : (p : Process) (o : Option ℕ) → Noted p (note_target p o)
Noted-SameTable p none = tt
Noted-SameTable p (some t) = refl

choose-SameTable : (sig : ℕ) (p : Process) (group : Bool) → Noted p (choose_target sig p group)
unfolding choose_target
choose-SameTable sig p group = if-either (Noted p) (wants_signal sig p.self) (some (0, p)) _ refl (
    if-either (Noted p) (not group || thread_group_empty p) none _ tt
      (Noted-SameTable p (find_target sig p (nr_threads p) p.signal.curr_target)))

chosen-SameTable :
    (sig : ℕ) (p : Process) (o : Option (ℕ × Process))
    → Noted p o
    → SameTable p (wake_chosen sig p o)
chosen-SameTable sig p none h = refl
chosen-SameTable sig p (some (i, q)) h = wake_target-SameTable sig i q ∙ h

complete-SameTable :
    (sig : ℕ) (p : Process) (group : Bool) → SameTable p (complete_signal sig p group)
unfolding complete_signal
complete-SameTable sig p group =
    chosen-SameTable sig p (choose_target sig p group) (choose-SameTable sig p group)

post_with-SameTable :
    (sig : ℕ) (p : Process) (group : Bool) (r : Option Sigpending × Users)
    → SameTable p (post_with sig p group r).0
unfolding post_with
post_with-SameTable sig p group (none, users) = refl
post_with-SameTable sig p true (some s, users) =
    complete-SameTable sig (with_pending p true s users) true
post_with-SameTable sig p false (some s, users) =
    complete-SameTable sig (with_pending p false s users) false

post-SameTable :
    (sender : Sender) (sig : ℕ) (info : Info) (p : Process) (group ns : Bool)
    → SameTable p (post_signal sender sig info p group ns).0
unfolding post_signal
post-SameTable sender sig info p group ns =
    if-either (λ (r : Process × ℤ). SameTable p r.0) (legacy_queue (pending_of p group) sig)
      (p, pos 0) _ refl
      (post_with-SameTable sig p group
        (enqueue sender sig info ns p.self (pending_of p group) p.users))

pub send-SameTable :
    (sender : Sender) (sig : ℕ) (info : Info) (p : Process) (group : Bool)
    → (send_signal sender sig info p group).0.counters ≡ p.counters
unfolding send_signal send_signal_ns prepare_signal
send-SameTable sender sig info p group =
    let ns = si_fromuser info && sender.pid_in_ns == 0 in
    let q = prepare_effects sig p in
    if-either (λ (r : Process × ℤ). SameTable p r.0) (not (sig_ignored q sig ns)) _ (q, pos 0)
      (post-SameTable sender sig info q group ns ∙ prepare-SameTable sig p)
      (prepare-SameTable sig p)

count_in :
    (sig n : ℕ) (counters : List ℕ)
    → get_elem? counters sig ≡ some n
    → count_signal sig counters ≡ some (set counters sig ((n + 1) % 2 ^ 32))
unfolding count_signal
count_in sig n counters h = rw (h, count_signal) refl

count_out : (sig : ℕ) (counters : List ℕ) → length counters ≤ sig → count_signal sig counters ≡ none
unfolding count_signal
count_out sig counters h = rw (get_elem?-none counters sig h, count_signal) refl

-- For a process that has its table: a signal whose number lies in the table of counters is sent
-- and counted once, whatever becomes of it (the value of the sending is passed on, and the count
-- wraps at 2 ^ 32); for a number beyond the end of the table the count is written out of bounds.
pub do_send_sig_info_counts :
    (sender : Sender) (sig : ℕ) (info : Info) (p : Process) (group : Bool)
    → p.sighand ≡ true
    → ((n : ℕ)
        → get_elem? p.counters sig ≡ some n
        → do_send_sig_info sender sig info p group
          ≡ some (
            record (send_signal sender sig info p group).0 {
              counters = set p.counters sig ((n + 1) % 2 ^ 32);
            },
            (send_signal sender sig info p group).1,
          ))
      × (length p.counters ≤ sig → do_send_sig_info sender sig info p group ≡ none)
unfolding do_send_sig_info
do_send_sig_info_counts sender sig info p group h =
    let r = send_signal sender sig info p group in
    let same : count_signal sig r.0.counters ≡ count_signal sig p.counters =
      ap (count_signal sig) (send-SameTable sender sig info p group) in
    let sent =
      if-true p.sighand (with_count r (count_signal sig r.0.counters)) (some (p, esrch)) h in
    (
      λ n e. sent ∙ ap (with_count r) (same ∙ count_in sig n p.counters e),
      λ e. sent ∙ ap (with_count r) (same ∙ count_out sig p.counters e),
    )

-- The `int` that is read, if there is a count.
abbrev read : Option ℕ → Option ℤ
read none = none
read (some n) = some (as_int n)

read-some : (o : Option ℕ) (v : ℤ) → read o ≡ some v → (n : ℕ) × (o ≡ some n) × (as_int n ≡ v)
read-some none v e = cc
read-some (some n) v e = (n, refl, cc)

other_read :
    (p q : Process) (sig : ℕ) (n : ℕ) (o : ℤ)
    → q.counters ≡ set p.counters sig n
    → pos sig ≢ o
    → get_sigcounter q o ≡ get_sigcounter p o
unfolding get_sigcounter
other_read p q sig n (negsuc k) c d = refl
other_read p q sig n (pos o) c d =
    ap read
      (ap (λ l. get_elem? l o) c ∙ get_elem?-set_ne p.counters sig o n (λ same. d (ap pos same)))

-- For a process that has its table and a number in it: after `do_send_sig_info`, `get_sigcounter`
-- reads one more for that signal, as an `int`, where behind the greatest comes the least, and what
-- it read before for every other index.
pub sent_is_counted :
    (sender : Sender) (sig : ℕ) (v : ℤ) (info : Info) (p : Process) (group : Bool)
    → p.sighand ≡ true
    → get_sigcounter p (pos sig) ≡ some v
    → (q : Process) × (do_send_sig_info sender sig info p group
        ≡ some (q, (send_signal sender sig info p group).1))
      × (get_sigcounter q (pos sig) ≡ some (next_int v))
      × ((o : ℤ) → pos sig ≢ o → get_sigcounter q o ≡ get_sigcounter p o)
unfolding get_sigcounter
sent_is_counted sender sig v info p group h e =
    let (n, at, is) = read-some (get_elem? p.counters sig) v e in
    let q : Process = record (send_signal sender sig info p group).0 {
      counters = set p.counters sig ((n + 1) % 2 ^ 32);
    } in
    (
      q,
      (do_send_sig_info_counts sender sig info p group h).0 n at,
      ap read (get_elem?-set_self p.counters sig ((n + 1) % 2 ^ 32) n at)
          ∙ ap some (as_int-next n ∙ ap next_int is),
      λ o d. other_read p q sig _ o refl d,
    )
