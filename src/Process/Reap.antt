-- ===== src/Process/Reap.antt =====
-- How an exit reaches the parent that waits for it.
use mathlib.Core.List.{map-append}
use c_osiris.Base.{
  ℕ, ◌≡◌, ◌≢◌, refl, sym, ap, ◌∙◌, true, false, some, List, [], ◌∷◌, ◌++◌, map, arith, Bool-cases,
  inl, inr, ◌==◌, if◌then◌else◌, ==-eq_true,
}
use c_osiris.Task.{
  Task, Sched, Exited, Chan, wait_queue_of, queue, find_pid, by_pid, switch_inner, wakeup, wakes,
  wake_task,
}
use c_osiris.Task.Wake.{queue-wakeup, wakes-wake_task}
use c_osiris.Process.{reparent, add_exited, leave, bury, exit, refused}

-- A change that leaves pids alone finds the changed task.
find_pid-map :
    (f : Task → Task) (p : ℕ) (ts : List Task) {t : Task}
    → ((u : Task) → (f u).pid ≡ u.pid)
    → find_pid p ts ≡ some t
    → find_pid p (map f ts) ≡ some (f t)
unfolding find_pid
find_pid-map f p [] keep h = absurd (cc)
find_pid-map f p (u ∷ ts) {t} keep h = elim (Bool-cases (u.pid == p)) [
  | inl same ↦
      let found : some u ≡ some t = ground arith in
      let it : u ≡ t = cc in simp (keep u, same) (ap (λ x. some (f x)) it)
  | inr other ↦ simp (keep u, other) (find_pid-map f p ts keep (ground arith))
]

-- Taking a task with another pid out of the queue changes nothing.
find_pid_without :
    (p : ℕ) (b : List Task) (c : Task) (a : List Task)
    → c.pid ≢ p
    → find_pid p (b ++ (c ∷ a)) ≡ find_pid p (b ++ a)
unfolding find_pid
find_pid_without p [] c a ne = ground arith
find_pid_without p (t ∷ b) c a ne = ground (arith, find_pid_without p b c a ne)

change : ℕ → Exited → ℕ → Task → Task
change c e p u = add_exited p e (reparent c u)

change_pid : (c p : ℕ) (e : Exited) (u : Task) → (change c e p u).pid ≡ u.pid
unfolding change add_exited reparent
change_pid c p e u = ground arith

wake_pid : (c : Chan) (u : Task) → (wake_task c u).pid ≡ u.pid
unfolding wake_task
wake_pid c u = ground arith

change_queue :
    (c : ℕ) (e : Exited) (u : Task) → (change c e u.pid u).wait_queue ≡ u.wait_queue ++ (e ∷ [])
unfolding change add_exited reparent
change_queue c e u = ground arith

wake_queue : (c : Chan) (u : Task) → (wake_task c u).wait_queue ≡ u.wait_queue
unfolding wake_task
wake_queue c u = ground arith

-- The record that an exiting task leaves.
abbrev pub remains : ℕ → Task → Exited
remains status t = record { pid = t.pid; status = status; is_thread = t.is_thread }

-- What has become of the parent of an exiting task.
abbrev heir : ℕ → Sched → Task → Task
heir status s p =
    let g = change s.current.pid (remains status s.current) p.pid p in
    if s.current.is_thread then g else wake_task (wait_queue_of p.pid) g

queue-leave :
    (status : ℕ) (p : Task) (s : Sched)
    → queue (leave status p s)
      ≡ map (change s.current.pid (remains status s.current) p.pid) (s.before ++ s.after)
unfolding leave change
queue-leave status p s = sym (map-append _ s.before s.after)

find_heir :
    (status : ℕ) (p : Task) (s : Sched)
    → find_pid s.current.ppid (s.before ++ s.after) ≡ some p
    → find_pid s.current.ppid (queue (bury status p s)) ≡ some (heir status s p)
unfolding bury
find_heir status p s h =
    let f = change s.current.pid (remains status s.current) p.pid in
    let left : find_pid s.current.ppid (queue (leave status p s)) ≡ some (f p) =
      ap (find_pid s.current.ppid) (queue-leave status p s)
      ∙ find_pid-map f s.current.ppid (s.before ++ s.after)
          (change_pid s.current.pid p.pid (remains status s.current)) h in
    elim s.current.is_thread
      as (λ b.
        find_pid s.current.ppid (
          queue
            (if b then leave status p s else (wakeup (wait_queue_of p.pid) (leave status p s)).1))
        ≡ some (if b then f p else wake_task (wait_queue_of p.pid) (f p))) [
          | true ↦ left
          | false ↦
              ap (find_pid s.current.ppid) (queue-wakeup (wait_queue_of p.pid) (leave status p s))
              ∙ find_pid-map (wake_task (wait_queue_of p.pid)) s.current.ppid
                  (queue (leave status p s)) (wake_pid (wait_queue_of p.pid)) left
        ]

heir_lem :
    (status : ℕ) (p : Task) (s : Sched)
    → ((heir status s p).wait_queue ≡ p.wait_queue ++ (remains status s.current ∷ []))
      × (s.current.is_thread ≡ false → wakes (wait_queue_of p.pid) (heir status s p) ≡ false)
heir_lem status p s =
    let g = change s.current.pid (remains status s.current) p.pid p in
    (
      elim s.current.is_thread
          as (λ b.
            (if b then g else wake_task (wait_queue_of p.pid) g).wait_queue
            ≡ p.wait_queue ++ (remains status s.current ∷ [])) [
              | true ↦ change_queue s.current.pid (remains status s.current) p
              | false ↦
                  wake_queue (wait_queue_of p.pid) g
                  ∙ change_queue s.current.pid (remains status s.current) p
            ],
      elim s.current.is_thread
          as (λ b.
            b ≡ false
            → wakes (wait_queue_of p.pid) (if b then g else wake_task (wait_queue_of p.pid) g)
              ≡ false) [ true ↦ λ h. cc | false ↦ λ h. wakes-wake_task (wait_queue_of p.pid) g ],
    )

-- Where the task is linked in the queue and its parent, another task, is there, an exit adds the
-- pid, the status and the kind of the task to the end of its parent's wait queue, and the parent,
-- unless a thread has exited, no longer sleeps on that queue.
pub find_pid-bury :
    (status : ℕ) (p : Task) (s : Sched)
    → s.linked ≡ true
    → s.current.pid ≢ s.current.ppid
    → by_pid s s.current.ppid ≡ some p
    → (q : Task) × (find_pid s.current.ppid (queue (bury status p s)) ≡ some q)
      × (q.wait_queue ≡ p.wait_queue ++ (remains status s.current ∷ []))
      × (s.current.is_thread ≡ false → wakes (wait_queue_of p.pid) q ≡ false)
unfolding by_pid
find_pid-bury status p s h ne found =
    let kept : find_pid s.current.ppid (s.before ++ s.after) ≡ some p =
      sym (find_pid_without s.current.ppid s.before s.current s.after ne) ∙ (rw h at found) in
    let e = heir_lem status p s in (heir status s p, find_heir status p s kept, e.0, e.1)

-- The end of the first process is refused, but switching stays locked: from then on
-- `task_switch_inner` runs no other task.
pub exit_first :
    (status : ℕ) (s : Sched)
    → s.current.pid ≡ 1
    → (s' : Sched) × (exit status s ≡ refused s') × (switch_inner s' ≡ some s')
unfolding exit switch_inner
exit_first status s h = (record s { locked = true }, rw (==-eq_true s.current.pid 1 h), refl)
