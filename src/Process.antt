-- ===== src/Process.antt =====
-- task.c and signal.c: the life of a process, from `fork_int` through `task_exit` to `task_wait`, and
-- the table of its signal handlers.
pub mod Kin
pub mod Parents
pub mod Reap
pub mod Signals
mod Tests
use c_osiris.Base.{
  ℕ, ◌≤◌, Bool, true, false, ◌&&◌, ◌||◌, not, Option, none, some, List, [], ◌∷◌, ◌++◌, map, leb,
  ltb, ◌==◌, if◌then◌else◌, get_or, set, replicate,
}
use c_osiris.Base.Ints.{ℤ, pos, negsuc}
use c_osiris.Task.{
  Task, Sched, Exited, Chan, wait_queue_of, running, exiting, queue, new_task, find_pid, by_pid,
  switch_inner, sleep_on, wakeup,
}

-- `fork_int`: the child goes to the end of the queue, and its pid is returned. (Memory and files, which
-- it copies, are not part of a task here.)
unfoldable pub fork : Sched → ℕ × Sched
unfolding new_task
fork s =
    let (t, s') = new_task s in
    let child = record t { ppid = s.current.pid; handlers = s.current.handlers; state = running } in
    (child.pid, record s' { after = s.after ++ (child ∷ []); locked = false })

-- The children of an exiting task go to pid 1.
unfoldable pub reparent : ℕ → Task → Task
reparent p t = if t.ppid == p then record t { ppid = 1 } else t

-- `list_add(parent->wait_queue, …)`, at the task of this pid.
unfoldable pub add_exited : ℕ → Exited → Task → Task
add_exited p e t = if t.pid == p then record t { wait_queue = t.wait_queue ++ (e ∷ []) } else t

-- Signals for an exited task are dropped.
unfoldable pub drop_signals : ℕ → List (ℕ × ℕ) → List (ℕ × ℕ)
drop_signals p [] = []
drop_signals p ((q, n) ∷ gs) = if q == p then drop_signals p gs else (q, n) ∷ drop_signals p gs

-- `task_exit` with the parent that its first loop has found, up to the wakeup.
unfoldable pub leave : ℕ → Task → Sched → Sched
unfolding reparent add_exited drop_signals
leave status parent s =
    let t = s.current in
    let e : Exited = record { pid = t.pid; status = status; is_thread = t.is_thread } in
    record s {
      before = map (λ u. add_exited parent.pid e (reparent t.pid u)) s.before;
      current = record t { exit_status = status; state = exiting; wait_queue = [] };
      after = map (λ u. add_exited parent.pid e (reparent t.pid u)) s.after;
      linked = false;
      signals = drop_signals t.pid s.signals;
      locked = false;
    }

-- Up to `task_switch`: the parent of a thread is not woken.
unfoldable pub bury : ℕ → Task → Sched → Sched
bury status parent s =
    if s.current.is_thread
    then leave status parent s
    else (wakeup (wait_queue_of parent.pid) (leave status parent s)).1

-- What `task_exit` comes to: it refuses to end pid 1; it reads `parent` before anything is stored in
-- it; or it gives the CPU away (`none` is the panic of the switch).
pub data Exit : Type 0 where
  refused : Sched → Exit
  unset_parent : Exit
  switched : Option Sched → Exit

-- `task_exit`.
unfoldable pub exit : ℕ → Sched → Exit
exit status s =
    if s.current.pid == 1
    then refused (record s { locked = true })
    else elim (by_pid s s.current.ppid) [
      | none ↦ unset_parent
      | some parent ↦ switched (switch_inner (bury status parent s))
    ]

unfoldable pub has_child : ℕ → List Task → Bool
has_child p [] = false
has_child p (t ∷ ts) = t.ppid == p || has_child p ts

-- The first half of `task_wait`, up to where the task may sleep.
pub data Wait : Type 0 where
  no_children : Wait
  ready : Wait
  slept : Option Sched → Wait

unfoldable pub wait_start : Sched → Wait
unfolding has_child
wait_start s = elim s.current.wait_queue [
  | [] ↦
      if has_child s.current.pid (queue s)
      then slept (sleep_on (wait_queue_of s.current.pid) s)
      else no_children
  | e ∷ es ↦ ready
]

-- The second half: `none` is the -2 of a task that was woken too early; else the exited task, whose
-- pid and status are returned, leaves the wait queue.
unfoldable pub wait_finish : Sched → Option Exited × Sched
wait_finish s = elim s.current.wait_queue [
  | [] ↦ (none, record s { locked = false })
  | e ∷ es ↦ (some e, record s { current = record s.current { wait_queue = es }; locked = false })
]

-- `kill`, where `malloc` returns memory; the Boolean is false for -1.
unfoldable pub kill : ℕ → ℕ → Sched → Bool × Sched
kill pid signum s = elim (by_pid s pid) [
  | none ↦ (false, s)
  | some t ↦ (true, record s { signals = s.signals ++ ((pid, signum) ∷ []) })
]

abbrev pub num_sigs : ℕ
num_sigs = 32

abbrev pub sigkill : ℕ
sigkill = 9

abbrev pub sigstop : ℕ
sigstop = 19

-- `set_default_signals`: SIG_DFL is 0.
unfoldable pub default_handlers : List ℕ
default_handlers = replicate num_sigs 0

-- What `signal` returns: SIG_ERR, or the old handler with the new table; a negative number passes
-- its test and indexes in front of the table.
pub data Installed : Type 0 where
  sig_err : Installed
  old : ℕ → List ℕ → Installed
  before_table : Installed

unfoldable pub signal : ℤ → ℕ → List ℕ → Installed
signal (pos n) handler table =
    if ltb n num_sigs && not (n == sigkill || n == sigstop)
    then old (get_or table n 0) (set table n handler)
    else sig_err
signal (negsuc n) handler table = before_table
