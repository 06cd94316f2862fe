-- ===== src/Process/Tests.antt =====
-- A process, its child and the first process, and the theorems at them.
use c_osiris.Base.{ℕ, ◌≡◌, inl, inr, refl, arith, true, false, Option, some, [], ◌∷◌}
use c_osiris.Base.Ints.{negsuc}
use c_osiris.Task.{
  State, Task, Sched, Chan, null, wait_queue_of, running, sleeping, queue, find_pid, by_pid, wakes,
}
use c_osiris.Process.{fork, bury, exit, switched, before_table, signal, default_handlers}
use c_osiris.Process.Kin.{HasParents}
use c_osiris.Process.Parents.{fork-HasParents, exit-HasParents}
use c_osiris.Process.Reap.{remains, find_pid-bury}

abbrev task : ℕ → ℕ → State → Chan → Task
task p q st c = record {
  pid = p;
  ppid = q;
  state = st;
  sleep_addr = c;
  sleep_end = 0;
  exit_status = 0;
  is_thread = false;
  wait_queue = [];
  handlers = [];
}

-- Pid 3 runs; its parent, pid 2, waits for it.
abbrev family : Sched
family = record {
  before = task 1 0 running null ∷ task 2 1 sleeping (wait_queue_of 2) ∷ [];
  current = task 3 2 running null;
  after = task 4 3 running null ∷ [];
  linked = true;
  locked = false;
  next_pid = 5;
  signals = (3, 15) ∷ [];
  ticks = 0;
}

family-HasParents : HasParents family
family-HasParents = (refl, (inl refl, (inr refl, (inr refl, (inr refl, tt)))))

negative_signal : signal (negsuc 0) 77 default_handlers ≡ before_table
unfolding signal
negative_signal = refl

fork-HasParents_example : HasParents (fork family).1
fork-HasParents_example = fork-HasParents family refl family-HasParents

exit-HasParents_example :
    (r : Option Sched) × (exit 7 family ≡ switched r) × ((s' : Sched) → r ≡ some s' → HasParents s')
exit-HasParents_example = exit-HasParents 7 family refl (omega arith) family-HasParents

abbrev first : Sched
first = record family {
  before = [];
  current = task 1 0 running null;
  after = task 2 1 running null ∷ [];
}

find_pid-bury_example :
    (q : Task) × (find_pid 2 (queue (bury 7 (task 2 1 sleeping (wait_queue_of 2)) family)) ≡ some q)
    × (q.wait_queue ≡ remains 7 family.current ∷ [])
    × (false ≡ false → wakes (wait_queue_of 2) q ≡ false)
unfolding by_pid
find_pid-bury_example =
    find_pid-bury 7 (task 2 1 sleeping (wait_queue_of 2)) family refl (omega arith) refl
