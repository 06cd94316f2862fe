-- ===== src/Task/Switch.antt =====
-- What `task_switch_inner` chooses, and what it leaves alone.
use c_osiris.Base.{
  ℕ, ◌≡◌, refl, ap, ◌∙◌, true, false, Option, none, some, List, [], ◌∷◌, ◌++◌, arith, Bool-cases,
  inl, inr, if◌then◌else◌, sym,
}
use mathlib.Core.List.{append_assoc, append-nil}
use c_osiris.Task.{
  Task, Sched, is_ready, queue, wake_check, Pick, found, nothing, pick, pick_behind, from_head,
  from_next, switch_inner,
}

-- No task of the list can run, not even after a look at the clock.
abbrev pub Idle : ℕ → List Task → Type 0
Idle now [] = Unit {0}
Idle now (t ∷ ts) = (is_ready (wake_check now t).state ≡ false) × Idle now ts

-- What a loop over `ts` comes to: it stops at the first task that can run, or there is none; what it
-- has passed it has not changed.
pub data Picked (now : ℕ) (ts : List Task) (p : Pick) : Type 0 where
  first :
      (b : List Task) (t : Task) (a : List Task)
      → p ≡ found b (wake_check now t) a
      → ts ≡ b ++ (t ∷ a)
      → Idle now b
      → is_ready (wake_check now t).state ≡ true
      → Picked now ts p
  idle : p ≡ nothing ts → Idle now ts → Picked now ts p

-- A task that cannot run is as it was.
wake_check_idle :
    (now : ℕ) (t : Task) → is_ready (wake_check now t).state ≡ false → wake_check now t ≡ t
unfolding wake_check
wake_check_idle now t h = ground arith

Picked-cons :
    (now : ℕ) (t : Task) (ts : List Task)
    → is_ready (wake_check now t).state ≡ false
    → Picked now ts (pick now ts)
    → Picked now (t ∷ ts) (pick_behind (wake_check now t) (pick now ts))
unfolding pick_behind
Picked-cons now t ts h (first b u a e split before ready) =
    first (t ∷ b) u a (rw (e, wake_check_idle now t h)) (ap (λ (l : List Task). t ∷ l) split)
      (h, before) ready
Picked-cons now t ts h (idle e all) = idle (rw (e, wake_check_idle now t h)) (h, all)

pub pick-Picked : (now : ℕ) (ts : List Task) → Picked now ts (pick now ts)
unfolding pick
pick-Picked now [] = idle refl tt
pick-Picked now (t ∷ ts) = elim (Bool-cases (is_ready (wake_check now t).state)) [
  | inl ready ↦ rw ready (first [] t ts refl refl tt ready)
  | inr not_ready ↦ rw not_ready (Picked-cons now t ts not_ready (pick-Picked now ts))
]

-- A task's pid and its parent's.
abbrev pub kin_of : Task → ℕ × ℕ
kin_of t = (t.pid, t.ppid)

kin-wake_check : (now : ℕ) (t : Task) → kin_of (wake_check now t) ≡ kin_of t
unfolding wake_check
kin-wake_check now t = ground arith

abbrev pub kin : List Task → List (ℕ × ℕ)
kin [] = []
kin (t ∷ ts) = kin_of t ∷ kin ts

-- What an unlocked switch comes to. `ahead`: it goes on to the first task behind the current one that
-- can run. `around`: there is none, and it takes the first from the head of the queue on. In both
-- cases the queue holds the same tasks in the same order, with the same parents. `panic`: no task in the queue can run.
pub data Switched (s : Sched) (r : Option Sched) : Type 0 where
  ahead :
      (s' : Sched) (b : List Task) (t : Task) (a : List Task)
      → r ≡ some s'
      → s.after ≡ b ++ (t ∷ a)
      → Idle s.ticks b
      → s'.current ≡ wake_check s.ticks t
      → is_ready s'.current.state ≡ true
      → kin (queue s') ≡ kin (queue s)
      → Switched s r
  around :
      (s' : Sched) (b : List Task) (t : Task) (a : List Task)
      → r ≡ some s'
      → Idle s.ticks s.after
      → queue s ≡ b ++ (t ∷ a)
      → Idle s.ticks b
      → s'.current ≡ wake_check s.ticks t
      → is_ready s'.current.state ≡ true
      → kin (queue s') ≡ kin (queue s)
      → Switched s r
  panic : r ≡ none → Idle s.ticks (queue s) → Switched s r

kin-split :
    (now : ℕ) (b : List Task) (t : Task) (a : List Task)
    → kin (b ++ (wake_check now t ∷ a)) ≡ kin (b ++ (t ∷ a))
kin-split now [] t a = ap (λ (k : ℕ × ℕ). k ∷ kin a) (kin-wake_check now t)
kin-split now (x ∷ b) t a = ap (λ (l : List (ℕ × ℕ)). kin_of x ∷ l) (kin-split now b t a)

-- The tasks up to the current one.
abbrev upto : Sched → List Task
upto s = s.before ++ (if s.linked then s.current ∷ [] else [])

queue-upto : (s : Sched) → queue s ≡ upto s ++ s.after
queue-upto s = elim (Bool-cases s.linked) [
  | inl here ↦ rw here (sym (append_assoc s.before (s.current ∷ []) s.after))
  | inr gone ↦ rw (gone, append-nil)
]

around-Switched :
    (s : Sched)
    → Idle s.ticks s.after
    → Picked s.ticks (queue s) (pick s.ticks (queue s))
    → Switched s (from_head s (pick s.ticks (queue s)))
unfolding from_head
around-Switched s behind (first b t a e split before ready) =
    around _ b t a (ap (from_head s) e) behind split before refl ready
      (kin-split s.ticks b t a ∙ ap kin (sym split))
around-Switched s behind (idle e all) = panic (ap (from_head s) e) all

ahead-Switched :
    (s : Sched)
    → Picked s.ticks s.after (pick s.ticks s.after)
    → Switched s (from_next s (pick s.ticks s.after))
unfolding from_next
ahead-Switched s (first b t a e split before ready) =
    ahead _ b t a (ap (from_next s) e) split before refl ready (
      kin-split s.ticks (upto s ++ b) t a
      ∙ ap kin (
          append_assoc (upto s) b (t ∷ a)
          ∙ ap (λ (l : List Task). upto s ++ l) (sym split)
          ∙ sym (queue-upto s)))
ahead-Switched s (idle e all) = rw e (around-Switched s all (pick-Picked s.ticks (queue s)))

-- An unlocked `task_switch_inner` takes the next task in the cyclic order of the queue that can run,
-- and panics only if none can; the queue keeps its tasks in their order.
pub switch_inner-Switched : (s : Sched) → s.locked ≡ false → Switched s (switch_inner s)
unfolding switch_inner
switch_inner-Switched s h = simp h (ahead-Switched s (pick-Picked s.ticks s.after))

-- While switching is locked, `task_switch_inner` stays with the current task.
pub switch_inner_locked : (s : Sched) → s.locked ≡ true → switch_inner s ≡ some s
unfolding switch_inner
switch_inner_locked s h = rw h
