-- ===== src/Process/Parents.antt =====
-- Every process but the first has its parent in the queue, so `task_exit` finds the parent it needs.
use c_osiris.Base.{
  ℕ, ◌≡◌, ◌≢◌, inl, inr, refl, sym, ap, ◌∙◌, true, false, Option, some, List, [], ◌∷◌, ◌++◌, map,
  arith, ◌==◌, if◌then◌else◌,
}
use mathlib.Core.Path.{ap₂}
use mathlib.Core.List.{append_assoc}
use c_osiris.Task.{Task, Sched, Chan, wait_queue_of, queue, by_pid, switch_inner, wakeup}
use c_osiris.Task.Switch.{kin, kin_of, Switched, ahead, around, panic, switch_inner-Switched}
use c_osiris.Task.Wake.{queue-wakeup}
use c_osiris.Process.{fork, leave, bury, exit, switched}
use c_osiris.Process.Kin.{
  has_pid, Parented, HasParents, adopt, kin-append, has_pid-append, Parented-append, Parented-more,
  Parented-mid, adopt-append, has_pid-adopt, Parented-adopt, kin-map_wake, kin-change, find_of_has,
}

kin-fork :
    (s : Sched)
    → s.linked ≡ true
    → kin (queue (fork s).1) ≡ kin (queue s) ++ ((s.next_pid, s.current.pid) ∷ [])
unfolding fork
kin-fork s h = rw h (
    kin-append s.before (s.current ∷ (s.after ++ _))
    ∙ ap (λ (l : List (ℕ × ℕ)). kin s.before ++ (kin_of s.current ∷ l)) (kin-append s.after _)
    ∙ sym (append_assoc (kin s.before) (kin (s.current ∷ s.after)) _)
    ∙ ap (λ (l : List (ℕ × ℕ)). l ++ ((s.next_pid, s.current.pid) ∷ []))
        (sym (kin-append s.before (s.current ∷ s.after))))

kin-linked :
    (s : Sched)
    → s.linked ≡ true
    → kin (queue s) ≡ kin s.before ++ ((s.current.pid, s.current.ppid) ∷ kin s.after)
kin-linked s h = rw h (kin-append s.before (s.current ∷ s.after))

current_in : (s : Sched) → s.linked ≡ true → has_pid s.current.pid (kin (queue s)) ≡ true
current_in s h = rw (kin-linked s h, has_pid-append) (ground arith)

-- After a fork by a process of the queue, every process still has its parent there.
pub fork-HasParents : (s : Sched) → s.linked ≡ true → HasParents s → HasParents (fork s).1
fork-HasParents s h (one, all) =
    let ks = kin (queue s) in
    let child : List (ℕ × ℕ) = (s.next_pid, s.current.pid) ∷ [] in
    rw (kin-fork s h) (
      ground (arith, has_pid-append 1 ks child, one),
      Parented-append (ks ++ child) ks child (Parented-more ks child ks all)
          (inr (ground (arith, has_pid-append s.current.pid ks child, current_in s h)), tt),
    )

kin-leave :
    (status : ℕ) (p : Task) (s : Sched)
    → kin (queue (leave status p s)) ≡ adopt s.current.pid (kin s.before ++ kin s.after)
unfolding leave
kin-leave status p s =
    kin-append (map _ s.before) (map _ s.after)
    ∙ ap₂ ◌++◌ (kin-change p.pid s.current.pid _ s.before)
        (kin-change p.pid s.current.pid _ s.after)
    ∙ sym (adopt-append s.current.pid (kin s.before) (kin s.after))

kin-wakeup : (c : Chan) (s : Sched) → kin (queue (wakeup c s).1) ≡ kin (queue s)
kin-wakeup c s = ap kin (queue-wakeup c s) ∙ kin-map_wake c (queue s)

kin-bury :
    (status : ℕ) (p : Task) (s : Sched)
    → kin (queue (bury status p s)) ≡ adopt s.current.pid (kin s.before ++ kin s.after)
unfolding bury
kin-bury status p s =
    elim s.current.is_thread
      as (λ b.
        kin (
          queue
            (if b then leave status p s else (wakeup (wait_queue_of p.pid) (leave status p s)).1))
        ≡ adopt s.current.pid (kin s.before ++ kin s.after)) [
          | true ↦ kin-leave status p s
          | false ↦ kin-wakeup (wait_queue_of p.pid) (leave status p s) ∙ kin-leave status p s
        ]

bury_unlocked : (status : ℕ) (p : Task) (s : Sched) → (bury status p s).locked ≡ false
unfolding bury leave wakeup
bury_unlocked status p s = ground arith

bury-HasParents :
    (status : ℕ) (p : Task) (s : Sched)
    → s.linked ≡ true
    → s.current.pid ≢ 1
    → HasParents s
    → HasParents (bury status p s)
bury-HasParents status p s h ne (one, all) =
    let c = s.current.pid in
    let pp = s.current.ppid in
    let kb = kin s.before in
    let ka = kin s.after in
    let one' : has_pid 1 (kb ++ ((c, pp) ∷ ka)) ≡ true = rw (← kin-linked s h) one in
    let all' : Parented (kb ++ ((c, pp) ∷ ka)) (kb ++ ((c, pp) ∷ ka)) = rw (← kin-linked s h) all in
    rw (kin-bury status p s) (
      has_pid-adopt c 1 (kb ++ ka)
          ∙ ground (arith, one', has_pid-append 1 kb ka, has_pid-append 1 kb ((c, pp) ∷ ka)),
      Parented-adopt c pp kb ka (kb ++ ka) ne one' (Parented-mid _ kb ka c pp all').1,
    )

Switched-HasParents :
    {s : Sched} {r : Option Sched}
    → HasParents s
    → Switched s r
    → (s' : Sched) → r ≡ some s'
    → HasParents s'
Switched-HasParents {s} v (ahead t b u a e split idle_b cur ready kins) s' e' =
    let same : t ≡ s' = cc in rw (← same, kins) v
Switched-HasParents {s} v (around t b u a e idle_a split idle_b cur ready kins) s' e' =
    let same : t ≡ s' = cc in rw (← same, kins) v
Switched-HasParents {s} v (panic e idle) s' e' = absurd (cc)

-- In a queue where every process has its parent, the exit of the current process, linked there
-- and not the first, finds the parent that it needs: `parent` is never read unset. If a next
-- process runs, all processes have again their parent in the queue.
pub exit-HasParents :
    (status : ℕ) (s : Sched)
    → s.linked ≡ true
    → s.current.pid ≢ 1
    → HasParents s
    → (r : Option Sched) × (exit status s ≡ switched r)
      × ((s' : Sched) → r ≡ some s' → HasParents s')
unfolding exit by_pid
exit-HasParents status s h ne v = elim (Parented-mid _ (kin s.before) (kin s.after) _ _ mid).0 [
  | inl first ↦ absurd (ne first)
  | inr there ↦
      let p = find_of_has s.current.ppid (queue s) (rw (kin-linked s h) there) in
      (
        switch_inner (bury status p.0 s),
        rw (not_first, by_pid) (rw p.1 refl),
        Switched-HasParents (bury-HasParents status p.0 s h ne v)
            (switch_inner-Switched (bury status p.0 s) (bury_unlocked status p.0 s)),
      )
]
  where
    not_first : (s.current.pid == 1) ≡ false
    not_first = ground arith

    mid :
        Parented
          (kin s.before ++ ((s.current.pid, s.current.ppid) ∷ kin s.after))
          (kin s.before ++ ((s.current.pid, s.current.ppid) ∷ kin s.after))
    mid = rw (← kin-linked s h) v.1
