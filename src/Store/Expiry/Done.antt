-- ===== src/Store/Expiry/Done.antt =====
-- What is left after `expire_tasks_and_leases`.
use stateful_core.Base.{
  Text, Bool, true, false, not, ◌&&◌, List, [], ◌∷◌, ◌≡◌, refl, sym, ap, ◌∙◌, subst, arith, Mem,
  ◌⊎◌, inl, inr, filter, update_where, if◌then◌else◌, Bool-cases, text_eq, text_eq_refl, ◌==◌,
  Mem-filter, filter-Mem, Mem-update_where,
}
use stateful_core.Coordination.{TaskStatus}
use stateful_core.Store.Tables.{Db, TaskRow, LeaseRow}
use stateful_core.Store.Context.{at_task, is_task}
use stateful_core.Store.Leases.{
  lease_of_task, in_flight_count, in_flight_slots, delete_leases, drain_leases,
}
use stateful_core.Store.Expiry.{
  task_due, lease_due, cancel_requests, fail_task, expire_task, expire_tasks, expire_lease,
  expire_leases, expire_tasks_and_leases,
}

-- Every due task of the database is named by the list.
NamedTasks : Text → List TaskRow → Db → Type 0
NamedTasks now ts db =
    (t : TaskRow)
    → Mem t db.tasks
    → task_due now t ≡ true
    → (s : TaskRow) × Mem s ts × (is_task s.workspace_id s.task_id t ≡ true)

NamedLeases : Text → List LeaseRow → Db → Type 0
NamedLeases now ls db =
    (l : LeaseRow)
    → Mem l db.leases
    → lease_due now l ≡ true
    → (s : LeaseRow) × Mem s ls × (text_eq l.batch_id s.batch_id ≡ true)

true_is_not_false : true ≡ false → ⊥
true_is_not_false h = cc

-- A row that an update leaves due is one that the update did not choose.
update-due :
    {A : Type 0} (p due : A → Bool) (f : A → A) (a : A) (xs : List A)
    → ((x : A) → due (f x) ≡ false)
    → Mem a (update_where p f xs)
    → due a ≡ true
    → Mem a xs × (p a ≡ false)
update-due p due f a xs never m yes_due =
    let (x, mx, e) = Mem-update_where p f a xs m in
    elim (Bool-cases (p x)) [
      | inl chosen ↦
          let undue = never x in
          elim (true_is_not_false
            (sym yes_due ∙ ap due (e ∙ ap (λ b. if b then f x else x) chosen) ∙ undue)) [ ]
      | inr spared ↦
          let same = e ∙ ap (λ b. if b then f x else x) spared in
          (subst (λ y. Mem y xs) (sym same) mx, ap p same ∙ spared)
    ]

-- A due task that is left was there before, and is another one.
expire_task-due :
    (now w i : Text) (db : Db) (t : TaskRow)
    → Mem t (expire_task now w i db).tasks
    → task_due now t ≡ true
    → Mem t db.tasks × (is_task w i t ≡ false)
unfolding expire_task delete_leases drain_leases
expire_task-due now w i db t = branch (in_flight_count w i db == 0)
  where
    branch :
        (c : Bool)
        → Mem t
            (if c
              then delete_leases
                  (lease_of_task w i)
                  (cancel_requests now w i (fail_task now w i TaskStatus.failed db))
              else drain_leases
                  (lease_of_task w i)
                  (cancel_requests now w i (fail_task now w i TaskStatus.draining db))).tasks
        → task_due now t ≡ true
        → Mem t db.tasks × (is_task w i t ≡ false)
    branch true m due = update-due (is_task w i) (task_due now) _ t db.tasks (λ x. refl) m due
    branch false m due = update-due (is_task w i) (task_due now) _ t db.tasks (λ x. refl) m due

not-true : (b : Bool) → not b ≡ true → b ≡ false
not-true b h = ground arith

drained : (b : Bool) → (b && false) ≡ false
drained b = ground arith

-- A due lease that is left was there before, and is of another batch.
expire_lease-due :
    (now b : Text) (db : Db) (l : LeaseRow)
    → Mem l (expire_lease b db).leases
    → lease_due now l ≡ true
    → Mem l db.leases × (text_eq l.batch_id b ≡ false)
unfolding expire_lease delete_leases drain_leases
expire_lease-due now b db l = branch (in_flight_slots b db == 0)
  where
    branch :
        (c : Bool)
        → Mem l
            (if c
              then delete_leases (λ x. text_eq x.batch_id b) db
              else drain_leases (λ x. text_eq x.batch_id b) db).leases
        → lease_due now l ≡ true
        → Mem l db.leases × (text_eq l.batch_id b ≡ false)
    branch true m due = let (old, kept) = Mem-filter _ l db.leases m in (old, not-true _ kept)
    branch false m due =
        update-due (λ (x : LeaseRow). text_eq x.batch_id b) (lease_due now) _ l db.leases
          (λ x. drained _) m due

expire_tasks-none_due :
    (now : Text) (ts : List TaskRow) (db : Db)
    → NamedTasks now ts db
    → (t : TaskRow) → Mem t (expire_tasks now ts db).tasks
    → task_due now t ≡ true
    → ⊥
unfolding expire_tasks NamedTasks
expire_tasks-none_due now [] db named t m due = (named t m due).1
expire_tasks-none_due now (s ∷ ts) db named t m due =
    expire_tasks-none_due now ts (expire_task now s.workspace_id s.task_id db) rest t m due
  where
    among :
        (x y : TaskRow)
        → (y ≡ s) ⊎ Mem y ts
        → is_task y.workspace_id y.task_id x ≡ true
        → is_task s.workspace_id s.task_id x ≡ false
        → (z : TaskRow) × Mem z ts × (is_task z.workspace_id z.task_id x ≡ true)
    among x y (inl here) match other =
        elim (true_is_not_false
          (sym match ∙ ap (λ (z : TaskRow). is_task z.workspace_id z.task_id x) here ∙ other)) [ ]
    among x y (inr there) match other = (y, there, match)

    rest : NamedTasks now ts (expire_task now s.workspace_id s.task_id db)
    rest x mx dx =
        let (old, other) = expire_task-due now s.workspace_id s.task_id db x mx dx in
        let (y, my, match) = named x old dx in among x y my match other

expire_leases-none_due :
    (now : Text) (ls : List LeaseRow) (db : Db)
    → NamedLeases now ls db
    → (l : LeaseRow) → Mem l (expire_leases ls db).leases
    → lease_due now l ≡ true
    → ⊥
unfolding expire_leases NamedLeases
expire_leases-none_due now [] db named l m due = (named l m due).1
expire_leases-none_due now (s ∷ ls) db named l m due =
    expire_leases-none_due now ls (expire_lease s.batch_id db) rest l m due
  where
    among :
        (x y : LeaseRow)
        → (y ≡ s) ⊎ Mem y ls
        → text_eq x.batch_id y.batch_id ≡ true
        → text_eq x.batch_id s.batch_id ≡ false
        → (z : LeaseRow) × Mem z ls × (text_eq x.batch_id z.batch_id ≡ true)
    among x y (inl here) match other =
        elim (true_is_not_false
          (sym match ∙ ap (λ (z : LeaseRow). text_eq x.batch_id z.batch_id) here ∙ other)) [ ]
    among x y (inr there) match other = (y, there, match)

    rest : NamedLeases now ls (expire_lease s.batch_id db)
    rest x mx dx =
        let (old, other) = expire_lease-due now s.batch_id db x mx dx in
        let (y, my, match) = named x old dx in among x y my match other

is_task-itself : (x : TaskRow) → is_task x.workspace_id x.task_id x ≡ true
unfolding at_task
is_task-itself x = simp (text_eq_refl)

expire_lease-tasks : (b : Text) (db : Db) → (expire_lease b db).tasks ≡ db.tasks
unfolding expire_lease delete_leases drain_leases
expire_lease-tasks b db = ground arith

never : (b : Bool) → (b ≡ true → ⊥) → b ≡ false
never true h = elim (h refl) [ ]
never false h = refl

-- The second loop leaves the tasks alone.
expire_leases-tasks : (ls : List LeaseRow) (db : Db) → (expire_leases ls db).tasks ≡ db.tasks
unfolding expire_leases
expire_leases-tasks [] db = refl
expire_leases-tasks (l ∷ ls) db =
    expire_leases-tasks ls (expire_lease l.batch_id db) ∙ expire_lease-tasks l.batch_id db

-- After the expiry that every command runs first, no task that is still active and no lease that is
-- still active is due at that time.
pub expire_tasks_and_leases-none_due :
    (now : Text) (db : Db)
    → ((t : TaskRow) → Mem t (expire_tasks_and_leases now db).tasks → task_due now t ≡ false)
      × ((l : LeaseRow) → Mem l (expire_tasks_and_leases now db).leases → lease_due now l ≡ false)
unfolding expire_tasks_and_leases NamedTasks NamedLeases at_task
expire_tasks_and_leases-none_due now db =
    let middle = expire_tasks now (filter (task_due now) db.tasks) db in
    (
      λ t m. never _ (λ due.
          expire_tasks-none_due now (filter (task_due now) db.tasks) db
            (λ x mx dx. (x, filter-Mem (task_due now) x db.tasks mx dx, is_task-itself x)) t
            (subst (Mem t) (expire_leases-tasks (filter (lease_due now) middle.leases) middle) m)
            due),
      λ l m. never _ (λ due.
          expire_leases-none_due now (filter (lease_due now) middle.leases) middle
            (λ x mx dx.
              (x, filter-Mem (lease_due now) x middle.leases mx dx, text_eq_refl x.batch_id))
            l m due),
    )
