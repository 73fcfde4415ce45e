-- ===== src/Batch/Final.antt =====
-- app/services/batch_service.py: every piece of a task and every call keeps the counts, and what holds
-- once a batch is done.
use application_workflow_ser.Base.{
  ℕ, suc, ◌+◌, ◌≡◌, refl, String, true, false, some, arith, length, inl, inr, Bool-cases,
  Option-cases, str_eq, ◌⊎◌,
}
use application_workflow_ser.Base.Dict
use application_workflow_ser.Base.Dict.{Dict, get-put}
use application_workflow_ser.Text.{Text}
use application_workflow_ser.Errors.{Result}
use application_workflow_ser.Batch.{
  failed, is_open, World, BatchData, Task, queued, at_item, done, create_batch, begin_batch,
  item_step, finish_step, cancel_batch, process_item, final_status, finish, new_batch, cancelled,
  cancel_found,
}
use application_workflow_ser.Batch.Steps.{
  Step, creates, begins, item, finishes, cancels, Reach, start, later,
}
use application_workflow_ser.Batch.Counts.{
  count_submitted, Indexed, Counted, Reached, Fits, process_item-Counted, put-Fits, same_task-Fits,
  task_of,
}

stopped : ℕ → BatchData → BatchData
stopped now d = record d { status = failed; completed_at = some now }

cancelled-cases :
    (now : ℕ) (user : String) (d : BatchData)
    → ((cancelled now user d).1 ≡ d)
      ⊎ ((is_open d.status ≡ true) × ((cancelled now user d).1 ≡ stopped now d))
unfolding cancelled stopped
cancelled-cases now user d = elim (Bool-cases (str_eq d.user_id user)) [
  | inr stranger ↦ rw stranger (inl refl)
  | inl owner ↦ elim (Bool-cases (is_open d.status)) [
    | inl yes' ↦ rw owner (rw yes' (inr (refl, refl)))
    | inr no' ↦ rw owner (rw no' (inl refl))
  ]
]

final-closed : (s f : ℕ) → is_open (final_status s f) ≡ false
unfolding final_status
final-closed s f = ground arith

stopped-Counted : (now : ℕ) (d : BatchData) → Counted d → Counted (stopped now d)
unfolding stopped
stopped-Counted now d c = record {
  processed = c.processed;
  succeeded = c.succeeded;
  sum = c.sum;
  indexed = c.indexed;
}

stopped-Reached :
    (now : ℕ) (d : BatchData) (t : Task)
    → is_open d.status ≡ true
    → Reached d t
    → Reached (stopped now d) t
unfolding stopped Reached
stopped-Reached now d (queued n) o r = r
stopped-Reached now d (at_item i left) o r = r
stopped-Reached now d done o r = ground (arith, final-closed d.succeeded d.failed, r.1, o)

cancel-Fits :
    (now : ℕ) (id user : String) (w : World) → Fits w → Fits (cancel_batch now id user w).1
unfolding cancel_batch cancel_found
cancel-Fits now id user w f = elim (Option-cases (Dict.get w.store id)) [
  | inl none' ↦ rw none' f
  | inr (d, hit) ↦ rw hit (
      let (c, (t, g, r)) = f.fits id d hit in
      elim (cancelled-cases now user d) [
        | inl same ↦ rw same (same_task-Fits w _ id d t refl refl f g c r)
        | inr (o, stop) ↦ rw stop (
            same_task-Fits w _ id (stopped now d) t refl refl f g (stopped-Counted now d c)
              (stopped-Reached now d t o r))
      ])
]

create-Fits :
    (now : ℕ) (id user : String) (n : ℕ) (w : World) → Fits w → Fits (create_batch now id user n w)
unfolding create_batch
create-Fits now id user n w f =
    put-Fits w _ id (new_batch now user n) (queued n) refl refl f
      record {
        processed = refl;
        succeeded = unfold count_submitted in refl;
        sum = omega arith;
        indexed = unfold Indexed in tt;
      }
      (unfold Reached in (refl, refl))

begin-Fits :
    (id : String) (n : ℕ) (d : BatchData) (w : World)
    → Dict.get w.tasks id ≡ some (queued n)
    → Dict.get w.store id ≡ some d
    → Fits w
    → Fits (begin_batch id n d w)
unfolding begin_batch Reached
begin-Fits id n d w g h f =
    let (c, _) = f.fits id d h in
    let r = task_of w id d (queued n) f h g in
    put-Fits w _ id _ (at_item 0 n) refl refl f
      record { processed = c.processed; succeeded = c.succeeded; sum = c.sum; indexed = c.indexed }
      (r.0, omega (arith, r.1))

item-Fits :
    (id : String) (i left : ℕ) (o : Result Text) (d : BatchData) (w : World)
    → Dict.get w.tasks id ≡ some (at_item i (suc left))
    → Dict.get w.store id ≡ some d
    → Fits w
    → Fits (item_step id i left o d w)
unfolding item_step Reached
item-Fits id i left o d w g h f =
    let (c, _) = f.fits id d h in
    let r = task_of w id d (at_item i (suc left)) f h g in
    put-Fits w _ id (process_item i o d) (at_item (suc i) left) refl refl f
      (process_item-Counted i o d r.0 c) (omega (arith, r.0), omega (arith, r.1))

finish-Fits :
    (id : String) (i now : ℕ) (d : BatchData) (w : World)
    → Dict.get w.tasks id ≡ some (at_item i 0)
    → Dict.get w.store id ≡ some d
    → Fits w
    → Fits (finish_step id i now d w)
unfolding finish_step Reached finish
finish-Fits id i now d w g h f =
    let (c, _) = f.fits id d h in
    let r = task_of w id d (at_item i 0) f h g in
    put-Fits w _ id _ done refl refl f
      record { processed = c.processed; succeeded = c.succeeded; sum = c.sum; indexed = c.indexed }
      (omega (arith, r.0, r.1), refl)

step-Fits : (w v : World) → Step w v → Fits w → Fits v
step-Fits w v (creates now id user n h) f = create-Fits now id user n w f
step-Fits w v (begins id n d g h) f = begin-Fits id n d w g h f
step-Fits w v (item id i left o d g h) f = item-Fits id i left o d w g h f
step-Fits w v (finishes id i now d g h) f = finish-Fits id i now d w g h f
step-Fits w v (cancels now id user) f = cancel-Fits now id user w f

reach-Fits : (w : World) → Reach w → Fits w
unfolding Dict.get
reach-Fits w start = record { fits = λ id d h. cc }
reach-Fits w (later {w = v} before step) = step-Fits v w step (reach-Fits v before)

-- At any time, however the tasks and calls interleave, a batch counts the results it has, their number
-- is the number of items processed, the submitted ones are the succeeded, the others the failed, and
-- they stand in the order of the items.
pub batch-Counted :
    (w : World) (id : String) (d : BatchData) → Reach w → Dict.get w.store id ≡ some d → Counted d
batch-Counted w id d r h = ((reach-Fits w r).fits id d h).0

-- Once the task of a batch is done, however tasks and calls interleaved, every item is processed and
-- the status follows from the counts alone, also when a cancellation was accepted on the way.
pub batch-final :
    (w : World) (id : String) (d : BatchData)
    → Reach w
    → Dict.get w.tasks id ≡ some done
    → Dict.get w.store id ≡ some d
    → (d.succeeded + d.failed ≡ d.total)
      × (length d.results ≡ d.total)
      × (d.status ≡ final_status d.succeeded d.failed)
batch-final w id d r g h =
    let f = reach-Fits w r in
    let c = (f.fits id d h).0 in
    let t = task_of w id d done f h g in
    unfold Reached in (omega (arith, c.sum, t.0), omega (arith, c.processed, t.0), t.1)
