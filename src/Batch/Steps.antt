-- ===== src/Batch/Steps.antt =====
-- app/services/batch_service.py: the pieces of the background tasks and the calls of the API, in any
-- order.
use application_workflow_ser.Base.{ℕ, suc, ◌≡◌, String, none, some, []}
use application_workflow_ser.Base.Dict
use application_workflow_ser.Text.{Text}
use application_workflow_ser.Errors.{Result}
use application_workflow_ser.Batch.{
  World, BatchData, queued, at_item, create_batch, begin_batch, item_step, finish_step,
  cancel_batch,
}

pub data Step (w : World) : World → Type 0 where
  -- A new batch, with a key that is not taken (`uuid4`).
  creates :
      (now : ℕ) (id user : String) (n : ℕ)
      → Dict.get w.store id ≡ none
      → Step w (create_batch now id user n w)
  begins :
      (id : String) (n : ℕ) (d : BatchData)
      → Dict.get w.tasks id ≡ some (queued n)
      → Dict.get w.store id ≡ some d
      → Step w (begin_batch id n d w)
  item :
      (id : String) (i left : ℕ) (outcome : Result Text) (d : BatchData)
      → Dict.get w.tasks id ≡ some (at_item i (suc left))
      → Dict.get w.store id ≡ some d
      → Step w (item_step id i left outcome d w)
  finishes :
      (id : String) (i now : ℕ) (d : BatchData)
      → Dict.get w.tasks id ≡ some (at_item i 0)
      → Dict.get w.store id ≡ some d
      → Step w (finish_step id i now d w)
  cancels : (now : ℕ) (id user : String) → Step w (cancel_batch now id user w).1

pub data Reach : World → Type 0 where
  start : Reach (record { store = []; tasks = []; updates = [] })
  later : {w v : World} → Reach w → Step w v → Reach v
