-- ===== src/Examples/Batch.antt =====
-- A batch of two items, cancelled after the first.
use application_workflow_ser.Base.{◌+◌, ◌≡◌, refl, true, none, some, [], ◌∷◌, length}
use application_workflow_ser.Base.Dict
use application_workflow_ser.Text.{Text, text}
use application_workflow_ser.Errors.{Result, ok}
use application_workflow_ser.Batch.{
  World, BatchData, BatchStatus, failed, completed, create_batch, begin_batch, item_step,
  finish_step, cancel_batch, cancel_found, cancelled, process_item, item_result, final_status,
  finish, new_batch, submitted, get_batch_status, owned,
}
use application_workflow_ser.Batch.Steps.{
  Reach, start, later, creates, begins, item, finishes, cancels,
}
use application_workflow_ser.Batch.Counts.{Counted}
use application_workflow_ser.Batch.Final.{batch-Counted, batch-final}

program : Unit {0}
unfolding create_batch begin_batch item_step finish_step cancel_batch cancel_found cancelled
    process_item item_result final_status finish Dict.get Dict.put get_batch_status owned
program = tt

abbrev item0 : Result Text
item0 = ok (text "a1")

abbrev d1 : BatchData
d1 = record (new_batch 1 "u" 2) { status = BatchStatus.processing }

abbrev d2 : BatchData
d2 = record d1 {
  processed = 1;
  succeeded = 1;
  results =
      record { index = 0; application_id = some (text "a1"); status = submitted; error = none }
      ∷ [];
}

abbrev d3 : BatchData
d3 = record d2 { status = failed; completed_at = some 5 }

abbrev w1 : World
w1 = create_batch 1 "b" "u" 2 (record { store = []; tasks = []; updates = [] })

abbrev w2 : World
w2 = begin_batch "b" 2 (new_batch 1 "u" 2) w1

abbrev w3 : World
w3 = item_step "b" 0 1 item0 d1 w2

abbrev w4 : World
w4 = (cancel_batch 5 "b" "u" w3).1

abbrev w5 : World
w5 = item_step "b" 1 0 item0 d3 w4

-- The cancellation answers true, and the batch still ends as completed.
cancel_runs : ((cancel_batch 5 "b" "u" w3).0 ≡ true) × (Dict.get w4.store "b" ≡ some d3)
unfolding program
cancel_runs = (refl, refl)

abbrev d4 : BatchData
d4 = process_item 1 item0 d3

abbrev d5 : BatchData
d5 = finish 9 d4

abbrev w6 : World
w6 = finish_step "b" 2 9 d4 w5

final_runs : (Dict.get w6.store "b" ≡ some d5) × (d5.status ≡ completed)
unfolding program
final_runs = (refl, refl)

w6-Reach : Reach w6
unfolding program
w6-Reach =
    later
      (later
        (later
          (later
            (later (later start (creates 1 "b" "u" 2 refl))
              (begins "b" 2 (new_batch 1 "u" 2) refl refl))
            (item "b" 0 1 item0 d1 refl refl))
          (cancels 5 "b" "u"))
        (item "b" 1 0 item0 d3 refl refl))
      (finishes "b" 2 9 d4 refl refl)

batch-Counted_example : Counted d5
batch-Counted_example = batch-Counted w6 "b" d5 w6-Reach (unfold program in refl)

batch-final_example :
    (d5.succeeded + d5.failed ≡ d5.total)
    × (length d5.results ≡ d5.total)
    × (d5.status ≡ final_status d5.succeeded d5.failed)
batch-final_example =
    batch-final w6 "b" d5 w6-Reach (unfold program in refl) (unfold program in refl)
