-- ===== src/Batch/Counts.antt =====
-- app/services/batch_service.py: what the counts of a batch say, at any time and at the end.
use application_workflow_ser.Base.{
  ℕ, suc, ◌+◌, ◌≡◌, refl, sym, String, Bool, true, false, some, List, [], ◌∷◌, ◌++◌, arith, length,
  length-append, if◌then◌else◌, inl, inr, Bool-cases, eq_iff, str_eq,
}
use application_workflow_ser.Base.Dict
use application_workflow_ser.Base.Dict.{Dict, get-put}
use application_workflow_ser.Text.{Text}
use application_workflow_ser.Errors.{Result, ok, raise}
use application_workflow_ser.Batch.{
  World, BatchData, BatchResult, Task, queued, at_item, done, process_item, item_result,
  final_status, submitted, ItemStatus,
}

is_submitted : ItemStatus → Bool
is_submitted submitted = true
is_submitted _ = false

unfoldable pub count_submitted : List BatchResult → ℕ
unfolding is_submitted
count_submitted [] = 0
count_submitted (r ∷ rs) =
    let rest = count_submitted rs in if is_submitted r.status then suc rest else rest

-- The results stand in the order of the items.
unfoldable pub Indexed : ℕ → List BatchResult → Type 0
Indexed n [] = Unit
Indexed n (r ∷ rs) = (r.index ≡ n) × Indexed (suc n) rs

-- The counts of a batch agree with its results.
pub record Counted (d : BatchData) : Type 0 where
  pub processed : d.processed ≡ length d.results
  pub succeeded : d.succeeded ≡ count_submitted d.results
  pub sum : d.succeeded + d.failed ≡ d.processed
  pub indexed : Indexed 0 d.results

-- How far a task is.
unfoldable pub Reached : BatchData → Task → Type 0
Reached d (queued n) = (d.processed ≡ 0) × (d.total ≡ n)
Reached d (at_item i left) = (d.processed ≡ i) × (i + left ≡ d.total)
Reached d done = (d.processed ≡ d.total) × (d.status ≡ final_status d.succeeded d.failed)

count-append :
    (rs : List BatchResult) (r : BatchResult)
    → count_submitted (rs ++ r ∷ []) ≡ count_submitted rs + count_submitted (r ∷ [])
unfolding count_submitted
count-append [] r = omega arith
count-append (q ∷ rs) r = ground (arith, count-append rs r)

Indexed-append :
    (n : ℕ) (rs : List BatchResult) (r : BatchResult)
    → Indexed n rs
    → r.index ≡ n + length rs
    → Indexed n (rs ++ r ∷ [])
unfolding Indexed
Indexed-append n [] r h e = (omega arith, tt)
Indexed-append n (q ∷ rs) r h e = (h.0, Indexed-append (suc n) rs r h.1 (omega arith))

item_result-index : (i : ℕ) (o : Result Text) → (item_result i o).1.index ≡ i
unfolding item_result
item_result-index i (ok []) = refl
item_result-index i (ok (c ∷ id)) = refl
item_result-index i (raise e) = refl

item_result-count :
    (i : ℕ) (o : Result Text)
    → count_submitted ((item_result i o).1 ∷ []) ≡ (if (item_result i o).0 then 1 else 0)
unfolding item_result count_submitted
item_result-count i (ok []) = refl
item_result-count i (ok (c ∷ id)) = refl
item_result-count i (raise e) = refl

pub process_item-Counted :
    (i : ℕ) (o : Result Text) (d : BatchData)
    → d.processed ≡ i
    → Counted d
    → Counted (process_item i o d)
unfolding process_item
process_item-Counted i o d e c = record {
  processed = omega (arith, length-append d.results ((item_result i o).1 ∷ []), c.processed);
  succeeded =
      rw (count-append d.results (item_result i o).1)
        (rw item_result-count (ground (arith, c.succeeded)));
  sum = ground (arith, c.sum);
  indexed =
      Indexed-append 0 d.results _ c.indexed (rw item_result-index (omega (arith, c.processed)));
}

-- Every batch has a task, and its counts agree with its results and with the task.
abbrev pub BatchFits : World → String → BatchData → Type 0
BatchFits w id d = Counted d × ((t : Task) × (Dict.get w.tasks id ≡ some t) × Reached d t)

pub record Fits (w : World) : Type 0 where
  pub fits : (id : String) (d : BatchData) → Dict.get w.store id ≡ some d → BatchFits w id d

-- A batch and its task are replaced together.
pub put-Fits :
    (w v : World) (id : String) (d : BatchData) (t : Task)
    → v.store ≡ Dict.put w.store id d
    → v.tasks ≡ Dict.put w.tasks id t
    → Fits w
    → Counted d
    → Reached d t
    → Fits v
put-Fits w v id d t e g f c r = record {
  fits = λ j q h. elim (Bool-cases (str_eq id j)) [
    | inl same ↦
        let is : d ≡ q = ground (arith, get-put w.store id d j, same, h, e) in
        rw (sym is) (c, (t, rw g (rw get-put (rw same refl)), r))
    | inr other ↦
        let (c', (t', h', r')) = f.fits j q (ground (arith, get-put w.store id d j, other, h, e)) in
        (c', (t', rw g (rw get-put (rw other h')), r'))
  ];
}

-- A batch changes and its task stays.
pub same_task-Fits :
    (w v : World) (id : String) (d : BatchData) (t : Task)
    → v.store ≡ Dict.put w.store id d
    → v.tasks ≡ w.tasks
    → Fits w
    → Dict.get w.tasks id ≡ some t
    → Counted d
    → Reached d t
    → Fits v
same_task-Fits w v id d t e g f k c r = record {
  fits = λ j q h. elim (Bool-cases (str_eq id j)) [
    | inl same ↦
        let is : d ≡ q = ground (arith, get-put w.store id d j, same, h, e) in
        rw (sym is) (c, (t, rw g (rw (sym ((eq_iff id j).0 same)) k), r))
    | inr other ↦
        let (c', (t', h', r')) = f.fits j q (ground (arith, get-put w.store id d j, other, h, e)) in
        (c', (t', rw g h', r'))
  ];
}

pub task_of :
    (w : World) (id : String) (d : BatchData) (t : Task)
    → Fits w
    → Dict.get w.store id ≡ some d
    → Dict.get w.tasks id ≡ some t
    → Reached d t
task_of w id d t f h g =
    let (c, (t', g', r)) = f.fits id d h in let is : t' ≡ t = cc in rw (sym is) r
