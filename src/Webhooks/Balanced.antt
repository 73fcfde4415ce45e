-- ===== src/Webhooks/Balanced.antt =====
-- app/services/webhook_service.py: the delivery statistics of the webhooks.
use application_workflow_ser.Base.{ℕ, ◌+◌, ◌≤◌, ◌≡◌, refl, Bool, true, false, arith, if◌then◌else◌}
use application_workflow_ser.Webhooks.{World}
use application_workflow_ser.Webhooks.Data.{Webhook, Platform}
use application_workflow_ser.Webhooks.Registry.{reactivates, insert_new}
use application_workflow_ser.Webhooks.Deliveries.{success_fields, failure_fields, disabled_fields}
use application_workflow_ser.Webhooks.Every.{Every, insert-Every, update-Every, delete-Every}
use application_workflow_ser.Webhooks.Edits.{
  Change, sets, rotates, succeeds, fails, disables, Edits, unchanged, changes, deletes, Effect,
  edits, admits, inserts, step-Effect,
}
use application_workflow_ser.Webhooks.Steps.{Reach, Reach-keeps}

-- Every attempt succeeded or failed, and the failures in a row are failures.
abbrev pub Balanced : Webhook → Type 0
Balanced h =
    (h.total_deliveries ≡ h.successful_deliveries + h.failed_deliveries)
    × (h.consecutive_failures ≤ h.failed_deliveries)

reset-le : (b : Bool) (n m : ℕ) → n ≤ m → (if b then 0 else n) ≤ m
reset-le true n m h = omega (arith, h)
reset-le false n m h = h

Change-Balanced : (f : Webhook → Webhook) → Change f → (h : Webhook) → Balanced h → Balanced (f h)
unfolding success_fields failure_fields disabled_fields
Change-Balanced f (sets u url now) h (t, c) = (t, reset-le (reactivates u.status) _ _ c)
Change-Balanced f (rotates secret now) h b = b
Change-Balanced f (succeeds now) h (t, c) = (omega (arith, t), omega arith)
Change-Balanced f (fails now error) h (t, c) = (omega (arith, t), omega (arith, c))
Change-Balanced f (disables now) h b = b

module _ (p : Platform) where
  open p use {hooks}

  abbrev pub AllBalanced : hooks.Store → Type 0
  AllBalanced = Every Balanced hooks

  Edits-Balanced : (s t : hooks.Store) → Edits p s t → AllBalanced s → AllBalanced t
  Edits-Balanced s t unchanged b = b
  Edits-Balanced s t (changes k q f e x) b =
      update-Every Balanced hooks _ k q f (Change-Balanced f x) (Edits-Balanced s _ e b)
  Edits-Balanced s t (deletes k q) b = delete-Every Balanced hooks s k q b

  Effect-Balanced : (v w : World p) → Effect p v w → AllBalanced v.webhooks → AllBalanced w.webhooks
  unfolding insert_new
  Effect-Balanced v w (edits e) b = Edits-Balanced v.webhooks w.webhooks e.0 b
  Effect-Balanced v w (admits c space) b = b
  Effect-Balanced v w (inserts n c rest here free) b =
      insert-Every Balanced hooks v.webhooks c.fresh.webhook_id _ free (refl, omega arith) b

  -- Over any run of the calls, every webhook keeps the balance of its statistics: `total_deliveries` is
  -- the sum of `successful_deliveries` and `failed_deliveries`, and `consecutive_failures` is at most
  -- `failed_deliveries`, where it was so for all webhooks at the start.
  pub run-Balanced : (u w : World p) → Reach p u w → AllBalanced u.webhooks → AllBalanced w.webhooks
  run-Balanced u w =
      Reach-keeps p (λ x. AllBalanced x.webhooks)
        (λ v x s. Effect-Balanced v x (step-Effect p v x s))
