-- ===== src/Webhooks/Steps.antt =====
-- app/services/webhook_service.py: the calls of the service, in any order.
use application_workflow_ser.Base.{ℕ, ◌≡◌, String, none, some, List}
use application_workflow_ser.Text.{Text}
use application_workflow_ser.Webhooks.{World}
use application_workflow_ser.Webhooks.Data.{
  WebhookEventType, WebhookCreate, Fresh, Creation, WebhookUpdate, Platform,
}
use application_workflow_ser.Webhooks.Registry.{
  pick, begin_create, insert_new, update_webhook, delete_webhook, rotate_secret,
}
use application_workflow_ser.Webhooks.Deliveries.{Attempt, dispatch_event}
use application_workflow_ser.Webhooks.Sending.{deliver, test_webhook}

module _ (p : Platform) where
  open p use {Data, hooks, queue}

  -- A piece of a call: of a creation, its checks or its insertion, whose id is on no webhook yet; all
  -- other calls are one piece.
  pub data Step (w : World p) : World p → Type 0 where
    begun :
        (fresh : Fresh) (user_id : String) (c : WebhookCreate)
        → Step w (begin_create p fresh user_id c w).1
    created :
        (n : ℕ) (c : Creation) (rest : List Creation)
        → pick n w.creating ≡ some (c, rest)
        → hooks.find_one w.webhooks c.fresh.webhook_id ≡ none
        → Step w (insert_new p c rest w)
    updated :
        (webhook_id user_id : String) (u : WebhookUpdate) (now : ℕ)
        → Step w (update_webhook p webhook_id user_id u now w).1
    removed : (webhook_id user_id : String) → Step w (delete_webhook p webhook_id user_id w).1
    rotated :
        (secret : Text) (now : ℕ) (webhook_id user_id : String)
        → Step w (rotate_secret p secret now webhook_id user_id w).1
    dispatched :
        (id : ℕ → String) (now : ℕ → ℕ) (e : WebhookEventType) (user_id : String) (payload : Data)
        → Step w (dispatch_event p id now e user_id payload w).1
    attempted : (a : Attempt) (id : String) → Step w (deliver p a id w).1
    tested :
        (id : String) (now : ℕ) (payload : Data) (a : Attempt) (webhook_id user_id : String)
        → Step w (test_webhook p id now payload a webhook_id user_id w).1

  pub data Reach (u : World p) : World p → Type 0 where
    start : Reach u u
    later : {v w : World p} → Reach u v → Step v w → Reach u w

  -- What every step keeps, a run keeps.
  pub Reach-keeps :
      (P : World p → Type 0)
      → ((v w : World p) → Step v w → P v → P w)
      → {u w : World p} → Reach u w
      → P u
      → P w
  Reach-keeps P k start h = h
  Reach-keeps P k (later r s) h = k _ _ s (Reach-keeps P k r h)
