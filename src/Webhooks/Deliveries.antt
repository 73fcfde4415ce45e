-- ===== src/Webhooks/Deliveries.antt =====
-- app/services/webhook_service.py: dispatching of events, and deliveries.
use application_workflow_ser.Base.{
  ℕ, zero, suc, ◌+◌, ◌-◌, min, String, Bool, true, false, not, ◌&&◌, ◌||◌, Option, none, some, List,
  [], ◌∷◌, leb, if◌then◌else◌, length, take,
}
use application_workflow_ser.Text.{Text}
use application_workflow_ser.Webhooks.{World}
use application_workflow_ser.Webhooks.Data.{
  WebhookEventType, same_event, is_active, disabled, pending, delivered, failed, permanently_failed,
  is_final, Webhook, WebhookDelivery, Answer, Platform,
}
use application_workflow_ser.Webhooks.Registry.{owned}

-- `RETRY_DELAYS`, in seconds: 1 minute, 5 minutes, 15 minutes, 1 hour, 4 hours.
abbrev pub retry_delays : List ℕ
retry_delays = 60 ∷ 300 ∷ 900 ∷ 3600 ∷ 14400 ∷ []

-- `xs[i]`, which the program never takes past the end: 0 stands for `IndexError`.
abbrev pub get_elem : List ℕ → ℕ → ℕ
get_elem [] i = 0
get_elem (x ∷ xs) zero = x
get_elem (x ∷ xs) (suc i) = get_elem xs i

unfoldable pub retry_delay : ℕ → ℕ
retry_delay new_attempts = get_elem retry_delays (min (new_attempts - 1) (length retry_delays - 1))

abbrev pub subscribes : List WebhookEventType → WebhookEventType → Bool
subscribes [] e = false
subscribes (x ∷ xs) e = same_event x e || subscribes xs e

-- The filter of `_get_matching_webhooks`.
unfoldable pub matches : String → WebhookEventType → Webhook → Bool
matches user_id e h = owned user_id h && is_active h.status && subscribes h.events e

-- `response.text[:1000] if response.text else None`
unfoldable pub shortened : Text → Option Text
shortened [] = none
shortened (c ∷ s) = some (take 1000 (c ∷ s))

-- An attempt to deliver: what the client answers, its duration, and the times that the calls read.
pub record Attempt : Type 0 where
  pub answer : Answer
  pub duration_ms : ℕ
  pub now : ℕ
  pub failed_at : ℕ
  pub disabled_at : ℕ

-- What a failed attempt is marked with.
pub record Failure : Type 0 where
  pub error : Text
  pub status_code : Option ℕ
  pub response_body : Option Text

-- The updates of a webhook's statistics.
unfoldable pub success_fields : ℕ → Webhook → Webhook
success_fields now h = record h {
  last_delivery_at = some now;
  last_success_at = some now;
  consecutive_failures = 0;
  last_error = none;
  total_deliveries = h.total_deliveries + 1;
  successful_deliveries = h.successful_deliveries + 1;
}

unfoldable pub failure_fields : ℕ → Text → Webhook → Webhook
failure_fields now error h = record h {
  last_delivery_at = some now;
  last_error = some error;
  total_deliveries = h.total_deliveries + 1;
  failed_deliveries = h.failed_deliveries + 1;
  consecutive_failures = h.consecutive_failures + 1;
}

unfoldable pub disabled_fields : ℕ → Webhook → Webhook
disabled_fields now h = record h { status = disabled; updated_at = now }

-- A filter on the id alone.
abbrev pub any : {D : Type 0} → D → Bool
any d = true

module _ {Data : Type 0} where
  -- The updates of a delivery.
  unfoldable pub delivered_fields : ℕ → ℕ → ℕ → WebhookDelivery Data → WebhookDelivery Data
  delivered_fields now code duration d = record d {
    status = delivered;
    delivered_at = some now;
    response_status = some code;
    duration_ms = some duration;
    attempts = d.attempts + 1;
  }

  unfoldable pub failed_fields : ℕ → Failure → ℕ → WebhookDelivery Data → WebhookDelivery Data
  failed_fields next_retry f duration d = record d {
    status = failed;
    next_retry_at = some next_retry;
    response_status = f.status_code;
    response_body = f.response_body;
    error = some f.error;
    duration_ms = some duration;
    attempts = d.attempts + 1;
  }

  unfoldable pub permanent_fields : Text → WebhookDelivery Data → WebhookDelivery Data
  permanent_fields error d = record d {
    status = permanently_failed;
    error = some error;
    next_retry_at = none;
    attempts = d.attempts + 1;
  }

  -- `.sort("next_retry_at", 1)`, where no time comes first, and `.sort("created_at", -1)`.
  abbrev pub sooner : WebhookDelivery Data → WebhookDelivery Data → Bool
  sooner a b = elim a.next_retry_at [
    | none ↦ true
    | some s ↦ elim b.next_retry_at [ none ↦ false | some t ↦ leb s t ]
  ]

  abbrev pub more_recent : WebhookDelivery Data → WebhookDelivery Data → Bool
  more_recent a b = leb b.created_at a.created_at

  -- The filter of `get_pending_deliveries`.
  unfoldable pub is_due : ℕ → WebhookDelivery Data → Bool
  is_due now d =
      not (is_final d.status) && (elim d.next_retry_at [ none ↦ false | some t ↦ leb t now ])

module _ (p : Platform) where
  open p use {Data, hooks, queue, settings, validated, dumps, hmac_hex, isoformat}

  unfoldable pub get_matching_webhooks : String → WebhookEventType → World p → List Webhook
  get_matching_webhooks user_id e w = hooks.find w.webhooks (matches user_id e)

  abbrev pub new_delivery : String → ℕ → WebhookEventType → Data → Webhook → WebhookDelivery Data
  new_delivery id now e payload h = record {
    id = id;
    webhook_id = h.id;
    user_id = h.user_id;
    event_type = e;
    payload = payload;
    status = pending;
    attempts = 0;
    max_attempts = settings.webhook_max_retries;
    created_at = now;
    next_retry_at = some now;
    delivered_at = none;
    response_status = none;
    response_body = none;
    error = none;
    duration_ms = none;
  }

  -- `_create_delivery`, with the id made of a random token, and the time.
  unfoldable pub create_delivery :
      String → ℕ → WebhookEventType → Data → Webhook → World p → World p
  create_delivery id now e payload h w = record w {
    deliveries = queue.insert_one w.deliveries id (new_delivery id now e payload h);
  }

  -- The loop of `dispatch_event`: the n-th webhook gets the n-th id and time.
  unfoldable pub create_deliveries :
      (ℕ → String)
      → (ℕ → ℕ)
      → WebhookEventType
      → Data
      → ℕ
      → List Webhook
      → World p
      → List String × World p
  unfolding create_delivery
  create_deliveries id now e payload n [] w = ([], w)
  create_deliveries id now e payload n (h ∷ hs) w =
      let (ids, v) =
        create_deliveries id now e payload (suc n) hs
          (create_delivery (id n) (now n) e payload h w) in
      (id n ∷ ids, v)

  unfoldable pub dispatch_event :
      (ℕ → String) → (ℕ → ℕ) → WebhookEventType → String → Data → World p → List String × World p
  unfolding create_deliveries get_matching_webhooks
  dispatch_event id now e user_id payload w =
      if settings.webhooks_enabled
      then create_deliveries id now e payload 0 (get_matching_webhooks user_id e w) w
      else ([], w)
