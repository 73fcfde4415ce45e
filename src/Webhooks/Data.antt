-- ===== src/Webhooks/Data.antt =====
-- app/models/webhook.py, the settings of webhooks in app/core/config.py, and what the webhook service
-- uses that is no part of the program: collections, pydantic, json, hmac and the HTTP client.
use application_workflow_ser.Base.{ℕ, String, Bool, true, false, Option, none, some, List}
use application_workflow_ser.Text.{Text}
use application_workflow_ser.Mongo.Documents.{Documents}

pub data WebhookEventType : Type 0 where
  application_submitted application_processing application_completed : WebhookEventType
  application_failed batch_completed rate_limit_exceeded : WebhookEventType

-- `==` on event types.
unfoldable pub same_event : WebhookEventType → WebhookEventType → Bool
same_event application_submitted application_submitted = true
same_event application_processing application_processing = true
same_event application_completed application_completed = true
same_event application_failed application_failed = true
same_event batch_completed batch_completed = true
same_event rate_limit_exceeded rate_limit_exceeded = true
same_event _ _ = false

pub data WebhookStatus : Type 0 where
  active paused disabled : WebhookStatus

abbrev pub is_active : WebhookStatus → Bool
is_active active = true
is_active _ = false

abbrev pub is_disabled : WebhookStatus → Bool
is_disabled disabled = true
is_disabled _ = false

pub data DeliveryStatus : Type 0 where
  pending delivered failed permanently_failed : DeliveryStatus

abbrev pub is_delivered : DeliveryStatus → Bool
is_delivered delivered = true
is_delivered _ = false

-- `status in (DELIVERED, PERMANENTLY_FAILED)`
abbrev pub is_final : DeliveryStatus → Bool
is_final delivered = true
is_final permanently_failed = true
is_final _ = false

pub record Webhook : Type 0 where
  pub id : String
  pub user_id : String
  pub url : Text
  pub secret : Text
  pub name : Option Text
  pub description : Option Text
  pub events : List WebhookEventType
  pub status : WebhookStatus
  pub created_at : ℕ
  pub updated_at : ℕ
  pub total_deliveries : ℕ
  pub successful_deliveries : ℕ
  pub failed_deliveries : ℕ
  pub consecutive_failures : ℕ
  pub last_delivery_at : Option ℕ
  pub last_success_at : Option ℕ
  pub last_error : Option Text

-- The URL as `str(url)`.
pub record WebhookCreate : Type 0 where
  pub url : Text
  pub name : Option Text
  pub description : Option Text
  pub events : List WebhookEventType

-- The random tokens of a new webhook, and the time.
pub record Fresh : Type 0 where
  pub webhook_id : String
  pub secret : Text
  pub now : ℕ

-- A call of `create_webhook` that has passed the checks and waits for the insertion.
pub record Creation : Type 0 where
  pub fresh : Fresh
  pub user_id : String
  pub request : WebhookCreate

pub record WebhookUpdate : Type 0 where
  pub url : Option Text
  pub name : Option Text
  pub description : Option Text
  pub events : Option (List WebhookEventType)
  pub status : Option WebhookStatus

pub record WebhookDelivery (Data : Type 0) : Type 0 where
  pub id : String
  pub webhook_id : String
  pub user_id : String
  pub event_type : WebhookEventType
  pub payload : Data
  pub status : DeliveryStatus
  pub attempts : ℕ
  pub max_attempts : ℕ
  pub created_at : ℕ
  pub next_retry_at : Option ℕ
  pub delivered_at : Option ℕ
  pub response_status : Option ℕ
  pub response_body : Option Text
  pub error : Option Text
  pub duration_ms : Option ℕ

pub record WebhookPayload (Data : Type 0) : Type 0 where
  pub id : String
  pub event : WebhookEventType
  pub created_at : Text
  pub «data» : Data

pub record Settings : Type 0 where
  pub webhooks_enabled : Bool
  pub webhook_max_retries : ℕ
  pub webhook_auto_disable_threshold : ℕ
  pub webhook_require_https : Bool
  pub webhook_max_per_user : ℕ

-- The field `event_type` of a validated object: a member of the enumeration, or its value as a text.
pub data EnumField : Type 0 where
  member plain : WebhookEventType → EnumField

-- `.value` of the field; a text has none, and the read raises `AttributeError`.
abbrev pub value_of : EnumField → Option WebhookEventType
value_of (member e) = some e
value_of (plain e) = none

-- What a call returns or raises.
pub data Outcome {ℓ} (A : Type ℓ) : Type ℓ where
  returned : A → Outcome A
  value_error : Text → Outcome A
  attribute_error : Outcome A
  -- `bson.errors.InvalidDocument`
  invalid_document : Outcome A

-- What the HTTP client does with a request: a status code with a text, a timeout, or an exception.
pub data Answer : Type 0 where
  answered : ℕ → Text → Answer
  timed_out : Answer
  raised : Text → Answer

-- A request: its URL, its body and the headers that vary.
pub record Request (Data : Type 0) : Type 0 where
  pub url : Text
  pub json : WebhookPayload Data
  pub signature : Text
  pub event : WebhookEventType
  pub delivery : String

pub record Platform : Type 1 where
  -- `dict[str, Any]`
  pub Data : Type 0
  pub hooks : Documents Webhook
  pub queue : Documents (WebhookDelivery Data)
  pub settings : Settings
  -- what validation makes of the field `event_type` under `use_enum_values`
  pub validated : WebhookEventType → EnumField
  -- what the database stores for a validated `HttpUrl`, if it can
  pub encode_url : Text → Option Text
  -- `json.dumps(payload, sort_keys=True, default=str)`, the HMAC in hexadecimal, `isoformat`
  pub dumps : WebhookPayload Data → Text
  pub hmac_hex : Text → Text → Text
  pub isoformat : ℕ → Text
