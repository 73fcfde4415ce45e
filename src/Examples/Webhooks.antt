-- ===== src/Examples/Webhooks.antt =====
-- The webhook service in memory. The payloads are texts, and the keyed hash of a text is the text.
use application_workflow_ser.Base.{
  map, length, str_eq, Bool, String, ◌≡◌, refl, true, false, none, some, [], ◌∷◌, arith,
}
use application_workflow_ser.Base.Dict
use application_workflow_ser.Text.{Text, text, begins, decimal}
use application_workflow_ser.Mongo.Documents.{documents_in_memory, count_in, find_in, only}
use application_workflow_ser.Mongo.{update_dict}
use application_workflow_ser.Webhooks.{World}
use application_workflow_ser.Webhooks.Data.{
  WebhookEventType, batch_completed, EnumField, member, plain, Webhook, WebhookDelivery,
  WebhookCreate, Fresh, Creation, WebhookUpdate, Answer, answered, timed_out, Settings, Platform,
  Outcome, returned, value_error, invalid_document, is_final, is_disabled, same_event,
}
use application_workflow_ser.Webhooks.Registry.{
  owned, pick, begin_create, insert_new, new_webhook, is_refused, too_many, must_use_https,
  set_fields, find_and_update, get_webhook, update_webhook, rotate_secret, delete_webhook,
}
use application_workflow_ser.Webhooks.Deliveries.{
  Attempt, Failure, dispatch_event, matches, new_delivery, get_matching_webhooks, create_deliveries,
  create_delivery, retry_delay, failed_fields, failure_fields, delivered_fields, success_fields,
  permanent_fields, disabled_fields, shortened,
}
use application_workflow_ser.Webhooks.Sending.{
  deliver, mark_failed, send, after_post, mark_permanently_failed, update_webhook_failure,
  check_auto_disable, mark_delivered, sign_payload, caught, metrics_raise,
}
use application_workflow_ser.Webhooks.Steps.{begun, created, dispatched, attempted, Reach}
use application_workflow_ser.Webhooks.Balanced.{AllBalanced, run-Balanced}
use application_workflow_ser.Webhooks.Limits.{in_flight, Narrow, Limited, run-Limited}
use application_workflow_ser.Webhooks.Silent.{run-silent}
use application_workflow_ser.Webhooks.Owners.{Spared, calls-owned}
use application_workflow_ser.Webhooks.Failures.{Exhausted, mark_failed-schedules}

abbrev settings : Settings
settings = record {
  webhooks_enabled = true;
  webhook_max_retries = 2;
  webhook_auto_disable_threshold = 2;
  webhook_require_https = true;
  webhook_max_per_user = 10;
}

abbrev platform : (WebhookEventType → EnumField) → Platform
platform validated = record {
  Data = Text;
  hooks = documents_in_memory Webhook;
  queue = documents_in_memory (WebhookDelivery Text);
  settings = settings;
  validated = validated;
  encode_url = λ url. none;
  dumps = λ payload. payload.«data»;
  hmac_hex = λ secret message. message;
  isoformat = λ t. t ∷ [];
}

-- The platform as pydantic documents it, and one whose validation keeps the members.
abbrev plain_p : Platform
plain_p = platform plain

abbrev kept_p : Platform
kept_p = platform member

abbrev w0 : (p : Platform) → p.hooks.Store → p.queue.Store → World p
w0 p s t = record { webhooks = s; deliveries = t; sent = []; creating = [] }

abbrev fresh : Fresh
fresh = record { webhook_id = "wh_1"; secret = text "k"; now = 5 }

abbrev request : WebhookCreate
request = record {
  url = text "https://a";
  name = none;
  description = none;
  events = batch_completed ∷ [];
}

abbrev attempt : Answer → Attempt
attempt answer = record {
  answer = answer;
  duration_ms = 3;
  now = 100;
  failed_at = 101;
  disabled_at = 102;
}

abbrev failure : Failure
failure = record { error = text "no"; status_code = none; response_body = none }

abbrev hook : Webhook
hook = new_webhook fresh "ann" request

abbrev wish : Creation
wish = record { fresh = fresh; user_id = "ann"; request = request }

-- Runs of the service.
tests : Unit {0}
unfolding Dict.get Dict.put count_in find_in update_dict begin_create insert_new pick is_refused
    begins decimal too_many must_use_https dispatch_event get_matching_webhooks matches same_event
    create_deliveries create_delivery deliver send after_post mark_failed mark_permanently_failed
    update_webhook_failure check_auto_disable mark_delivered retry_delay failed_fields
    failure_fields delivered_fields success_fields permanent_fields disabled_fields shortened
    sign_payload caught metrics_raise update_webhook set_fields find_and_update get_webhook
tests = tt

-- One webhook, one event, one attempt.
module _ (validated : WebhookEventType → EnumField) where
  abbrev p : Platform
  p = platform validated

  abbrev s0 : World p
  s0 = w0 p [] []

  abbrev s1 : World p
  s1 = insert_new p wish [] (begin_create p fresh "ann" request s0).1

  abbrev s2 : World p
  s2 = (dispatch_event p (λ n. "del_1") (λ n. 7) batch_completed "ann" (text "x") s1).1

  abbrev s3 : World p
  s3 = (deliver p (attempt (answered 500 (text "down"))) "del_1" s2).1

  path_s3 : Reach p s0 s3
  unfolding Dict.get count_in begin_create is_refused begins pick
  path_s3 =
      Reach.later
        (Reach.later
          (Reach.later (Reach.later Reach.start (begun fresh "ann" request))
            (created 0 wish [] refl refl))
          (dispatched (λ n. "del_1") (λ n. 7) batch_completed "ann" (text "x")))
        (attempted (attempt (answered 500 (text "down"))) "del_1")

run-Balanced_example : AllBalanced kept_p (s3 member).webhooks
run-Balanced_example =
    run-Balanced kept_p (s0 member) (s3 member) (path_s3 member) (unfold Dict.get in λ k. tt)

-- Two creations of a user who may have one webhook, both checked before the first insertion.
abbrev small_p : Platform
small_p = record kept_p { settings = record settings { webhook_max_per_user = 1 } }

abbrev second : Creation
second = record wish { fresh = record fresh { webhook_id = "wh_2" } }

abbrev c0 : World small_p
c0 = w0 small_p [] []

abbrev c1 : World small_p
c1 = (begin_create small_p fresh "ann" request c0).1

abbrev c2 : World small_p
c2 = (begin_create small_p second.fresh "ann" request c1).1

abbrev c3 : World small_p
c3 = insert_new small_p wish (second ∷ []) c2

abbrev c4 : World small_p
c4 = insert_new small_p second [] c3

path_c4 : Narrow small_p "ann" 2 c0 c4
unfolding Dict.get Dict.put count_in begin_create insert_new is_refused begins pick in_flight
path_c4 =
    Narrow.later
      (Narrow.later
        (Narrow.later
          (Narrow.later (Narrow.start (omega arith)) (begun fresh "ann" request) (omega arith))
          (begun second.fresh "ann" request) (omega arith))
        (created 1 wish (second ∷ []) refl refl) (omega arith))
      (created 0 second [] refl refl) (omega arith)

run-Limited_example : Limited small_p "ann" 1 c4
run-Limited_example =
    run-Limited small_p "ann" 1 c0 c4 path_c4 (unfold in_flight count_in in omega arith)

-- The user has two webhooks then.
exceeds : small_p.hooks.count c4.webhooks (owned "ann") ≡ 2
exceeds = unfold tests in refl

run-silent_example : (s3 plain).sent ≡ []
run-silent_example = run-silent plain_p (λ e. refl) (s0 plain) (s3 plain) (path_s3 plain)

abbrev task : WebhookDelivery Text
task = new_delivery kept_p "del_1" 7 batch_completed (text "x") hook

abbrev loaded : (p : Platform) → p.hooks.Store → p.queue.Store → World p
loaded = w0

abbrev live : World plain_p
live = w0 plain_p (("wh_1", hook) ∷ []) (("del_1", task) ∷ [])

-- The second and last attempt, at a webhook that failed once.
abbrev tired : Webhook
tired = record hook { total_deliveries = 1; failed_deliveries = 1; consecutive_failures = 1 }

abbrev last_task : WebhookDelivery Text
last_task = record task { attempts = 1 }

abbrev weary : World kept_p
weary = w0 kept_p (("wh_1", tired) ∷ []) (("del_1", last_task) ∷ [])

mark_failed-schedules_example :
    (d : WebhookDelivery Text) × (h : Webhook) × (Dict.get
        (mark_failed kept_p (attempt timed_out) last_task tired failure weary).1.deliveries
        "del_1"
      ≡ some d)
    × (Dict.get
          (mark_failed kept_p (attempt timed_out) last_task tired failure weary).1.webhooks
          "wh_1"
        ≡ some h)
    × (d.attempts ≡ 2)
    × (d.error ≡ some (text "no"))
    × (h.total_deliveries ≡ 2)
    × (h.failed_deliveries ≡ 2)
    × (h.consecutive_failures ≡ 2)
    × Exhausted kept_p tired d h
mark_failed-schedules_example =
    mark_failed-schedules kept_p (attempt timed_out) last_task tired failure weary
      (unfold Dict.get in refl) (unfold Dict.get in refl)

abbrev rename : WebhookUpdate
rename = record {
  url = none;
  name = some (text "n");
  description = none;
  events = none;
  status = none;
}

calls-owned_example :
    Spared plain_p "bob" live (update_webhook plain_p "wh_1" "bob" rename 9 live).1
    × Spared plain_p "bob" live (rotate_secret plain_p (text "s") 9 "wh_1" "bob" live).1
    × Spared plain_p "bob" live (delete_webhook plain_p "wh_1" "bob" live).1
    × ((h : Webhook)
        → get_webhook plain_p "wh_1" "bob" live ≡ some h
        → let (b, v) = delete_webhook plain_p "wh_1" "bob" live in
          (b ≡ true)
          × (Dict.get v.webhooks "wh_1" ≡ none)
          × ((j : String)
              → only (λ d. str_eq d.webhook_id "wh_1") (Dict.get v.deliveries j) ≡ none))
    × (get_webhook plain_p "wh_1" "bob" live ≡ none
        → delete_webhook plain_p "wh_1" "bob" live ≡ (false, live))
calls-owned_example = calls-owned plain_p "bob" "wh_1" rename (text "s") 9 live

abbrev posted : Attempt → World kept_p → Outcome Bool × World kept_p
posted a = deliver kept_p a "del_1"

-- A delivery that succeeds sends one request and counts one success.
succeeds_once :
    let (o, v) = posted (attempt (answered 204 [])) (s2 member) in
    (o ≡ returned true)
    × (length v.sent ≡ 1)
    × (map (λ d. d.1.attempts) v.deliveries ≡ 1 ∷ [])
    × (map (λ h. h.1.successful_deliveries) v.webhooks ≡ 1 ∷ [])
succeeds_once = unfold tests in (refl, refl, refl, refl)

-- After one failure the next attempt is due a minute later.
fails_once :
    let v = s3 member in
    (map (λ d. d.1.next_retry_at) v.deliveries ≡ some 160 ∷ [])
    × (map (λ h. h.1.consecutive_failures) v.webhooks ≡ 1 ∷ [])
fails_once = unfold tests in (refl, refl)

-- After the second failure the webhook is disabled.
fails_twice :
    let v = (posted (attempt timed_out) (s3 member)).1 in
    (map (λ d. is_final d.1.status) v.deliveries ≡ true ∷ [])
    × (map (λ h. is_disabled h.1.status) v.webhooks ≡ true ∷ [])
fails_twice = unfold tests in (refl, refl)

abbrev moved : String → WebhookUpdate
moved url = record rename { url = some (text url) }

-- A URL without TLS is refused; one with it cannot be stored by an update.
refused :
    ((update_webhook plain_p "wh_1" "ann" (moved "http://b") 9 live).0
      ≡ value_error (text "Webhook URL must use HTTPS"))
    × ((update_webhook plain_p "wh_1" "ann" (moved "https://b") 9 live).0 ≡ invalid_document)
refused = unfold tests in (refl, refl)
