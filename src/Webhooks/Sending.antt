-- ===== src/Webhooks/Sending.antt =====
-- app/services/webhook_service.py: the execution of deliveries.
use application_workflow_ser.Base.{
  ℕ, ◌+◌, String, Bool, true, false, Option, none, some, List, ◌∷◌, ◌++◌, ltb, leb, if◌then◌else◌,
  take, str_eq, ◌&&◌,
}
use application_workflow_ser.Text.{Text, text, decimal}
use application_workflow_ser.Webhooks.{World}
use application_workflow_ser.Webhooks.Data.{
  WebhookEventType, application_submitted, is_disabled, is_delivered, is_final, Webhook,
  WebhookDelivery, WebhookPayload, value_of, Outcome, returned, value_error, attribute_error,
  invalid_document, Answer, answered, timed_out, raised, Request, Platform,
}
use application_workflow_ser.Webhooks.Registry.{get_webhook}
use application_workflow_ser.Webhooks.Deliveries.{
  retry_delay, shortened, Attempt, Failure, success_fields, failure_fields, disabled_fields, any,
  delivered_fields, failed_fields, permanent_fields, sooner, more_recent, is_due, create_delivery,
}

module _ (p : Platform) where
  open p use {Data, hooks, queue, settings, validated, dumps, hmac_hex, isoformat}

  unfoldable pub sign_payload : WebhookPayload Data → Text → Text
  sign_payload payload secret = text "sha256=" ++ hmac_hex secret (dumps payload)

  abbrev pub payload_of : WebhookDelivery Data → WebhookPayload Data
  payload_of d = record {
    id = d.id;
    event = d.event_type;
    created_at = isoformat d.created_at ++ text "Z";
    «data» = d.payload;
  }

  -- The request, where the header `X-Webhook-Event` says `event`.
  abbrev pub request_of : WebhookDelivery Data → Webhook → WebhookEventType → Request Data
  request_of d h event = record {
    url = h.url;
    json = payload_of d;
    signature = sign_payload (payload_of d) h.secret;
    event = event;
    delivery = d.id;
  }

  -- The metrics read `delivery.event_type.value`: whether that raises `AttributeError`.
  unfoldable pub metrics_raise : WebhookDelivery Data → Bool
  metrics_raise d = elim (value_of (validated d.event_type)) [ none ↦ true | some e ↦ false ]

  -- Whether the call raises at the metrics, after its updates.
  unfoldable pub mark_delivered :
      Attempt → WebhookDelivery Data → Webhook → ℕ → World p → Bool × World p
  unfolding metrics_raise
  mark_delivered a d h code w = (
    metrics_raise d,
    record w {
      deliveries =
          queue.update_one w.deliveries d.id any (delivered_fields a.now code a.duration_ms);
      webhooks = hooks.update_one w.webhooks h.id any (success_fields a.now);
    },
  )

  unfoldable pub mark_permanently_failed : WebhookDelivery Data → Text → World p → World p
  mark_permanently_failed d error w = record w {
    deliveries = queue.update_one w.deliveries d.id any (permanent_fields error);
  }

  unfoldable pub update_webhook_failure : ℕ → Webhook → Text → World p → World p
  update_webhook_failure now h error w = record w {
    webhooks = hooks.update_one w.webhooks h.id any (failure_fields now error);
  }

  unfoldable pub check_auto_disable : ℕ → Webhook → World p → World p
  check_auto_disable now h w = elim (hooks.find_one w.webhooks h.id) [
    | none ↦ w
    | some doc ↦
        if leb settings.webhook_auto_disable_threshold doc.consecutive_failures
        then record w { webhooks = hooks.update_one w.webhooks h.id any (disabled_fields now) }
        else w
  ]

  -- Whether the call raises at the metrics, which only a delivery with attempts left comes to.
  unfoldable pub mark_failed :
      Attempt → WebhookDelivery Data → Webhook → Failure → World p → Bool × World p
  unfolding mark_permanently_failed update_webhook_failure check_auto_disable metrics_raise
  mark_failed a d h f w =
      let new_attempts = d.attempts + 1 in
      if leb d.max_attempts new_attempts
      then (
        false,
        check_auto_disable a.disabled_at h
            (update_webhook_failure a.failed_at h f.error (mark_permanently_failed d f.error w)),
      )
      else (
        metrics_raise d,
        update_webhook_failure a.failed_at h f.error (record w {
          deliveries =
              queue.update_one w.deliveries d.id any
                (failed_fields (a.now + retry_delay new_attempts) f a.duration_ms);
        }),
      )

  -- What the call returns after its last update.
  abbrev pub ended : Bool → Bool × World p → Outcome Bool × World p
  ended b (true, v) = (attribute_error, v)
  ended b (false, v) = (returned b, v)

  abbrev pub plain_failure : Text → Failure
  plain_failure e = record { error = e; status_code = none; response_body = none }

  -- `except Exception` around the piece that has been sent: what raises there marks a failure.
  unfoldable pub caught :
      Attempt → WebhookDelivery Data → Webhook → Bool → Bool × World p → Outcome Bool × World p
  unfolding mark_failed
  caught a d h b (true, v) =
      ended false
        (mark_failed a d h (plain_failure (text "'str' object has no attribute 'value'")) v)
  caught a d h b (false, v) = (returned b, v)

  -- What `client.post` and the handlers after it do.
  unfoldable pub after_post :
      Attempt → Answer → WebhookDelivery Data → Webhook → World p → Outcome Bool × World p
  unfolding mark_delivered mark_failed caught
  after_post a (answered code body) d h w =
      if ltb code 300
      then caught a d h true (mark_delivered a d h code w)
      else caught a d h false (
          mark_failed a d h
            (record {
              error = text "HTTP " ++ decimal code;
              status_code = some code;
              response_body = shortened body;
            })
            w)
  after_post a timed_out d h w =
      ended false (mark_failed a d h (plain_failure (text "Request timeout")) w)
  after_post a (raised e) d h w = ended false (mark_failed a d h (plain_failure e) w)

  -- The headers read `delivery.event_type.value` before anything is sent.
  unfoldable pub send : Attempt → WebhookDelivery Data → Webhook → World p → Outcome Bool × World p
  unfolding after_post
  send a d h w = elim (value_of (validated d.event_type)) [
    | none ↦ (attribute_error, w)
    | some event ↦ after_post a a.answer d h (record w { sent = request_of d h event ∷ w.sent })
  ]

  unfoldable pub deliver : Attempt → String → World p → Outcome Bool × World p
  unfolding send mark_permanently_failed
  deliver a delivery_id w = elim (queue.find_one w.deliveries delivery_id) [
    | none ↦ (returned false, w)
    | some d ↦
        if is_final d.status
        then (returned (is_delivered d.status), w)
        else elim (hooks.find_one w.webhooks d.webhook_id) [
          | none ↦ (returned false, mark_permanently_failed d (text "Webhook deleted") w)
          | some h ↦
              if is_disabled h.status
              then (returned false, mark_permanently_failed d (text "Webhook disabled") w)
              else send a d h w
        ]
  ]

  unfoldable pub get_pending_deliveries : ℕ → ℕ → World p → List (WebhookDelivery Data)
  get_pending_deliveries now limit w =
      take limit (queue.find_sorted w.deliveries (is_due now) sooner)

  unfoldable pub list_deliveries : String → String → ℕ → World p → List (WebhookDelivery Data)
  list_deliveries webhook_id user_id limit w = take limit (
      queue.find_sorted w.deliveries
        (λ d. str_eq d.webhook_id webhook_id && str_eq d.user_id user_id) more_recent)

  -- What `test_webhook` returns.
  pub record TestResult : Type 0 where
    pub success : Bool
    pub delivery_id : String
    pub response_status : Option ℕ
    pub duration_ms : Option ℕ
    pub error : Option Text

  unfoldable pub test_result : Bool → String → Option (WebhookDelivery Data) → TestResult
  test_result success id none = record {
    success = success;
    delivery_id = id;
    response_status = none;
    duration_ms = none;
    error = none;
  }
  test_result success id (some d) = record {
    success = success;
    delivery_id = id;
    response_status = d.response_status;
    duration_ms = d.duration_ms;
    error = d.error;
  }

  -- What follows `deliver` there.
  unfoldable pub test_outcome : String → Outcome Bool → World p → Outcome TestResult
  unfolding test_result
  test_outcome id (returned success) w =
      returned (test_result success id (queue.find_one w.deliveries id))
  test_outcome id (value_error m) w = value_error m
  test_outcome id attribute_error w = attribute_error
  test_outcome id invalid_document w = invalid_document

  not_found : TestResult
  not_found = record {
    success = false;
    delivery_id = "";
    response_status = none;
    duration_ms = none;
    error = some (text "Webhook not found");
  }

  -- `test_webhook`, with the id and the time of the new delivery and its payload.
  unfoldable pub test_webhook :
      String → ℕ → Data → Attempt → String → String → World p → Outcome TestResult × World p
  unfolding get_webhook create_delivery deliver test_outcome not_found
  test_webhook id now payload a webhook_id user_id w = elim (get_webhook p webhook_id user_id w) [
    | none ↦ (returned not_found, w)
    | some h ↦
        let (o, v) = deliver a id (create_delivery p id now application_submitted payload h w) in
        (test_outcome id o v, v)
  ]
