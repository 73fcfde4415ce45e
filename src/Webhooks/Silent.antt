-- ===== src/Webhooks/Silent.antt =====
-- app/services/webhook_service.py: deliveries where validation stores the event type as a text, as
-- pydantic documents for `use_enum_values`.
use application_workflow_ser.Base.{
  ℕ, suc, ◌≡◌, refl, ap, ◌∙◌, String, List, [], ◌∷◌, Option-cases, Bool-cases, inl, inr,
}
use application_workflow_ser.Webhooks.{World}
use application_workflow_ser.Webhooks.Data.{
  WebhookEventType, plain, Webhook, WebhookDelivery, attribute_error, Platform,
}
use application_workflow_ser.Webhooks.Registry.{
  insert_new, update_fields, secret_fields, get_webhook, set_fields, delete_webhook, rotate_secret,
}
use application_workflow_ser.Webhooks.Deliveries.{
  Attempt, create_deliveries, create_delivery, dispatch_event, get_matching_webhooks,
}
use application_workflow_ser.Webhooks.Sending.{mark_permanently_failed, send, deliver, test_webhook}
use application_workflow_ser.Webhooks.Steps.{
  Step, begun, created, updated, removed, rotated, dispatched, attempted, tested, Reach,
  Reach-keeps,
}
use application_workflow_ser.Webhooks.Cases.{deliver-cases}
use application_workflow_ser.Webhooks.Branches.{begin-cases, find_and_update-cases, update-cases}

module _ (p : Platform) (is_plain : (e : WebhookEventType) → p.validated e ≡ plain e) where
  open p use {Data, hooks, queue, settings}

  send-plain :
      (a : Attempt) (d : WebhookDelivery Data) (h : Webhook) (w : World p)
      → send p a d h w ≡ (attribute_error, w)
  unfolding send
  send-plain a d h w = rw (is_plain d.event_type, send) refl

  deliver-sent : (a : Attempt) (id : String) (w : World p) → (deliver p a id w).1.sent ≡ w.sent
  unfolding mark_permanently_failed
  deliver-sent a id w =
      deliver-cases p a id w (λ x. x.1.sent ≡ w.sent) refl (λ d _ _. refl) (λ d m _ _. refl)
        (λ d h _ _ _ _. ap (λ x. x.1.sent) (send-plain a d h w))

  create_deliveries-sent :
      (id : ℕ → String) (now : ℕ → ℕ) (e : WebhookEventType) (payload : Data) (n : ℕ)
      (hs : List Webhook) (w : World p)
      → (create_deliveries p id now e payload n hs w).1.sent ≡ w.sent
  unfolding create_deliveries create_delivery
  create_deliveries-sent id now e payload n [] w = refl
  create_deliveries-sent id now e payload n (h ∷ hs) w =
      create_deliveries-sent id now e payload (suc n) hs _

  step-sent : (v w : World p) → Step p v w → w.sent ≡ v.sent
  unfolding insert_new set_fields delete_webhook rotate_secret dispatch_event test_webhook
      create_delivery
  step-sent v w (begun fresh user_id c) =
      begin-cases p fresh user_id c v (λ x. x.1.sent ≡ v.sent) (λ m. refl) (λ _. refl)
  step-sent v w (created n c rest here free) = refl
  step-sent v w (updated webhook_id user_id u now) =
      update-cases p webhook_id user_id u now v (λ x. x.1.sent ≡ v.sent) (λ o. refl)
        (λ url.
          find_and_update-cases p webhook_id user_id (update_fields u url now) v
            (λ x. x.1.sent ≡ v.sent) refl (λ h _. refl))
  step-sent v w (removed webhook_id user_id) =
      elim (Option-cases (get_webhook p webhook_id user_id v)) [
        | inl miss ↦ rw (miss, delete_webhook) refl
        | inr (h, hit) ↦ rw (hit, delete_webhook) refl
      ]
  step-sent v w (rotated secret now webhook_id user_id) =
      find_and_update-cases p webhook_id user_id (secret_fields secret now) v
        (λ x. x.1.sent ≡ v.sent) refl (λ h _. refl)
  step-sent v w (dispatched id now e user_id payload) =
      elim (Bool-cases settings.webhooks_enabled) [
        | inl on ↦
            rw (on, dispatch_event)
              (create_deliveries-sent id now e payload 0 (get_matching_webhooks p user_id e v) v)
        | inr off ↦ rw (off, dispatch_event) refl
      ]
  step-sent v w (attempted a id) = deliver-sent a id v
  step-sent v w (tested id now payload a webhook_id user_id) =
      elim (Option-cases (get_webhook p webhook_id user_id v)) [
        | inl miss ↦ rw (miss, test_webhook) refl
        | inr (h, hit) ↦ rw (hit, test_webhook) (deliver-sent a id _)
      ]

  -- Over any run of the calls no request is sent, where validation stores event types as texts.
  pub run-silent : (u w : World p) → Reach p u w → w.sent ≡ u.sent
  run-silent u w r = Reach-keeps p (λ x. x.sent ≡ u.sent) (λ v x s h. step-sent v x s ∙ h) r refl
