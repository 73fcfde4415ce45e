-- ===== src/Webhooks/Cases.antt =====
-- app/services/webhook_service.py: the branches of the calls, each with what is known there.
use application_workflow_ser.Base.{
  ◌≡◌, String, Bool, true, false, some, Option-cases, Bool-cases, inl, inr,
}
use application_workflow_ser.Text.{Text, text}
use application_workflow_ser.Webhooks.{World}
use application_workflow_ser.Webhooks.Data.{
  is_final, is_delivered, is_disabled, Webhook, WebhookDelivery, Outcome, returned, Platform,
}
use application_workflow_ser.Webhooks.Deliveries.{Attempt}
use application_workflow_ser.Webhooks.Sending.{deliver, send, mark_permanently_failed}

module _ (p : Platform) where
  open p use {Data, hooks, queue}

  module _ (a : Attempt) (id : String) (w : World p) (Q : Outcome Bool × World p → Type 0) where
    with_webhook :
        (d : WebhookDelivery Data)
        → queue.find_one w.deliveries id ≡ some d
        → is_final d.status ≡ false
        → ((m : Text) → Q (returned false, mark_permanently_failed p d m w))
        → ((h : Webhook)
            → hooks.find_one w.webhooks d.webhook_id ≡ some h
            → is_disabled h.status ≡ false
            → Q (send p a d h w))
        → Q (deliver p a id w)
    unfolding deliver
    with_webhook d hit open_ gone live =
        elim (Option-cases (hooks.find_one w.webhooks d.webhook_id)) [
          | inl miss ↦ rw (hit, open_, miss, deliver) (gone (text "Webhook deleted"))
          | inr (h, has) ↦ elim (Bool-cases (is_disabled h.status)) [
            | inl off ↦ rw (hit, open_, has, off, deliver) (gone (text "Webhook disabled"))
            | inr on ↦ rw (hit, open_, has, on, deliver) (live h has on)
          ]
        ]

    pub deliver-cases :
        Q (returned false, w)
        → ((d : WebhookDelivery Data)
            → queue.find_one w.deliveries id ≡ some d
            → is_final d.status ≡ true
            → Q (returned (is_delivered d.status), w))
        → ((d : WebhookDelivery Data) (m : Text)
            → queue.find_one w.deliveries id ≡ some d
            → is_final d.status ≡ false
            → Q (returned false, mark_permanently_failed p d m w))
        → ((d : WebhookDelivery Data) (h : Webhook)
            → queue.find_one w.deliveries id ≡ some d
            → is_final d.status ≡ false
            → hooks.find_one w.webhooks d.webhook_id ≡ some h
            → is_disabled h.status ≡ false
            → Q (send p a d h w))
        → Q (deliver p a id w)
    unfolding deliver
    deliver-cases missing final gone live = elim (Option-cases (queue.find_one w.deliveries id)) [
      | inl miss ↦ rw (miss, deliver) missing
      | inr (d, hit) ↦ elim (Bool-cases (is_final d.status)) [
        | inl over ↦ rw (hit, over, deliver) (final d hit over)
        | inr open_ ↦ with_webhook d hit open_ (λ m. gone d m hit open_) (λ h. live d h hit open_)
      ]
    ]
