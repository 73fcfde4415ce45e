-- ===== src/Webhooks/Branches.antt =====
-- app/services/webhook_service.py: the branches of the calls that change registrations, each with what
-- is known there.
use application_workflow_ser.Base.{
  ℕ, ◌≡◌, String, false, leb, Option, none, some, ◌∷◌, Option-cases, Bool-cases, inl, inr,
}
use application_workflow_ser.Text.{Text}
use application_workflow_ser.Webhooks.{World}
use application_workflow_ser.Webhooks.Data.{
  Webhook, WebhookCreate, Fresh, WebhookUpdate, Outcome, returned, value_error, invalid_document,
  Platform,
}
use application_workflow_ser.Webhooks.Registry.{
  owned, is_empty, too_many, must_use_https, is_refused, begin_create, get_webhook, find_and_update,
  set_fields, update_webhook,
}

module _ (p : Platform) where
  open p use {hooks, settings, encode_url}

  pub begin-cases :
      (fresh : Fresh) (user_id : String) (c : WebhookCreate) (w : World p)
      (Q : Option Text × World p → Type 0)
      → ((m : Text) → Q (some m, w))
      → (leb settings.webhook_max_per_user (hooks.count w.webhooks (owned user_id)) ≡ false
          → Q (
            none,
            record w {
              creating = record { fresh = fresh; user_id = user_id; request = c } ∷ w.creating;
            },
          ))
      → Q (begin_create p fresh user_id c w)
  unfolding begin_create
  begin-cases fresh user_id c w Q fails done =
      elim (Bool-cases
        (leb settings.webhook_max_per_user (hooks.count w.webhooks (owned user_id)))) [
          | inl full ↦ rw (full, begin_create) (fails (too_many p))
          | inr space ↦ elim (Bool-cases (is_refused p c.url)) [
            | inl bad ↦ rw (space, bad, begin_create) (fails (must_use_https p))
            | inr good ↦ rw (space, good, begin_create) (done space)
          ]
        ]

  pub find_and_update-cases :
      (webhook_id user_id : String) (f : Webhook → Webhook) (w : World p)
      (Q : Option Webhook × World p → Type 0)
      → Q (none, w)
      → ((h : Webhook)
          → get_webhook p webhook_id user_id w ≡ some h
          → Q (
            some (f h),
            record w { webhooks = hooks.update_one w.webhooks webhook_id (owned user_id) f },
          ))
      → Q (find_and_update p webhook_id user_id f w)
  unfolding find_and_update
  find_and_update-cases webhook_id user_id f w Q fails done =
      elim (Option-cases (get_webhook p webhook_id user_id w)) [
        | inl miss ↦ rw (miss, find_and_update) fails
        | inr (h, hit) ↦ rw (hit, find_and_update) (done h hit)
      ]

  pub update-cases :
      (webhook_id user_id : String) (u : WebhookUpdate) (now : ℕ) (w : World p)
      (Q : Outcome (Option Webhook) × World p → Type 0)
      → ((o : Outcome (Option Webhook)) → Q (o, w))
      → ((url : Option Text) → Q (set_fields p webhook_id user_id u url now w))
      → Q (update_webhook p webhook_id user_id u now w)
  unfolding update_webhook
  update-cases webhook_id user_id u now w Q same done = elim (Bool-cases (is_empty u)) [
    | inl empty ↦ rw (empty, update_webhook) (same (returned (get_webhook p webhook_id user_id w)))
    | inr fields ↦ elim (Option-cases u.url) [
      | inl miss ↦ rw (fields, miss, update_webhook) (done none)
      | inr (url, hit) ↦ elim (Bool-cases (is_refused p url)) [
        | inl bad ↦ rw (fields, hit, bad, update_webhook) (same (value_error (must_use_https p)))
        | inr good ↦ elim (Option-cases (encode_url url)) [
          | inl refused ↦ rw (fields, hit, good, refused, update_webhook) (same invalid_document)
          | inr (stored, got) ↦ rw (fields, hit, good, got, update_webhook) (done (some stored))
        ]
      ]
    ]
  ]
