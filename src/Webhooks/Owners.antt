-- ===== src/Webhooks/Owners.antt =====
-- app/services/webhook_service.py: the calls of a user, and the webhooks of others.
use application_workflow_ser.Base.{
  ℕ, ◌≡◌, refl, String, Bool, true, false, not, Option, none, some, Option-cases, inl, inr, str_eq,
  arith, eq_refl,
}
use application_workflow_ser.Text.{Text}
use application_workflow_ser.Mongo.Documents.{only}
use application_workflow_ser.Webhooks.{World}
use application_workflow_ser.Webhooks.Data.{Webhook, WebhookUpdate, Platform}
use application_workflow_ser.Webhooks.Registry.{
  owned, update_fields, secret_fields, get_webhook, set_fields, update_webhook, delete_webhook,
  rotate_secret,
}
use application_workflow_ser.Webhooks.Branches.{find_and_update-cases, update-cases}

only-others :
    {D : Type 0} (q : D → Bool) (x : Option D) (d : D)
    → only q x ≡ some d
    → only (λ e. not (q e)) x ≡ none
only-others q none d h = refl
only-others q (some e) d h = ground (arith, h)

only-none : {D : Type 0} (q : D → Bool) (x : Option D) → only q (only (λ e. not (q e)) x) ≡ none
only-none q none = refl
only-none q (some e) = ground arith

module _ (p : Platform) (me : String) where
  open p use {hooks, queue}

  -- The webhooks of other users are as they were.
  unfoldable pub Spared : World p → World p → Type 0
  Spared v w =
      (j : String) (h : Webhook)
      → hooks.find_one v.webhooks j ≡ some h
      → owned me h ≡ false
      → hooks.find_one w.webhooks j ≡ some h

  update_one-Spared :
      (k : String) (f : Webhook → Webhook) (w : World p)
      → Spared w (record w { webhooks = hooks.update_one w.webhooks k (owned me) f })
  unfolding Spared
  update_one-Spared k f w j h hit other =
      rw (hooks.find-update w.webhooks k j (owned me) f) (rw hit (ground (arith, other)))

  delete_one-Spared :
      (k : String) (w : World p) (s : queue.Store)
      → Spared w (record w { webhooks = hooks.delete_one w.webhooks k (owned me); deliveries = s })
  unfolding Spared
  delete_one-Spared k w s j h hit other =
      rw (hooks.find-delete w.webhooks k j (owned me)) (rw hit (ground (arith, other)))

  self-Spared : (w : World p) → Spared w w
  unfolding Spared
  self-Spared w j h hit other = hit

  delete-Spared : (k : String) (w : World p) → Spared w (delete_webhook p k me w).1
  unfolding delete_webhook
  delete-Spared k w = elim (Option-cases (get_webhook p k me w)) [
    | inl miss ↦ rw (miss, delete_webhook) (self-Spared w)
    | inr (h, hit) ↦ rw (hit, delete_webhook) (delete_one-Spared k w _)
  ]

  deleted_own :
      (k : String) (w : World p) (h : Webhook)
      → get_webhook p k me w ≡ some h
      → let (b, v) = delete_webhook p k me w in
        (b ≡ true)
        × (hooks.find_one v.webhooks k ≡ none)
        × ((j : String) → only (λ d. str_eq d.webhook_id k) (queue.find_one v.deliveries j) ≡ none)
  unfolding delete_webhook
  deleted_own k w h hit =
      rw (hit, delete_webhook)
        (
          refl,
          rw (hooks.find-delete w.webhooks k k (owned me), eq_refl k)
              (unfold get_webhook in only-others (owned me) (hooks.find_one w.webhooks k) h hit),
          λ j.
              rw (queue.find-delete_many w.deliveries j (λ d. str_eq d.webhook_id k))
                (only-none (λ d. str_eq d.webhook_id k) (queue.find_one w.deliveries j)),
        )

  -- Updating, deleting and rotating by a user leave the webhooks of all others as they were, whatever
  -- id the user names. Deleting a webhook of the user's own answers True, and afterwards the webhook is
  -- gone, and so are all its deliveries; deleting any other answers False and changes nothing.
  pub calls-owned :
      (k : String) (u : WebhookUpdate) (secret : Text) (now : ℕ) (w : World p)
      → Spared w (update_webhook p k me u now w).1
        × Spared w (rotate_secret p secret now k me w).1
        × Spared w (delete_webhook p k me w).1
        × ((h : Webhook)
            → get_webhook p k me w ≡ some h
            → let (b, v) = delete_webhook p k me w in
              (b ≡ true)
              × (hooks.find_one v.webhooks k ≡ none)
              × ((j : String)
                  → only (λ d. str_eq d.webhook_id k) (queue.find_one v.deliveries j) ≡ none))
        × (get_webhook p k me w ≡ none → delete_webhook p k me w ≡ (false, w))
  unfolding set_fields rotate_secret delete_webhook
  calls-owned k u secret now w = (
    update-cases p k me u now w (λ x. Spared w x.1) (λ o. self-Spared w)
        (λ url.
          find_and_update-cases p k me (update_fields u url now) w (λ x. Spared w x.1)
            (self-Spared w) (λ h _. update_one-Spared k _ w)),
    find_and_update-cases p k me (secret_fields secret now) w (λ x. Spared w x.1) (self-Spared w)
        (λ h _. update_one-Spared k _ w),
    delete-Spared k w,
    deleted_own k w,
    λ miss. rw (miss, delete_webhook) refl,
  )
