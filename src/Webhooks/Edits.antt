-- ===== src/Webhooks/Edits.antt =====
-- app/services/webhook_service.py: what the calls do to the collection of webhooks, as single writes.
use application_workflow_ser.Base.{
  ℕ, suc, ◌+◌, ltb, ◌≡◌, String, Bool, false, leb, Option, none, some, true, List, [], ◌∷◌,
  Option-cases, Bool-cases, inl, inr, refl,
}
use application_workflow_ser.Text.{Text, text}
use application_workflow_ser.Webhooks.{World}
use application_workflow_ser.Webhooks.Data.{
  WebhookEventType, Webhook, Creation, WebhookUpdate, WebhookDelivery, value_of, Platform, Answer,
  answered, timed_out, raised,
}
use application_workflow_ser.Webhooks.Registry.{
  pick, insert_new, owned, update_fields, secret_fields, get_webhook, set_fields, delete_webhook,
  rotate_secret,
}
use application_workflow_ser.Webhooks.Deliveries.{
  Attempt, Failure, success_fields, failure_fields, disabled_fields, any, create_deliveries,
  create_delivery, dispatch_event, get_matching_webhooks,
}
use application_workflow_ser.Webhooks.Sending.{
  mark_delivered, mark_failed, mark_permanently_failed, update_webhook_failure, check_auto_disable,
  plain_failure, ended, caught, after_post, send, deliver, test_webhook,
}
use application_workflow_ser.Webhooks.Steps.{
  Step, begun, created, updated, removed, rotated, dispatched, attempted, tested,
}
use application_workflow_ser.Webhooks.Cases.{deliver-cases}
use application_workflow_ser.Webhooks.Branches.{begin-cases, find_and_update-cases, update-cases}

-- The updates of a webhook that the service makes.
pub data Change : (Webhook → Webhook) → Type 0 where
  sets : (u : WebhookUpdate) (url : Option Text) (now : ℕ) → Change (update_fields u url now)
  rotates : (secret : Text) (now : ℕ) → Change (secret_fields secret now)
  succeeds : (now : ℕ) → Change (success_fields now)
  fails : (now : ℕ) (error : Text) → Change (failure_fields now error)
  disables : (now : ℕ) → Change (disabled_fields now)

module _ (p : Platform) where
  open p use {Data, hooks, queue, settings, validated}

  pub data Edits (s : hooks.Store) : hooks.Store → Type 0 where
    unchanged : Edits s s
    changes :
        {t : hooks.Store} (k : String) (q : Webhook → Bool) (f : Webhook → Webhook)
        → Edits s t
        → Change f
        → Edits s (hooks.update_one t k q f)
    deletes : (k : String) (q : Webhook → Bool) → Edits s (hooks.delete_one s k q)

  -- Such writes, and no creation begins or ends.
  abbrev pub Edited : World p → World p → Type 0
  Edited v w = Edits v.webhooks w.webhooks × (w.creating ≡ v.creating)

  same : (v : World p) → Edited v v
  same v = (unchanged, refl)

  -- The steps of a run, by what they do to the webhooks and to the creations.
  pub data Effect (v : World p) : World p → Type 0 where
    edits : {w : World p} → Edited v w → Effect v w
    admits :
        (c : Creation)
        → leb settings.webhook_max_per_user (hooks.count v.webhooks (owned c.user_id)) ≡ false
        → Effect v (record v { creating = c ∷ v.creating })
    inserts :
        (n : ℕ) (c : Creation) (rest : List Creation)
        → pick n v.creating ≡ some (c, rest)
        → hooks.find_one v.webhooks c.fresh.webhook_id ≡ none
        → Effect v (insert_new p c rest v)

  check_auto_disable-Edited :
      (v : World p) (now : ℕ) (h : Webhook) (w : World p)
      → Edited v w
      → Edited v (check_auto_disable p now h w)
  unfolding check_auto_disable
  check_auto_disable-Edited v now h w (e, c) =
      elim (Option-cases (hooks.find_one w.webhooks h.id)) [
        | inl miss ↦ rw (miss, check_auto_disable) (e, c)
        | inr (doc, hit) ↦
            elim (Bool-cases
              (leb settings.webhook_auto_disable_threshold doc.consecutive_failures)) [
                | inl many ↦
                    rw (hit, many, check_auto_disable) (changes h.id any _ e (disables now), c)
                | inr few ↦ rw (hit, few, check_auto_disable) (e, c)
              ]
      ]

  mark_failed-Edited :
      (v : World p) (a : Attempt) (d : WebhookDelivery Data) (h : Webhook) (f : Failure)
      (w : World p)
      → Edited v w
      → Edited v (mark_failed p a d h f w).1
  unfolding mark_failed update_webhook_failure mark_permanently_failed
  mark_failed-Edited v a d h f w (e, c) = elim (Bool-cases (leb d.max_attempts (d.attempts + 1))) [
    | inl last ↦
        rw (last, mark_failed)
          (check_auto_disable-Edited v a.disabled_at h _
            (changes h.id any _ e (fails a.failed_at f.error), c))
    | inr more ↦ rw (more, mark_failed) (changes h.id any _ e (fails a.failed_at f.error), c)
  ]

  ended-state : (b : Bool) (x : Bool × World p) → (ended p b x).1 ≡ x.1
  ended-state b (true, w) = refl
  ended-state b (false, w) = refl

  caught-Edited :
      (v : World p) (a : Attempt) (d : WebhookDelivery Data) (h : Webhook) (b : Bool)
      (x : Bool × World p)
      → Edited v x.1
      → Edited v (caught p a d h b x).1
  unfolding caught
  caught-Edited v a d h b (false, w) e = e
  caught-Edited v a d h b (true, w) e =
      rw
        (ended-state false
          (mark_failed p a d h (plain_failure p (text "'str' object has no attribute 'value'")) w))
        (mark_failed-Edited v a d h _ w e)

  ended_failed :
      (v : World p) (a : Attempt) (d : WebhookDelivery Data) (h : Webhook) (f : Failure)
      (w : World p)
      → Edited v w
      → Edited v (ended p false (mark_failed p a d h f w)).1
  ended_failed v a d h f w e =
      rw (ended-state false (mark_failed p a d h f w)) (mark_failed-Edited v a d h f w e)

  after_post-Edited :
      (v : World p) (a : Attempt) (x : Answer) (d : WebhookDelivery Data) (h : Webhook)
      (w : World p)
      → Edited v w
      → Edited v (after_post p a x d h w).1
  unfolding after_post mark_delivered
  after_post-Edited v a (answered code body) d h w (e, c) = elim (Bool-cases (ltb code 300)) [
    | inl good ↦
        rw (good, after_post)
          (caught-Edited v a d h true (mark_delivered p a d h code w)
            (changes h.id any _ e (succeeds a.now), c))
    | inr bad ↦
        rw (bad, after_post) (caught-Edited v a d h false _ (mark_failed-Edited v a d h _ w (e, c)))
  ]
  after_post-Edited v a timed_out d h w e = ended_failed v a d h _ w e
  after_post-Edited v a (raised x) d h w e = ended_failed v a d h _ w e

  deliver-Edited :
      (v : World p) (a : Attempt) (id : String) (w : World p)
      → Edited v w
      → Edited v (deliver p a id w).1
  unfolding mark_permanently_failed send
  deliver-Edited v a id w e =
      deliver-cases p a id w (λ x. Edited v x.1) e (λ d _ _. e) (λ d m _ _. e)
        (λ d h _ _ _ _. elim (Option-cases (value_of (validated d.event_type))) [
          | inl plain ↦ rw (plain, send) e
          | inr (x, has) ↦ rw (has, send) (after_post-Edited v a a.answer d h _ e)
        ])

  create_deliveries-Edited :
      (v : World p) (id : ℕ → String) (now : ℕ → ℕ) (e : WebhookEventType) (payload : Data) (n : ℕ)
      (hs : List Webhook) (w : World p)
      → Edited v w
      → Edited v (create_deliveries p id now e payload n hs w).1
  unfolding create_deliveries create_delivery
  create_deliveries-Edited v id now e payload n [] w h = h
  create_deliveries-Edited v id now e payload n (x ∷ hs) w h =
      create_deliveries-Edited v id now e payload (suc n) hs _ h

  pub step-Effect : (v w : World p) → Step p v w → Effect v w
  unfolding set_fields delete_webhook rotate_secret dispatch_event test_webhook create_delivery
  step-Effect v w (begun fresh user_id c) =
      begin-cases p fresh user_id c v (λ x. Effect v x.1) (λ m. edits (same v))
        (λ space. admits _ space)
  step-Effect v w (created n c rest here free) = inserts n c rest here free
  step-Effect v w (updated webhook_id user_id u now) =
      update-cases p webhook_id user_id u now v (λ x. Effect v x.1) (λ o. edits (same v))
        (λ url.
          find_and_update-cases p webhook_id user_id (update_fields u url now) v (λ x. Effect v x.1)
            (edits (same v))
            (λ h _. edits (changes webhook_id (owned user_id) _ unchanged (sets u url now), refl)))
  step-Effect v w (removed webhook_id user_id) =
      elim (Option-cases (get_webhook p webhook_id user_id v)) [
        | inl miss ↦ rw (miss, delete_webhook) (edits (same v))
        | inr (h, hit) ↦ rw (hit, delete_webhook) (edits (deletes webhook_id (owned user_id), refl))
      ]
  step-Effect v w (rotated secret now webhook_id user_id) =
      find_and_update-cases p webhook_id user_id (secret_fields secret now) v (λ x. Effect v x.1)
        (edits (same v))
        (λ h _. edits (changes webhook_id (owned user_id) _ unchanged (rotates secret now), refl))
  step-Effect v w (dispatched id now e user_id payload) =
      elim (Bool-cases settings.webhooks_enabled) [
        | inl on ↦
            rw (on, dispatch_event)
              (edits (
                create_deliveries-Edited v id now e payload 0 (get_matching_webhooks p user_id e v)
                  v (same v)))
        | inr off ↦ rw (off, dispatch_event) (edits (same v))
      ]
  step-Effect v w (attempted a id) = edits (deliver-Edited v a id v (same v))
  step-Effect v w (tested id now payload a webhook_id user_id) =
      elim (Option-cases (get_webhook p webhook_id user_id v)) [
        | inl miss ↦ rw (miss, test_webhook) (edits (same v))
        | inr (h, hit) ↦ rw (hit, test_webhook) (edits (deliver-Edited v a id _ (unchanged, refl)))
      ]
