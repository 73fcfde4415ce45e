-- ===== src/Webhooks/Failures.antt =====
-- app/services/webhook_service.py: what `_mark_failed` leaves behind.
use application_workflow_ser.Base.{
  ℕ, zero, suc, ◌+◌, ◌-◌, ◌≤◌, ◌≡◌, refl, ap, ◌∙◌, true, false, none, some, Option-cases,
  Bool-cases, inl, inr, eq_refl, if◌then◌else◌, leb, arith, min,
}
use application_workflow_ser.Webhooks.{World}
use application_workflow_ser.Webhooks.Data.{
  disabled, failed, permanently_failed, Webhook, WebhookDelivery, Platform,
}
use application_workflow_ser.Webhooks.Deliveries.{
  retry_delays, get_elem, retry_delay, Attempt, Failure, any, failure_fields, disabled_fields,
  failed_fields, permanent_fields,
}
use application_workflow_ser.Webhooks.Sending.{
  mark_failed, mark_permanently_failed, update_webhook_failure, check_auto_disable,
}

top : (n : ℕ) → 5 ≤ n → min (n - 1) 4 ≡ 4
top n h = omega (arith, h)

retry_delay-top : (n : ℕ) → 5 ≤ n → retry_delay n ≡ 14400
unfolding retry_delay
retry_delay-top n h = ap (get_elem retry_delays) (top n h)

top-bounds :
    (n : ℕ)
    → 5 ≤ n
    → (60 ≤ retry_delay n) × (retry_delay n ≤ 14400) × (retry_delay n ≤ retry_delay (n + 1))
top-bounds n h =
    let now = retry_delay-top n h in
    let next = retry_delay-top (n + 1) (omega (arith, h)) in
    (omega (arith, now), omega (arith, now), omega (arith, now, next))

-- The delay before the next attempt is at least a minute and at most four hours, and never less than
-- the one before.
pub retry_delay-bounds :
    (n : ℕ) → (60 ≤ retry_delay n) × (retry_delay n ≤ 14400) × (retry_delay n ≤ retry_delay (n + 1))
unfolding retry_delay
retry_delay-bounds zero = (omega arith, omega arith, omega arith)
retry_delay-bounds (suc zero) = (omega arith, omega arith, omega arith)
retry_delay-bounds (suc (suc zero)) = (omega arith, omega arith, omega arith)
retry_delay-bounds (suc (suc (suc zero))) = (omega arith, omega arith, omega arith)
retry_delay-bounds (suc (suc (suc (suc zero)))) = (omega arith, omega arith, omega arith)
retry_delay-bounds (suc (suc (suc (suc (suc n))))) =
    top-bounds (suc (suc (suc (suc (suc n))))) (omega arith)

module _ (p : Platform) where
  open p use {hooks, queue, settings}

  check_auto_disable-find :
      (now : ℕ) (h x : Webhook) (w : World p)
      → hooks.find_one w.webhooks h.id ≡ some x
      → hooks.find_one (check_auto_disable p now h w).webhooks h.id
        ≡ some (
            if leb settings.webhook_auto_disable_threshold x.consecutive_failures
            then disabled_fields now x
            else x)
  unfolding check_auto_disable
  check_auto_disable-find now h x w hit =
      elim (Bool-cases (leb settings.webhook_auto_disable_threshold x.consecutive_failures)) [
        | inl many ↦
            rw (hit, many, check_auto_disable)
              (rw
                (
                  hooks.find-update w.webhooks h.id h.id any (disabled_fields now),
                  eq_refl h.id,
                  hit,
                )
                refl)
        | inr few ↦ rw (hit, few, check_auto_disable) hit
      ]

  check_auto_disable-deliveries :
      (now : ℕ) (h : Webhook) (w : World p)
      → (check_auto_disable p now h w).deliveries ≡ w.deliveries
  unfolding check_auto_disable
  check_auto_disable-deliveries now h w = elim (Option-cases (hooks.find_one w.webhooks h.id)) [
    | inl miss ↦ rw (miss, check_auto_disable) refl
    | inr (x, hit) ↦
        elim (Bool-cases (leb settings.webhook_auto_disable_threshold x.consecutive_failures)) [
          | inl many ↦ rw (hit, many, check_auto_disable) refl
          | inr few ↦ rw (hit, few, check_auto_disable) refl
        ]
  ]

  -- What a failed attempt leaves while attempts are left, and after the last one.
  unfoldable pub Retried : Attempt → Webhook → WebhookDelivery p.Data → Webhook → Type 0
  Retried a h d2 h2 =
      (delay : ℕ) × (d2.status ≡ failed)
      × (d2.next_retry_at ≡ some (a.now + delay))
      × (60 ≤ delay)
      × (delay ≤ 14400)
      × (h2.status ≡ h.status)

  unfoldable pub Exhausted : Webhook → WebhookDelivery p.Data → Webhook → Type 0
  Exhausted h d2 h2 =
      (d2.status ≡ permanently_failed)
      × (d2.next_retry_at ≡ none)
      × (h2.status ≡ (
          if leb settings.webhook_auto_disable_threshold (h.consecutive_failures + 1)
          then disabled
          else h.status))

  module _ (a : Attempt) (d : WebhookDelivery p.Data) (h : Webhook) (f : Failure) (w : World p)
      (has_d : queue.find_one w.deliveries d.id ≡ some d)
      (has_h : hooks.find_one w.webhooks h.id ≡ some h) where
    found_delivery :
        (g : WebhookDelivery p.Data → WebhookDelivery p.Data)
        → queue.find_one (queue.update_one w.deliveries d.id any g) d.id ≡ some (g d)
    found_delivery g = rw (queue.find-update w.deliveries d.id d.id any g, eq_refl d.id, has_d) refl

    found_webhook :
        (g : Webhook → Webhook)
        → hooks.find_one (hooks.update_one w.webhooks h.id any g) h.id ≡ some (g h)
    found_webhook g = rw (hooks.find-update w.webhooks h.id h.id any g, eq_refl h.id, has_h) refl

    -- The documents of the delivery and of the webhook after a failed attempt.
    abbrev failed_webhook : Webhook
    failed_webhook = failure_fields a.failed_at f.error h

    retried :
        leb d.max_attempts (d.attempts + 1) ≡ false
        → let v = (mark_failed p a d h f w).1 in
          (queue.find_one v.deliveries d.id
            ≡ some (failed_fields (a.now + retry_delay (d.attempts + 1)) f a.duration_ms d))
          × (hooks.find_one v.webhooks h.id ≡ some failed_webhook)
    unfolding mark_failed update_webhook_failure
    retried more = rw (more, mark_failed) (found_delivery _, found_webhook _)

    exhausted :
        leb d.max_attempts (d.attempts + 1) ≡ true
        → let v = (mark_failed p a d h f w).1 in
          (queue.find_one v.deliveries d.id ≡ some (permanent_fields f.error d))
          × (hooks.find_one v.webhooks h.id
              ≡ some (
                  if leb settings.webhook_auto_disable_threshold failed_webhook.consecutive_failures
                  then disabled_fields a.disabled_at failed_webhook
                  else failed_webhook))
    unfolding mark_failed update_webhook_failure mark_permanently_failed
    exhausted last =
        rw (last, mark_failed)
          (
            ap (λ s. queue.find_one s d.id) (check_auto_disable-deliveries a.disabled_at h _)
                ∙ found_delivery _,
            check_auto_disable-find a.disabled_at h _ _ (found_webhook _),
          )

    -- After a failed attempt of a delivery that the queue holds, to a webhook that is there: the error,
    -- the attempt and the failure are counted once each. While attempts are left, the delivery is
    -- failed, its next attempt is due a minute to four hours later, and the webhook's status stays.
    -- At the last attempt the delivery is permanently failed with no next attempt, and the webhook is
    -- disabled if its failures in a row have reached the threshold, and else its status stays.
    pub mark_failed-schedules :
        (d2 : WebhookDelivery p.Data) × (h2 : Webhook) × (queue.find_one
            (mark_failed p a d h f w).1.deliveries
            d.id
          ≡ some d2)
        × (hooks.find_one (mark_failed p a d h f w).1.webhooks h.id ≡ some h2)
        × (d2.attempts ≡ d.attempts + 1)
        × (d2.error ≡ some f.error)
        × (h2.total_deliveries ≡ h.total_deliveries + 1)
        × (h2.failed_deliveries ≡ h.failed_deliveries + 1)
        × (h2.consecutive_failures ≡ h.consecutive_failures + 1)
        × (if leb d.max_attempts (d.attempts + 1) then Exhausted h d2 h2 else Retried a h d2 h2)
    unfolding Exhausted Retried failure_fields disabled_fields failed_fields permanent_fields
    mark_failed-schedules = elim (Bool-cases (leb d.max_attempts (d.attempts + 1))) [
      | inl last ↦
          let (found_d, found_h) = exhausted last in
          elim (Bool-cases
            (leb settings.webhook_auto_disable_threshold (h.consecutive_failures + 1))) [
              | inl many ↦ (
                permanent_fields f.error d,
                disabled_fields a.disabled_at failed_webhook,
                found_d,
                found_h ∙ rw many refl,
                refl,
                refl,
                refl,
                refl,
                refl,
                rw (last, many) (refl, refl, refl),
              )
              | inr few ↦ (
                permanent_fields f.error d,
                failed_webhook,
                found_d,
                found_h ∙ rw few refl,
                refl,
                refl,
                refl,
                refl,
                refl,
                rw (last, few) (refl, refl, refl),
              )
            ]
      | inr more ↦
          let (low, high, _) = retry_delay-bounds (d.attempts + 1) in
          (
            failed_fields (a.now + retry_delay (d.attempts + 1)) f a.duration_ms d,
            failed_webhook,
            (retried more).0,
            (retried more).1,
            refl,
            refl,
            refl,
            refl,
            refl,
            rw more (retry_delay (d.attempts + 1), refl, refl, low, high, refl),
          )
    ]
