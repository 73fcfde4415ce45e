-- ===== src/Webhooks/Registry.antt =====
-- app/services/webhook_service.py: the registrations.
use application_workflow_ser.Base.{
  ℕ, zero, suc, String, Bool, true, false, not, ◌&&◌, Option, none, some, List, [], ◌∷◌, ◌++◌, leb,
  if◌then◌else◌, str_eq,
}
use application_workflow_ser.Text.{Text, text, begins, decimal}
use application_workflow_ser.Mongo.Documents.{only}
use application_workflow_ser.Webhooks.{World}
use application_workflow_ser.Webhooks.Data.{
  WebhookStatus, active, is_active, is_disabled, Webhook, WebhookCreate, Fresh, Creation,
  WebhookUpdate, Outcome, returned, value_error, invalid_document, Platform,
}

-- The filter `{"user_id": user_id}`.
abbrev pub owned : String → Webhook → Bool
owned user_id h = str_eq h.user_id user_id

abbrev pub given : {A : Type 0} → Option A → A → A
given none old = old
given (some new) old = new

-- `v is not None`
abbrev pub is_given : {A : Type 0} → Option A → Bool
is_given none = false
is_given (some a) = true

-- `update_data.get("status") == WebhookStatus.ACTIVE.value`
abbrev pub reactivates : Option WebhookStatus → Bool
reactivates none = false
reactivates (some s) = is_active s

-- `not update_data`
abbrev pub is_empty : WebhookUpdate → Bool
is_empty u =
    not (is_given u.url)
    && not (is_given u.name)
    && not (is_given u.description)
    && not (is_given u.events)
    && not (is_given u.status)

-- `{"$set": update_data}`, with the URL as it is stored.
abbrev pub update_fields : WebhookUpdate → Option Text → ℕ → Webhook → Webhook
update_fields u url now h = record h {
  url = given url h.url;
  name = if is_given u.name then u.name else h.name;
  description = if is_given u.description then u.description else h.description;
  events = given u.events h.events;
  status = given u.status h.status;
  updated_at = now;
  consecutive_failures = if reactivates u.status then 0 else h.consecutive_failures;
  last_error = if reactivates u.status then none else h.last_error;
}

abbrev pub secret_fields : Text → ℕ → Webhook → Webhook
secret_fields secret now h = record h { secret = secret; updated_at = now }

-- `.sort("created_at", -1)`
abbrev pub newer : Webhook → Webhook → Bool
newer a b = leb b.created_at a.created_at

-- The order of `list_webhooks`, with its filter on the status.
abbrev pub listed : String → Bool → Webhook → Bool
listed user_id include_disabled h =
    owned user_id h && (if include_disabled then true else not (is_disabled h.status))

abbrev pub new_webhook : Fresh → String → WebhookCreate → Webhook
new_webhook fresh user_id c = record {
  id = fresh.webhook_id;
  user_id = user_id;
  url = c.url;
  secret = fresh.secret;
  name = c.name;
  description = c.description;
  events = c.events;
  status = active;
  created_at = fresh.now;
  updated_at = fresh.now;
  total_deliveries = 0;
  successful_deliveries = 0;
  failed_deliveries = 0;
  consecutive_failures = 0;
  last_delivery_at = none;
  last_success_at = none;
  last_error = none;
}

-- The n-th creation that waits, and the others.
unfoldable pub pick : ℕ → List Creation → Option (Creation × List Creation)
pick n [] = none
pick zero (c ∷ cs) = some (c, cs)
pick (suc n) (c ∷ cs) = elim (pick n cs) [ none ↦ none | some (d, rest) ↦ some (d, c ∷ rest) ]

module _ (p : Platform) where
  open p use {hooks, queue, settings, encode_url}

  unfoldable pub too_many : Text
  too_many = text "Maximum webhooks (" ++ decimal settings.webhook_max_per_user ++ text ") reached"

  unfoldable pub must_use_https : Text
  must_use_https = text "Webhook URL must use HTTPS"

  -- `settings.webhook_require_https and not url.startswith("https://")`
  unfoldable pub is_refused : Text → Bool
  is_refused url = settings.webhook_require_https && not (begins (text "https://") url)

  -- `create_webhook` up to the insertion: the message of the `ValueError`, or a creation that waits for
  -- the database.
  unfoldable pub begin_create : Fresh → String → WebhookCreate → World p → Option Text × World p
  unfolding too_many must_use_https is_refused
  begin_create fresh user_id c w =
      if leb settings.webhook_max_per_user (hooks.count w.webhooks (owned user_id))
      then (some too_many, w)
      else if is_refused c.url
      then (some must_use_https, w)
      else (
        none,
        record w {
          creating = record { fresh = fresh; user_id = user_id; request = c } ∷ w.creating;
        },
      )

  -- The insertion, and the creations that still wait.
  unfoldable pub insert_new : Creation → List Creation → World p → World p
  insert_new c rest w =
      let h = new_webhook c.fresh c.user_id c.request in
      record w { webhooks = hooks.insert_one w.webhooks h.id h; creating = rest }

  unfoldable pub end_create : ℕ → World p → Option Webhook × World p
  unfolding insert_new
  end_create n w = elim (pick n w.creating) [
    | none ↦ (none, w)
    | some (c, rest) ↦ (some (new_webhook c.fresh c.user_id c.request), insert_new c rest w)
  ]

  unfoldable pub get_webhook : String → String → World p → Option Webhook
  get_webhook webhook_id user_id w = only (owned user_id) (hooks.find_one w.webhooks webhook_id)

  unfoldable pub list_webhooks : String → Bool → World p → List Webhook
  list_webhooks user_id include_disabled w =
      hooks.find_sorted w.webhooks (listed user_id include_disabled) newer

  -- `find_one_and_update({"id": …, "user_id": …}, …, return_document=True)`
  unfoldable pub find_and_update :
      String → String → (Webhook → Webhook) → World p → Option Webhook × World p
  unfolding get_webhook
  find_and_update webhook_id user_id f w = elim (get_webhook webhook_id user_id w) [
    | none ↦ (none, w)
    | some h ↦ (
      some (f h),
      record w { webhooks = hooks.update_one w.webhooks webhook_id (owned user_id) f },
    )
  ]

  unfoldable pub set_fields :
      String
      → String
      → WebhookUpdate
      → Option Text
      → ℕ
      → World p
      → Outcome (Option Webhook) × World p
  unfolding find_and_update
  set_fields webhook_id user_id u url now w =
      let (h, v) = find_and_update webhook_id user_id (update_fields u url now) w in (returned h, v)

  unfoldable pub update_webhook :
      String → String → WebhookUpdate → ℕ → World p → Outcome (Option Webhook) × World p
  unfolding set_fields is_refused get_webhook
  update_webhook webhook_id user_id u now w =
      if is_empty u then (returned (get_webhook webhook_id user_id w), w) else elim u.url [
        | none ↦ set_fields webhook_id user_id u none now w
        | some url ↦
            if is_refused url then (value_error must_use_https, w) else elim (encode_url url) [
              | none ↦ (invalid_document, w)
              | some stored ↦ set_fields webhook_id user_id u (some stored) now w
            ]
      ]

  unfoldable pub delete_webhook : String → String → World p → Bool × World p
  unfolding get_webhook
  delete_webhook webhook_id user_id w = elim (get_webhook webhook_id user_id w) [
    | none ↦ (false, w)
    | some h ↦ (
      true,
      record w {
        webhooks = hooks.delete_one w.webhooks webhook_id (owned user_id);
        deliveries = queue.delete_many w.deliveries (λ d. str_eq d.webhook_id webhook_id);
      },
    )
  ]

  unfoldable pub rotate_secret : Text → ℕ → String → String → World p → Option Text × World p
  unfolding find_and_update
  rotate_secret secret now webhook_id user_id w =
      let (h, v) = find_and_update webhook_id user_id (secret_fields secret now) w in
      (elim h [ none ↦ none | some x ↦ some secret ], v)
