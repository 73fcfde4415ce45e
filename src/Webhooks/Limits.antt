-- ===== src/Webhooks/Limits.antt =====
-- app/services/webhook_service.py: the number of webhooks of a user.
use application_workflow_ser.Base.{
  ℕ, zero, suc, ◌+◌, ◌≤◌, ◌≡◌, refl, ap, String, Option, none, some, List, [], ◌∷◌, arith, str_eq,
  eq_iff, if◌then◌else◌,
}
use mathlib.Core.Path.{subst}
use application_workflow_ser.Webhooks.{World}
use application_workflow_ser.Webhooks.Data.{Webhook, Creation, Platform}
use application_workflow_ser.Webhooks.Registry.{owned, pick, insert_new}
use application_workflow_ser.Webhooks.Deliveries.{success_fields, failure_fields, disabled_fields}
use application_workflow_ser.Webhooks.Edits.{
  Change, sets, rotates, succeeds, fails, disables, Edits, unchanged, changes, deletes, Effect,
  edits, admits, inserts, step-Effect,
}
use application_workflow_ser.Webhooks.Steps.{Step}

Change-owner :
    (user_id : String) (f : Webhook → Webhook)
    → Change f
    → (h : Webhook) → owned user_id (f h) ≡ owned user_id h
unfolding success_fields failure_fields disabled_fields
Change-owner user_id f (sets u url now) h = refl
Change-owner user_id f (rotates secret now) h = refl
Change-owner user_id f (succeeds now) h = refl
Change-owner user_id f (fails now error) h = refl
Change-owner user_id f (disables now) h = refl

-- The creations of the user that wait for the insertion.
unfoldable pub in_flight : String → List Creation → ℕ
in_flight user_id [] = 0
in_flight user_id (c ∷ cs) = in_flight user_id cs + (if str_eq c.user_id user_id then 1 else 0)

-- Taking a creation out takes out its share.
abbrev Picked : String → List Creation → Option (Creation × List Creation) → Type 0
Picked user_id cs none = Unit
Picked user_id cs (some (c, rest)) =
    in_flight user_id cs ≡ in_flight user_id rest + (if str_eq c.user_id user_id then 1 else 0)

pick-Picked : (user_id : String) (n : ℕ) (cs : List Creation) → Picked user_id cs (pick n cs)
unfolding pick in_flight
pick-Picked user_id n [] = tt
pick-Picked user_id zero (d ∷ cs) = refl
pick-Picked user_id (suc n) (d ∷ cs) = go (pick n cs) (pick-Picked user_id n cs)
  where
    go :
        (o : Option (Creation × List Creation))
        → Picked user_id cs o
        → Picked user_id (d ∷ cs) (elim o [ none ↦ none | some (c, rest) ↦ some (c, d ∷ rest) ])
    go none h = tt
    go (some (c, rest)) h = omega (arith, h)

in_flight-pick :
    (user_id : String) (n : ℕ) (cs : List Creation) (c : Creation) (rest : List Creation)
    → pick n cs ≡ some (c, rest)
    → in_flight user_id cs ≡ in_flight user_id rest + (if str_eq c.user_id user_id then 1 else 0)
in_flight-pick user_id n cs c rest h = subst (Picked user_id cs) h (pick-Picked user_id n cs)

module _ (p : Platform) (user_id : String) where
  open p use {hooks, settings}

  -- Steps between whose ends at most `most` creations of the user wait at once.
  pub data Narrow (most : ℕ) (u : World p) : World p → Type 0 where
    start : in_flight user_id u.creating ≤ most → Narrow most u u
    later :
        {v w : World p}
        → Narrow most u v
        → Step p v w
        → in_flight user_id w.creating ≤ most
        → Narrow most u w

  Edits-count :
      (s t : hooks.Store)
      → Edits p s t
      → hooks.count t (owned user_id) ≤ hooks.count s (owned user_id)
  Edits-count s t unchanged = omega arith
  Edits-count s t (changes {t = r} k q f e x) =
      rw (hooks.count-update r k q (owned user_id) f (Change-owner user_id f x)) (Edits-count s r e)
  Edits-count s t (deletes k q) = hooks.count-delete s k q (owned user_id)

  -- The user's webhooks and those on their way are at most so many more than the limit.
  abbrev pub Limited : ℕ → World p → Type 0
  Limited k w =
      hooks.count w.webhooks (owned user_id) + in_flight user_id w.creating
      ≤ settings.webhook_max_per_user + k

  Effect-Limited :
      (k : ℕ) (v w : World p)
      → Effect p v w
      → in_flight user_id w.creating ≤ suc k
      → Limited k v
      → Limited k w
  unfolding insert_new in_flight
  Effect-Limited k v w (edits (e, c)) few h =
      let same = ap (in_flight user_id) c in
      omega (arith, same, Edits-count v.webhooks w.webhooks e, h)
  Effect-Limited k v w (admits c space) few h =
      ground (arith, eq_iff c.user_id user_id, space, few, h)
  Effect-Limited k v w (inserts n c rest here free) few h =
      rw (hooks.count-insert v.webhooks c.fresh.webhook_id _ (owned user_id) free)
        (omega (arith, in_flight-pick user_id n v.creating c rest here, h))

  -- Over any run of the steps in which at most k + 1 creations of a user wait for their insertion at
  -- once, the user's webhooks and waiting creations together are at most `webhook_max_per_user` + k,
  -- where they were at the start; so with one creation at a time (k = 0) the limit holds.
  pub run-Limited : (k : ℕ) (u w : World p) → Narrow (suc k) u w → Limited k u → Limited k w
  run-Limited k u w (start few) h = h
  run-Limited k u w (later {v = v} r s few) h =
      Effect-Limited k v w (step-Effect p v w s) few (run-Limited k u v r h)
