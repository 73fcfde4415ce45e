-- ===== src/Base/Sweep.antt =====
-- The loop `for key in keys: del d[key]` after `keys = [k for k, v in d.items() if p(k, v)]`.
use Prim.Native.String.{String}
use Prim.Native.Nat.{◌+◌}
use mathlib.Core.Bool.{Bool, false, not}
use mathlib.Core.List.{List, [], ◌∷◌, map}
use mathlib.Core.Option.{none}
use mathlib.Core.Logic.{inl, inr}
use mathlib.Core.Path.{◌≡◌, refl, ap, ◌∙◌}
use native.Mathlib.Omega.{arith}
use text.Mathlib.Text.{◌==◌}
use text.Mathlib.TextEquality.{eq_iff}
use application_workflow_ser.Base.Tests.{Bool-cases}
use application_workflow_ser.Base.Lists.{length, keep, All}
use application_workflow_ser.Base.Dict.{Dict, get, del, Distinct, del_absent}

module _ {ℓ} {V : Type ℓ} where
  abbrev pub keys : Dict V → List String
  keys = map (λ e. e.0)

  -- `for k in ks: del d[k]`
  unfoldable pub del_all : Dict V → List String → Dict V
  del_all d [] = d
  del_all d (k ∷ ks) = del_all (del d k) ks

module _ {ℓ} {V : Type ℓ} where
  del_all-step :
      (d : Dict V) (k : String) (ks : List String) → del_all d (k ∷ ks) ≡ del_all (del d k) ks
  unfolding del_all
  del_all-step d k ks = refl

  del_all-cons :
      (i : String) (w : V) (d : Dict V) (ks : List String)
      → All (λ k. (i == k) ≡ false) ks
      → del_all ((i, w) ∷ d) ks ≡ (i, w) ∷ del_all d ks
  unfolding del_all del
  del_all-cons i w d [] h = refl
  del_all-cons i w d (k ∷ ks) h = rw h.0 (del_all-cons i w (del d k) ks h.1)

  keys_other :
      (p : (String × V) → Bool) (d : Dict V) (i : String)
      → get d i ≡ none
      → All (λ k. (i == k) ≡ false) (keys (keep p d))
  unfolding get keep
  keys_other p [] i h = tt
  keys_other p ((j, w) ∷ d) i h = ground (arith, keys_other p d i, eq_iff i j, eq_iff j i)

  del_head : (i : String) (w : V) (d : Dict V) → get d i ≡ none → del ((i, w) ∷ d) i ≡ d
  unfolding del
  del_head i w d h = ground (arith, del_absent d i h, eq_iff i i)

  -- Deleting the keys that pass a test one by one leaves the entries that fail it.
  pub del_all-keep :
      (p : (String × V) → Bool) (d : Dict V)
      → Distinct d
      → del_all d (keys (keep p d)) ≡ keep (λ e. not (p e)) d
  unfolding keep
  del_all-keep p [] u = unfold del_all in refl
  del_all-keep p ((i, w) ∷ d) u = elim (Bool-cases (p (i, w))) [
    | inl yes' ↦ rw yes' (
        del_all-step ((i, w) ∷ d) i (keys (keep p d))
        ∙ ap (λ x. del_all x (keys (keep p d))) (del_head i w d u.0)
        ∙ del_all-keep p d u.1)
    | inr no' ↦ rw no' (
        del_all-cons i w d (keys (keep p d)) (keys_other p d i u.0)
        ∙ ap (◌∷◌ (i, w)) (del_all-keep p d u.1))
  ]

  -- The entries that pass and those that fail make up the whole.
  pub length-keep-split :
      (p : (String × V) → Bool) (d : Dict V)
      → length (keep p d) + length (keep (λ e. not (p e)) d) ≡ length d
  unfolding keep
  length-keep-split p [] = omega arith
  length-keep-split p (e ∷ d) = ground (arith, length-keep-split p d)
