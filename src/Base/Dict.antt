-- ===== src/Base/Dict.antt =====
-- Python's `dict` with text keys (and `OrderedDict`), as the list of its items in insertion order.
use Prim.Native.Nat.{ℕ, zero, suc, ◌+◌}
use Prim.Native.String.{String}
use mathlib.Core.Bool.{Bool}
use mathlib.Core.List.{List, [], ◌∷◌, ◌++◌}
use mathlib.Core.Option
use mathlib.Core.Option.{Option, none, some}
use mathlib.Core.Path.{◌≡◌, refl}
use native.Mathlib.Omega.{arith}
use text.Mathlib.Text.{◌==◌}
use text.Mathlib.TextEquality.{eq_iff}
use application_workflow_ser.Base.Tests.{if◌then◌else◌}
use application_workflow_ser.Base.Lists.{length, drop, keep}

abbrev pub Dict {ℓ} : Type ℓ → Type ℓ
Dict V = List (String × V)

module _ {ℓ} {V : Type ℓ} where
  -- `d.get(k)`
  unfoldable pub get : Dict V → String → Option V
  get [] k = none
  get ((j, v) ∷ d) k = if j == k then some v else get d k

  -- `d[k] = v`: an old key keeps its place, a new one goes to the end.
  unfoldable pub put : Dict V → String → V → Dict V
  put [] k v = (k, v) ∷ []
  put ((j, w) ∷ d) k v = let rest = put d k v in if j == k then (j, v) ∷ d else (j, w) ∷ rest

  -- `del d[k]` of a key that may be missing.
  unfoldable pub del : Dict V → String → Dict V
  del [] k = []
  del ((j, w) ∷ d) k = let rest = del d k in if j == k then rest else (j, w) ∷ rest

  -- No key stands twice.
  abbrev pub Distinct : Dict V → Type ℓ
  Distinct [] = Unit
  Distinct ((k, v) ∷ d) = (get d k ≡ none) × Distinct d

module _ {ℓ} {V : Type ℓ} where
  pub get-put :
      (d : Dict V) (k : String) (v : V) (j : String)
      → get (put d k v) j ≡ (if k == j then some v else get d j)
  unfolding get put
  get-put [] k v j = refl
  get-put ((i, w) ∷ d) k v j = ground (arith, get-put d k v j, eq_iff i k, eq_iff i j, eq_iff k j)

  pub get-del : (d : Dict V) (k j : String) → get (del d k) j ≡ (if k == j then none else get d j)
  unfolding get del
  get-del [] k j = ground arith
  get-del ((i, w) ∷ d) k j = ground (arith, get-del d k j, eq_iff i k, eq_iff i j, eq_iff k j)

  pub get-append :
      (d e : Dict V) (k : String)
      → get (d ++ e) k ≡ Option.get_or (Option.map some (get d k)) (get e k)
  unfolding get
  get-append [] e k = refl
  get-append ((i, w) ∷ d) e k = ground (arith, get-append d e k)

  pub put-Distinct : (d : Dict V) (k : String) (v : V) → Distinct d → Distinct (put d k v)
  unfolding get put
  put-Distinct [] k v h = (refl, tt)
  put-Distinct ((i, w) ∷ d) k v h =
      ground (arith, put-Distinct d k v h.1, get-put d k v i, eq_iff i k, eq_iff k i)

  pub del-Distinct : (d : Dict V) (k : String) → Distinct d → Distinct (del d k)
  unfolding get del
  del-Distinct [] k h = tt
  del-Distinct ((i, w) ∷ d) k h = ground (arith, del-Distinct d k h.1, get-del d k i)

  pub del_absent : (d : Dict V) (k : String) → get d k ≡ none → del d k ≡ d
  unfolding get del
  del_absent [] k h = refl
  del_absent ((i, w) ∷ d) k h = ground (arith, del_absent d k)

  pub length-del :
      (d : Dict V) (k : String) (v : V)
      → Distinct d
      → get d k ≡ some v
      → length (del d k) + 1 ≡ length d
  unfolding get del
  length-del [] k v u h = cc
  length-del ((i, w) ∷ d) k v u h = ground (arith, length-del d k v u.1, del_absent d k, eq_iff i k)

  pub keep_absent :
      (p : (String × V) → Bool) (d : Dict V) (k : String) → get d k ≡ none → get (keep p d) k ≡ none
  unfolding get keep
  keep_absent p [] k h = refl
  keep_absent p (e ∷ d) k h = ground (arith, keep_absent p d k)

  -- A comprehension keeps exactly the entries that pass.
  pub get-keep :
      (p : (String × V) → Bool) (d : Dict V) (k : String) (v : V)
      → Distinct d
      → get d k ≡ some v
      → get (keep p d) k ≡ (if p (k, v) then some v else none)
  unfolding get keep
  get-keep p [] k v u h = cc
  get-keep p ((i, w) ∷ d) k v u h =
      ground (arith, get-keep p d k v u.1, keep_absent p d k, eq_iff i k)

  pub keep-Distinct : (p : (String × V) → Bool) (d : Dict V) → Distinct d → Distinct (keep p d)
  unfolding keep
  keep-Distinct p [] h = tt
  keep-Distinct p ((i, w) ∷ d) h = ground (arith, keep-Distinct p d h.1, keep_absent p d i)

  pub drop_absent : (n : ℕ) (d : Dict V) (k : String) → get d k ≡ none → get (drop n d) k ≡ none
  unfolding get
  drop_absent zero d k h = h
  drop_absent (suc n) [] k h = refl
  drop_absent (suc n) ((i, w) ∷ d) k h = drop_absent n d k (ground arith)

  pub drop-Distinct : (n : ℕ) (d : Dict V) → Distinct d → Distinct (drop n d)
  drop-Distinct zero d h = h
  drop-Distinct (suc n) [] h = tt
  drop-Distinct (suc n) (e ∷ d) h = drop-Distinct n d h.1

  -- An entry appended under a new key.
  pub append-Distinct :
      (d : Dict V) (k : String) (v : V) → get d k ≡ none → Distinct d → Distinct (d ++ (k, v) ∷ [])
  unfolding get
  append-Distinct [] k v h u = (refl, tt)
  append-Distinct ((i, w) ∷ d) k v h u =
      ground (arith, append-Distinct d k v, get-append d ((k, v) ∷ []) i, eq_iff k i, eq_iff i k)
