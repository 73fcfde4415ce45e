-- ===== src/Base/Moves.antt =====
-- Entries of a dict that move to its end: `d[k] = v` and `move_to_end` of an `OrderedDict`.
use Prim.Native.String.{String}
use Prim.Native.Nat.{◌+◌, ◌≤◌}
use mathlib.Core.List.{[], ◌∷◌, ◌++◌}
use mathlib.Core.Option.{none, some}
use mathlib.Core.Path.{◌≡◌}
use native.Mathlib.Omega.{arith}
use text.Mathlib.Text.{◌==◌}
use text.Mathlib.TextEquality.{eq_iff}
use text.Mathlib.TextPositions.{eq_refl}
use application_workflow_ser.Base.Tests.{if◌then◌else◌}
use application_workflow_ser.Base.Lists.{length, length-append}
use application_workflow_ser.Base.Dict.{
  Dict, get, put, del, Distinct, get-del, get-append, del-Distinct, length-del, append-Distinct,
}

module _ {V : Type 0} where
  pub del-put : (d : Dict V) (k : String) (v : V) → del (put d k v) k ≡ del d k
  unfolding del put
  del-put [] k v = ground (arith, eq_iff k k)
  del-put ((i, w) ∷ d) k v = ground (arith, del-put d k v, eq_iff i k)

  pub length-del-le : (d : Dict V) (k : String) → length (del d k) ≤ length d
  unfolding del
  length-del-le [] k = omega arith
  length-del-le ((i, w) ∷ d) k = ground (arith, length-del-le d k)

  pub length-put_old :
      (d : Dict V) (k : String) (v w : V) → get d k ≡ some w → length (put d k v) ≡ length d
  unfolding get put
  length-put_old [] k v w h = cc
  length-put_old ((i, u) ∷ d) k v w h = ground (arith, length-put_old d k v w)

  pub put-append :
      (d : Dict V) (k : String) (v w : V)
      → get d k ≡ none
      → put (d ++ (k, v) ∷ []) k w ≡ d ++ (k, w) ∷ []
  unfolding get put
  put-append [] k v w h = ground (arith, eq_iff k k)
  put-append ((i, u) ∷ d) k v w h = ground (arith, put-append d k v w, eq_iff i k)

  pub absent-del : (d : Dict V) (k : String) → get (del d k) k ≡ none
  absent-del d k = rw (get-del d k k) (rw (eq_refl k))

  pub last-Distinct :
      (d : Dict V) (k : String) (v : V) → Distinct d → Distinct (del d k ++ (k, v) ∷ [])
  last-Distinct d k v u = append-Distinct (del d k) k v (absent-del d k) (del-Distinct d k u)

  -- Moving an old entry to the end keeps the size, a new one adds one.
  pub length-last :
      (d : Dict V) (k : String) (v w : V)
      → Distinct d
      → get d k ≡ some w
      → length (del d k ++ (k, v) ∷ []) ≡ length d
  length-last d k v w u h =
      omega (arith, length-append (del d k) ((k, v) ∷ []), length-del d k w u h)

  pub length-last-le :
      (d : Dict V) (k : String) (v : V) → length (del d k ++ (k, v) ∷ []) ≤ length d + 1
  length-last-le d k v = omega (arith, length-append (del d k) ((k, v) ∷ []), length-del-le d k)

  pub get-last :
      (d : Dict V) (k : String) (v : V) (j : String)
      → get (del d k ++ (k, v) ∷ []) j ≡ (if k == j then some v else get d j)
  unfolding get
  get-last d k v j =
      rw (get-append (del d k) ((k, v) ∷ []) j) (rw (get-del d k j) (ground (arith, eq_iff k j)))
