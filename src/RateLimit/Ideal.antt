-- ===== src/RateLimit/Ideal.antt =====
-- app/core/rate_limit.py: sequences of calls with one limit and a clock that never goes back, and the
-- limiter that remembers every admitted request, as an independent description.
use application_workflow_ser.Base.{
  ℕ, ◌+◌, ◌≤◌, Bool, true, false, not, Option, none, some, List, [], ◌∷◌, ◌++◌, ltb, if◌then◌else◌,
  String, str_eq,
}
use application_workflow_ser.Text.{Text}
use application_workflow_ser.RateLimit.{Entry, Limit, Limiter, Verdict, check_rate_limit}
use application_workflow_ser.RateLimit.Window.{in_window}

pub record Call : Type 0 where
  pub cleanup_at : ℕ
  pub at : ℕ
  pub user : String
  pub increment : ℕ

-- The readings of the clock never go back.
abbrev pub Forward : ℕ → List Call → Type 0
Forward t [] = Unit
Forward t (k ∷ ks) = (t ≤ k.cleanup_at) × (k.cleanup_at ≤ k.at) × Forward k.at ks

abbrev pub entry_of : Call → Entry
entry_of k = record { timestamp = k.at; count = k.increment }

-- What the ideal limiter knows: the admitted requests of every user, forever.
abbrev pub Memory : Type 0
Memory = String → List Entry

unfoldable pub remember : Memory → String → Entry → Memory
remember g user e u = if str_eq user u then g u ++ e ∷ [] else g u

abbrev pub remember_if : Bool → Memory → Call → Memory
remember_if true g k = remember g k.user (entry_of k)
remember_if false g k = g

unfoldable pub ideal_allows : Limit → Memory → Call → Bool
ideal_allows lim g k =
    not (ltb lim.max_requests (in_window lim.window_seconds k.at (g k.user) + k.increment))

unfoldable pub ideal : Limit → Memory → List Call → List Bool
ideal lim g [] = []
ideal lim g (k ∷ ks) = let ok = ideal_allows lim g k in ok ∷ ideal lim (remember_if ok g k) ks

-- The requests a sequence of decisions admits, for a user.
unfoldable pub admitted : Memory → List Call → List Bool → Memory
admitted g (k ∷ ks) (ok ∷ oks) = admitted (remember_if ok g k) ks oks
admitted g _ _ = g

unfoldable pub is_allowed : Option Verdict → Bool
is_allowed none = false
is_allowed (some v) = v.allowed

-- The decisions of the code, call after call.
module _ (second : ℕ) (int : Text → Option ℕ) (limit_str : Text) where
  unfoldable pub decisions : List Call → Limiter → List Bool
  decisions [] c = []
  decisions (k ∷ ks) c =
      let (v, c') = check_rate_limit second int k.cleanup_at k.at k.user limit_str k.increment c in
      is_allowed v ∷ decisions ks c'
