-- ===== src/RateLimit/Bounds.antt =====
-- app/core/rate_limit.py: what any sequence of calls with one limit and a clock that never goes back
-- admits.
use application_workflow_ser.Base.{
  ℕ, ◌*◌, ◌≤◌, ◌≡◌, refl, Option, none, some, List, [], ◌∷◌, arith, String, ap,
}
use application_workflow_ser.Base.Dict
use application_workflow_ser.Text.{Text, lower}
use application_workflow_ser.RateLimit.{
  Limit, Limiter, new_limiter, cleanup_old_entries, check, checked, check_rate_limit, parse_limit,
  parse_parts, period_seconds, limit_of, split_from,
}
use application_workflow_ser.RateLimit.Ideal.{
  Call, Forward, Memory, remember_if, ideal_allows, ideal, admitted, is_allowed, decisions,
}
use application_workflow_ser.RateLimit.Window.{in_window}
use application_workflow_ser.RateLimit.Sliding.{Agrees, cleanup-Agrees, check-Agrees, later-Agrees}

abbrev pub nobody : Memory
nobody u = []

module _ (second : ℕ) (int : Text → Option ℕ) where
  period-bounded : (p : Text) (w : ℕ) → period_seconds second p ≡ some w → w ≤ 86400 * second
  unfolding period_seconds
  period-bounded p w h = ground arith

  limit_of-window :
      (n w : Option ℕ) (lim : Limit) → limit_of n w ≡ some lim → w ≡ some lim.window_seconds
  limit_of-window none w lim h = cc
  limit_of-window (some n) none lim h = cc
  limit_of-window (some n) (some w) lim h = ground arith

  parts-bounded :
      (l : List Text) (lim : Limit)
      → parse_parts second int l ≡ some lim
      → lim.window_seconds ≤ 86400 * second
  unfolding parse_parts
  parts-bounded [] lim h = cc
  parts-bounded (n ∷ []) lim h = cc
  parts-bounded (n ∷ p ∷ []) lim h =
      period-bounded (lower p) lim.window_seconds
        (limit_of-window (int n) (period_seconds second (lower p)) lim h)
  parts-bounded (n ∷ p ∷ q ∷ l) lim h = cc

  -- A parsed window is a day at most, which is what the cleanup keeps.
  pub window-bounded :
      (s : Text) (lim : Limit)
      → parse_limit second int s ≡ some lim
      → lim.window_seconds ≤ 86400 * second
  unfolding parse_limit
  window-bounded s lim h = parts-bounded (split_from [] s) lim h

  module _ (limit_str : Text) (lim : Limit)
      (parsed : parse_limit second int limit_str ≡ some lim) where
    abbrev Result : ℕ → Memory → List Call → Limiter → Type 0
    Result t g ks c =
        (decisions second int limit_str ks c ≡ ideal lim g ks)
        × ((u : String) (s : ℕ)
            → in_window lim.window_seconds s (admitted g ks (decisions second int limit_str ks c) u)
              ≤ lim.max_requests)

    call-check :
        (k : Call) (c : Limiter)
        → let c' = cleanup_old_entries (86400 * second) k.cleanup_at c in
          let r = check k.at k.user lim k.increment c' in
          check_rate_limit second int k.cleanup_at k.at k.user limit_str k.increment c
          ≡ (some r.0, r.1)
    unfolding check_rate_limit
    call-check k c = rw parsed (unfold checked in refl)

    abbrev day : ℕ
    day = 86400 * second

    run-Result :
        (t : ℕ) (g : Memory) (ks : List Call) (c : Limiter)
        → Forward t ks
        → Agrees day lim t c g
        → Result t g ks c
    unfolding decisions ideal admitted is_allowed
    run-Result t g [] c f a = (refl, a.bounded)
    run-Result t g (k ∷ ks) c f a =
        let c' = cleanup_old_entries day k.cleanup_at c in
        let cleaned =
          cleanup-Agrees day lim t k.cleanup_at c g (window-bounded limit_str lim parsed) f.0 a in
        let before = later-Agrees day lim k.cleanup_at k.at c' g f.1 cleaned in
        let (same, after) = check-Agrees day lim k c' g before in
        let g' = remember_if (ideal_allows lim g k) g k in
        let rest = run-Result k.at g' ks (check k.at k.user lim k.increment c').1 f.2 after in
        rw (call-check k c) (rw same (ap (◌∷◌ (ideal_allows lim g k)) rest.0, rest.1))

    start-Agrees : (interval now : ℕ) → Agrees day lim now (new_limiter interval now) nobody
    unfolding Dict.get in_window
    start-Agrees interval now = record {
      distinct = tt;
      recent = λ u s h. refl;
      past = λ u s h. tt;
      bounded = λ u s. omega arith;
    }

    -- From an empty limiter on, with one limit and a clock that never goes back, the code admits a
    -- request exactly when a limiter does that remembers every admitted request and counts those
    -- of the user in the window that ends at the reading.
    pub decisions-ideal :
        (interval now : ℕ) (ks : List Call)
        → Forward now ks
        → decisions second int limit_str ks (new_limiter interval now) ≡ ideal lim nobody ks
    decisions-ideal interval now ks f =
        (run-Result now nobody ks (new_limiter interval now) f (start-Agrees interval now)).0

    -- From an empty limiter on, with one limit and a clock that never goes back, no window of the
    -- limit's width, wherever it ends, holds more admitted requests of a user than the limit.
    pub admitted-bounded :
        (interval now : ℕ) (ks : List Call) (u : String) (t : ℕ)
        → Forward now ks
        → in_window lim.window_seconds t
            (admitted nobody ks (decisions second int limit_str ks (new_limiter interval now)) u)
          ≤ lim.max_requests
    admitted-bounded interval now ks u t f =
        (run-Result now nobody ks (new_limiter interval now) f (start-Agrees interval now)).1 u t
