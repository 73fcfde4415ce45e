-- ===== src/Text.antt =====
-- Python's `str` as the list of its code points, with what the program uses of it: literals,
-- decimal numbers in f-strings, `lower` on ASCII letters, and `pattern in text`.
use Prim.Native.Char.{code}
use application_workflow_ser.Base.{
  ℕ, zero, suc, ◌+◌, ◌/◌, ◌%◌, ◌≡◌, refl, String, Bool, true, false, ◌&&◌, ◌||◌, List, [], ◌∷◌,
  ◌++◌, map, arith, ltb, leb, ◌==◌, if◌then◌else◌,
}

abbrev pub Text : Type 0
Text = List ℕ

abbrev pub text : String → Text
text String.[] = []
text (String.◌∷◌ c s) = code c ∷ text s

-- `str(n)`; a number has fewer digits than `n + 1`.
decimal_from : ℕ → ℕ → Text → Text
decimal_from zero n acc = acc
decimal_from (suc fuel) n acc =
    let more = decimal_from fuel (n / 10) ((48 + n % 10) ∷ acc) in
    if ltb n 10 then (48 + n) ∷ acc else more

unfoldable pub decimal : ℕ → Text
unfolding decimal_from
decimal n = decimal_from (n + 1) n []

lower_code : ℕ → ℕ
lower_code c = if leb b'A' c && leb c b'Z' then c + 32 else c

unfoldable pub lower : Text → Text
unfolding lower_code
lower = map lower_code

unfoldable pub begins : Text → Text → Bool
begins [] s = true
begins (c ∷ p) [] = false
begins (c ∷ p) (d ∷ s) = c == d && begins p s

-- `p in s`
unfoldable pub occurs : Text → Text → Bool
unfolding begins
occurs p [] = begins p []
occurs p (d ∷ s) = begins p (d ∷ s) || occurs p s

-- What occurs in a text occurs in any text that ends with it.
pub occurs-append : (p a s : Text) → occurs p s ≡ true → occurs p (a ++ s) ≡ true
unfolding occurs
occurs-append p [] s h = h
occurs-append p (c ∷ a) s h = ground (arith, occurs-append p a s h)

pub lower-append : (a s : Text) → lower (a ++ s) ≡ lower a ++ lower s
unfolding lower
lower-append [] s = refl
lower-append (c ∷ a) s = rw (lower-append a s)

-- `a == b` on texts
unfoldable pub same_text : Text → Text → Bool
same_text [] [] = true
same_text (c ∷ s) (d ∷ t) = c == d && same_text s t
same_text _ _ = false

-- `a <= b` on texts, by code points
unfoldable pub text_le : Text → Text → Bool
text_le [] t = true
text_le (c ∷ s) [] = false
text_le (c ∷ s) (d ∷ t) = if c == d then text_le s t else ltb c d

pub same_text_refl : (s : Text) → same_text s s ≡ true
unfolding same_text
same_text_refl [] = refl
same_text_refl (c ∷ s) = ground (arith, same_text_refl s)

pub same_text_sym : (s t : Text) → same_text s t ≡ same_text t s
unfolding same_text
same_text_sym [] [] = refl
same_text_sym [] (d ∷ t) = refl
same_text_sym (c ∷ s) [] = refl
same_text_sym (c ∷ s) (d ∷ t) = ground (arith, same_text_sym s t)
