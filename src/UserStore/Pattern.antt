-- ===== src/UserStore/Pattern.antt =====
-- internal/storage/user_store.go: matchesPattern, with what it uses of package strings. A text is
-- the list of its characters' codes; the star's is 42.
pub mod Glob
pub mod Parts
pub mod Search
pub mod Tests
use Prim.Native.Char.{code}
use taskqueue_go.Prelude.{
  ℕ, Bool, true, false, ◌&&◌, ◌||◌, List, [], ◌∷◌, String, if◌then◌else◌, eqb,
}

abbrev pub Text : Type 0
Text = List ℕ

abbrev pub codes : String → Text
codes String.[] = []
codes (String.◌∷◌ c s) = code c ∷ codes s

abbrev pub star : ℕ
star = 42

-- ==
unfoldable pub same : Text → Text → Bool
same [] [] = true
same [] (d ∷ u) = false
same (c ∷ t) [] = false
same (c ∷ t) (d ∷ u) = eqb c d && same t u

-- strings.HasPrefix(t, p) and strings.HasSuffix(t, q)
unfoldable pub has_prefix : Text → Text → Bool
has_prefix t [] = true
has_prefix [] (d ∷ p) = false
has_prefix (c ∷ t) (d ∷ p) = eqb c d && has_prefix t p

unfoldable pub has_suffix : Text → Text → Bool
unfolding same
has_suffix [] q = same [] q
has_suffix (c ∷ t) q = same (c ∷ t) q || has_suffix t q

-- strings.Contains(p, "*")
unfoldable pub contains_star : Text → Bool
contains_star [] = false
contains_star (c ∷ p) = eqb c star || contains_star p

-- strings.Split(p, "*"): its first part and those that follow.
abbrev pub cut : ℕ → Text × List Text → Text × List Text
cut c (part, parts) = if eqb c star then ([], part ∷ parts) else (c ∷ part, parts)

unfoldable pub split_at_stars : Text → Text × List Text
split_at_stars [] = ([], [])
split_at_stars (c ∷ p) = cut c (split_at_stars p)

abbrev pub match_parts : Text → Text × List Text → Bool
match_parts str (prefix, suffix ∷ []) = has_prefix str prefix && has_suffix str suffix
match_parts str (prefix, _) = false

unfoldable pub matches_pattern : Text → Text → Bool
matches_pattern str pattern' =
    if same pattern' (star ∷ [])
    then true
    else if contains_star pattern'
    then match_parts str (split_at_stars pattern')
    else same str pattern'
