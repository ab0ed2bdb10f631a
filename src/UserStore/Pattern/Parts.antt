-- ===== src/UserStore/Pattern/Parts.antt =====
-- internal/storage/user_store.go: matchesPattern, part by part, against what a pattern means.
use taskqueue_go.Prelude.{
  ℕ, suc, ◌<◌, ◌+◌, ◌≤◌, ◌≡◌, ◌↔◌, inl, inr, refl, sym, ap, ◌∙◌, subst, true, false, List, [], ◌∷◌,
  ◌++◌, if◌then◌else◌, eqb, arith, length, length-append, Bool-cases,
}
use mathlib.Core.List.{append_assoc, append-nil}
use taskqueue_go.UserStore.Pattern.{
  Text, star, same, has_prefix, has_suffix, contains_star, split_at_stars, cut, match_parts,
  matches_pattern,
}
use taskqueue_go.UserStore.Pattern.Glob.{
  Glob, end, letter, leave, same_iff, has_prefix_iff, has_suffix_iff, between, Glob-plain,
  Glob-star, Glob-one_star,
}

-- What splitting a pattern says of it, when it gives one part or two.
abbrev Shape : Text → Text × List Text → Type 0
Shape p (part, []) = (p ≡ part) × (contains_star p ≡ false)
Shape p (part, last ∷ []) =
    (p ≡ part ++ star ∷ last)
    × (contains_star p ≡ true)
    × (contains_star part ≡ false)
    × (contains_star last ≡ false)
Shape p (part, q ∷ r ∷ parts) = contains_star p ≡ true

cut-Shape : (c : ℕ) (p : Text) (x : Text × List Text) → Shape p x → Shape (c ∷ p) (cut c x)
unfolding contains_star
cut-Shape c p (part, []) h = ground arith
cut-Shape c p (part, q ∷ []) h = ground arith
cut-Shape c p (part, q ∷ r ∷ parts) h = ground arith

split_at_stars-Shape : (p : Text) → Shape p (split_at_stars p)
unfolding split_at_stars contains_star
split_at_stars-Shape [] = (refl, refl)
split_at_stars-Shape (c ∷ p) = cut-Shape c p (split_at_stars p) (split_at_stars-Shape p)

-- The number of stars.
abbrev pub stars : Text → ℕ
stars [] = 0
stars (c ∷ p) = (if eqb c star then 1 else 0) + stars p

length-split_at_stars : (p : Text) → length (split_at_stars p).1 ≡ stars p
unfolding split_at_stars
length-split_at_stars [] = refl
length-split_at_stars (c ∷ p) = ground (arith, length-split_at_stars p)

match_parts_iff :
    (p str : Text) (x : Text × List Text)
    → Shape p x
    → length x.1 ≡ 1
    → length p ≤ suc (length str)
    → (match_parts str x ≡ true) ↔ Glob p str
match_parts_iff p str (part, []) h one fits = absurd (omega arith)
match_parts_iff p str (part, q ∷ r ∷ parts) h one fits = absurd (omega arith)
match_parts_iff p str (part, q ∷ []) (e, _, plain, plain') one fits =
    let (f, g) = Glob-one_star part q str plain plain' in
    (
      λ h.
          let begins : has_prefix str part ≡ true = ground arith in
          let ends : has_suffix str q ≡ true = ground arith in
          let (a, i) = (has_prefix_iff str part).0 begins in
          let (b, j) = (has_suffix_iff str q).0 ends in
          let long : length part + length q ≤ length str =
            omega (arith, ap length e, length-append part (star ∷ q)) in
          subst (λ p'. Glob p' str) (sym e) (g (between str part q a b i j long)),
      λ m.
          let (k, i) = f (subst (λ p'. Glob p' str) e m) in
          let begins = (has_prefix_iff str part).1 (k ++ q, i) in
          let ends = (has_suffix_iff str q).1 (part ++ k, i ∙ sym (append_assoc part k q)) in
          ground (arith, begins, ends),
    )

stars-contains_star : (p : Text) → contains_star p ≡ true → 0 < stars p
unfolding contains_star
stars-contains_star [] h = cc
stars-contains_star (c ∷ p) h = ground (arith, stars-contains_star p)

-- A pattern with at most one star matches exactly the texts that it means, the star standing for
-- any text; where it has a star, for texts that are at least as long as its other characters.
pub matches_pattern_iff :
    (str p : Text)
    → stars p ≤ 1
    → (contains_star p ≡ true → length p ≤ suc (length str))
    → (matches_pattern str p ≡ true) ↔ Glob p str
unfolding matches_pattern contains_star
matches_pattern_iff str p few fits = elim (Bool-cases (same p (star ∷ []))) [
  | inl lone ↦
      let is_star = (same_iff p (star ∷ [])).0 lone in
      (
        λ h.
            subst (λ p'. Glob p' str) (sym is_star)
              ((Glob-star [] str refl).1 (str, sym (append-nil str))),
        λ g. ground arith,
      )
  | inr other ↦ elim (Bool-cases (contains_star p)) [
    | inl starred ↦
        rw (other, starred)
          (match_parts_iff p str (split_at_stars p) (split_at_stars-Shape p)
            (omega (arith, length-split_at_stars p, stars-contains_star p starred, few))
            (fits starred))
    | inr plain ↦
        let (f, g) = Glob-plain p str plain in
        let (f', g') = same_iff str p in
        rw (other, plain) (λ h. g (sym (f' h)), λ m. g' (sym (f m)))
  ]
]

match_parts_many : (str : Text) (x : Text × List Text) → 1 < length x.1 → match_parts str x ≡ false
match_parts_many str (part, []) h = absurd (omega arith)
match_parts_many str (part, q ∷ []) h = absurd (omega arith)
match_parts_many str (part, q ∷ r ∷ parts) h = refl

contains_star-stars : (p : Text) → 0 < stars p → contains_star p ≡ true
unfolding contains_star
contains_star-stars [] h = absurd (omega arith)
contains_star-stars (c ∷ p) h = ground (arith, contains_star-stars p)

-- Every pattern means some text.
meant : (p : Text) → (t : Text) × Glob p t
meant [] = ([], end)
meant (c ∷ p) =
    let (t, g) = meant p in
    elim (Bool-cases (eqb c star)) [
      | inl is_star ↦
          let e : c ≡ star = ground arith in (t, subst (λ d. Glob (d ∷ p) t) (sym e) (leave g))
      | inr other ↦ (c ∷ t, letter (λ e. ground arith) g)
    ]

-- A pattern with two stars or more matches no text, though it means some.
pub matches_pattern_many :
    (str p : Text) → 1 < stars p → (matches_pattern str p ≡ false) × (t : Text) × Glob p t
unfolding matches_pattern
matches_pattern_many str p many =
    let (t, g) = meant p in
    let starred = contains_star-stars p (omega arith) in
    let unmatched =
      match_parts_many str (split_at_stars p) (omega (arith, length-split_at_stars p)) in
    elim (Bool-cases (same p (star ∷ []))) [
      | inl lone ↦
          let one : stars p ≡ 1 = ap stars ((same_iff p (star ∷ [])).0 lone) in absurd (omega arith)
      | inr other ↦ (rw (other, starred) unmatched, t, g)
    ]
