-- ===== src/UserStore/Pattern/Glob.antt =====
-- internal/storage/user_store.go: what a pattern means, and the parts that it is made of.
use taskqueue_go.Prelude.{
  ℕ, ◌+◌, ◌≤◌, ◌≡◌, ◌≢◌, ◌↔◌, inl, inr, refl, sym, ap, ◌∙◌, subst, true, false, [], ◌∷◌, ◌++◌,
  arith, length, Bool-cases,
}
use taskqueue_go.UserStore.Pattern.{Text, star, same, has_prefix, has_suffix, contains_star}

-- A star stands for any text, any other character for itself.
pub data Glob : Text → Text → Type 0 where
  end : Glob [] []
  letter : {c : ℕ} {p t : Text} → c ≢ star → Glob p t → Glob (c ∷ p) (c ∷ t)
  leave : {p t : Text} → Glob p t → Glob (star ∷ p) t
  take : {c : ℕ} {p t : Text} → Glob (star ∷ p) t → Glob (star ∷ p) (c ∷ t)

pub same_iff : (t u : Text) → (same t u ≡ true) ↔ (t ≡ u)
unfolding same
same_iff [] [] = (λ h. refl, λ h. refl)
same_iff [] (d ∷ u) = (λ h. cc, λ h. cc)
same_iff (c ∷ t) [] = (λ h. cc, λ h. cc)
same_iff (c ∷ t) (d ∷ u) =
    let (f, g) = same_iff t u in (λ h. ground (arith, f), λ h. ground (arith, g))

pub has_prefix_iff : (t p : Text) → (has_prefix t p ≡ true) ↔ ((m : Text) × (t ≡ p ++ m))
unfolding has_prefix
has_prefix_iff t [] = (λ h. (t, refl), λ h. refl)
has_prefix_iff [] (d ∷ p) = (λ h. cc, λ (m, h). cc)
has_prefix_iff (c ∷ t) (d ∷ p) =
    let (f, g) = has_prefix_iff t p in
    (
      λ h.
          let rest : has_prefix t p ≡ true = ground arith in
          let (m, e) = f rest in (m, ground arith),
      λ (m, e). let rest : t ≡ p ++ m = ground arith in ground (arith, g (m, rest)),
    )

append-is_nil : (m q : Text) → [] ≡ m ++ q → [] ≡ q
append-is_nil [] q e = e
append-is_nil (c ∷ m) q e = cc

pub has_suffix_iff : (t q : Text) → (has_suffix t q ≡ true) ↔ ((m : Text) × (t ≡ m ++ q))
unfolding has_suffix
has_suffix_iff [] q =
    (λ h. ([], (same_iff [] q).0 h), λ (m, e). (same_iff [] q).1 (append-is_nil m q e))
has_suffix_iff (c ∷ t) q =
    let (f, g) = has_suffix_iff t q in
    (
      λ h. elim (Bool-cases (same (c ∷ t) q)) [
        | inl whole ↦ ([], (same_iff (c ∷ t) q).0 whole)
        | inr part ↦
            let rest : has_suffix t q ≡ true = ground arith in
            let (m, e) = f rest in (c ∷ m, ground arith)
      ],
      λ (m, e). split m e g,
    )
  where
    split :
        (m : Text)
        → c ∷ t ≡ m ++ q
        → (((m : Text) × (t ≡ m ++ q)) → has_suffix t q ≡ true)
        → has_suffix (c ∷ t) q ≡ true
    split [] e g = ground (arith, (same_iff (c ∷ t) q).1 e)
    split (d ∷ m) e g = let rest : t ≡ m ++ q = ground arith in ground (arith, g (m, rest))

-- A text that begins with one text and ends in another, and is as long as both, is made of them.
pub between :
    (t p q a b : Text)
    → t ≡ p ++ a
    → t ≡ b ++ q
    → length p + length q ≤ length t
    → (m : Text) × (t ≡ p ++ (m ++ q))
between t [] q a b e f h = (b, f)
between t (c ∷ p) q a [] e f h = absurd (omega (arith, ap length f))
between [] (c ∷ p) q a (d ∷ b) e f h = absurd (omega arith)
between (x ∷ t) (c ∷ p) q a (d ∷ b) e f h =
    let (m, g) = between t p q a b (ground arith) (ground arith) (omega arith) in (m, ground arith)

-- A pattern with no star stands for itself alone.
pub Glob-plain : (p t : Text) → contains_star p ≡ false → Glob p t ↔ (p ≡ t)
unfolding contains_star
Glob-plain p t plain = (λ g. only g plain, λ e. subst (Glob p) e (itself p plain))
  where
    only : {p t : Text} → Glob p t → contains_star p ≡ false → p ≡ t
    only end h = refl
    only (letter {c} n g) h = ap (λ u. c ∷ u) (only g (ground arith))
    only (leave g) h = cc
    only (take g) h = cc

    itself : (p : Text) → contains_star p ≡ false → Glob p p
    itself [] h = end
    itself (c ∷ p) h = letter (λ e. ground arith) (itself p (ground arith))

take_all : (m : Text) {p t : Text} → Glob (star ∷ p) t → Glob (star ∷ p) (m ++ t)
take_all [] g = g
take_all (c ∷ m) g = take (take_all m g)

-- A star in front of a plain text stands for anything in front of it.
pub Glob-star :
    (q t : Text) → contains_star q ≡ false → Glob (star ∷ q) t ↔ ((m : Text) × (t ≡ m ++ q))
Glob-star q t plain = (
  λ g. front g,
  λ (m, e). subst (Glob (star ∷ q)) (sym e) (take_all m (leave ((Glob-plain q q plain).1 refl))),
)
  where
    front : {t : Text} → Glob (star ∷ q) t → (m : Text) × (t ≡ m ++ q)
    front (letter n g) = absurd (n refl)
    front {t} (leave g) = ([], sym ((Glob-plain q t plain).0 g))
    front (take {c} g) = let (m, e) = front g in (c ∷ m, ap (λ u. c ∷ u) e)

letter_inv : {c : ℕ} {p t : Text} → c ≢ star → Glob (c ∷ p) t → (u : Text) × (t ≡ c ∷ u) × Glob p u
letter_inv n (letter {t} _ g) = (t, refl, g)
letter_inv n (leave g) = absurd (n refl)
letter_inv n (take g) = absurd (n refl)

pub Glob-one_star :
    (p q t : Text)
    → contains_star p ≡ false
    → contains_star q ≡ false
    → Glob (p ++ star ∷ q) t ↔ ((m : Text) × (t ≡ p ++ (m ++ q)))
unfolding contains_star
Glob-one_star [] q t h plain = Glob-star q t plain
Glob-one_star (c ∷ p) q t h plain = (
  λ g.
      let (u, e, rest) = letter_inv (λ is_star. ground arith) g in
      let (m, f) = (Glob-one_star p q u (ground arith) plain).0 rest in (m, e ∙ ap (λ v. c ∷ v) f),
  λ (m, e). subst (Glob (c ∷ (p ++ star ∷ q))) (sym e) (
      letter (λ is_star. ground arith)
        ((Glob-one_star p q (p ++ (m ++ q)) (ground arith) plain).1 (m, refl))),
)
