-- ===== src/Prelude/Texts.antt =====
-- A text is the list of its character codes: its bytes, where it is ASCII.
use Prim.Native.Nat.{ℕ}
use Prim.Native.Char.{code}
use Prim.Native.String.{String}
use mathlib.Core.Path.{◌≡◌, refl}
use mathlib.Core.Logic.{◌≢◌, ◌↔◌, inl, inr}
use mathlib.Core.Bool.{Bool, true, false, ◌&&◌}
use mathlib.Core.List.{List, [], ◌∷◌, ◌++◌}
use native.Mathlib.Omega.{arith}
use sonata.Prelude.Tests.{◌==◌, ltb, if◌then◌else◌, Bool-cases}
use sonata.Prelude.Lists.{any, All}

abbrev pub Text : Type 0
Text = List ℕ

abbrev pub codes : String → Text
codes String.[] = []
codes (String.◌∷◌ c s) = code c ∷ codes s

unfoldable pub same : Text → Text → Bool
same [] [] = true
same (a ∷ s) (b ∷ t) = a == b && same s t
same _ _ = false

pub same→eq : (s t : Text) → same s t ≡ true → s ≡ t
unfolding same
same→eq [] [] h = refl
same→eq [] (b ∷ t) h = cc
same→eq (a ∷ s) [] h = cc
same→eq (a ∷ s) (b ∷ t) h = ground (arith, same→eq s t)

pub same_refl : (s : Text) → same s s ≡ true
unfolding same
same_refl [] = refl
same_refl (a ∷ s) = ground (arith, same_refl s)

unfoldable pub is_empty : Text → Bool
is_empty [] = true
is_empty (a ∷ s) = false

-- The order of texts, character by character: a proper prefix comes first.
unfoldable pub text_ltb : Text → Text → Bool
text_ltb [] [] = false
text_ltb [] (b ∷ t) = true
text_ltb (a ∷ s) [] = false
text_ltb (a ∷ s) (b ∷ t) = let rest = text_ltb s t in if a == b then rest else ltb a b

pub text_ltb-append_left : (p s t : Text) → text_ltb (p ++ s) (p ++ t) ≡ text_ltb s t
unfolding text_ltb
text_ltb-append_left [] s t = refl
text_ltb-append_left (a ∷ p) s t = ground (arith, text_ltb-append_left p s t)

pub same-false : (s t : Text) → (same s t ≡ false) ↔ (s ≢ t)
same-false s t = (
  (λ e f. cc (same_refl t, e, f)),
  (λ k. elim (Bool-cases (same s t)) [ inl e ↦ absurd (k (same→eq s t e)) | inr e ↦ e ]),
)

pub is_empty-false : (s : Text) → (is_empty s ≡ false) ↔ (s ≢ [])
unfolding is_empty
is_empty-false [] = ((λ e. cc e), (λ k. absurd (k refl)))
is_empty-false (c ∷ s) = ((λ e f. cc f), (λ k. refl))

pub fresh_text :
    (q : Text) (seen : List Text) → (any (same q) seen ≡ false) ↔ All (λ queue. q ≢ queue) seen
fresh_text q [] = ((λ e. tt), (λ e. refl))
fresh_text q (t ∷ seen) =
    let one = same-false q t in
    let rest = fresh_text q seen in
    (
      (λ e. (one.0 (ground arith), rest.0 (ground arith))),
      (λ (k, ks). rw (one.1 k, rest.1 ks) refl),
    )
