-- ===== src/Store/Id/Order.antt =====
-- The order of the ids of internal/store/id.go as texts, which is that of `ORDER BY id`.
use sonata.Prelude.{
  ℕ, ◌+◌, ◌*◌, ◌/◌, ◌%◌, ◌^◌, ◌≤◌, ◌<◌, ◌≡◌, refl, true, List, [], ◌∷◌, ◌++◌, Text, text_ltb, All,
  ltb, ◌==◌, if◌then◌else◌, arith,
}
use sonata.Prelude.Digits.{fixed, text_ltb-fixed}
use sonata.Store.Id.{IdState, advance, hex, counter_groups, id_text, after_calls, new_ids}

-- Every text is below all the later ones.
abbrev pub Ascending : List Text → Type 0
Ascending [] = Unit
Ascending (t ∷ ts) = All (λ u. text_ltb t u ≡ true) ts × Ascending ts

-- The timestamp and the counter as one number.
value : IdState → ℕ
value s = s.ms * 4096 + s.seq

advance-value :
    (now random : ℕ) (s : IdState)
    → s.seq < 4096
    → (value s < value (advance now random s))
      × ((advance now random s).seq < 4096)
      × (s.ms ≤ (advance now random s).ms)
unfolding advance value
advance-value now random s h = ground arith

dash_order : (s t : Text) → text_ltb (b'-' ∷ s) (b'-' ∷ t) ≡ text_ltb s t
unfolding text_ltb
dash_order s t = refl

hex_order :
    (w a b : ℕ) (r s : Text)
    → a < 16 ^ w
    → b < 16 ^ w
    → text_ltb (fixed hex 16 w a ++ r) (fixed hex 16 w b ++ s)
      ≡ (if a == b then text_ltb r s else ltb a b)
hex_order w a b r s = text_ltb-fixed hex 16 (omega arith) (λ c d h k. ground arith) w a b r s

id_text-order :
    (s t : IdState) (r q : ℕ)
    → s.seq < 4096
    → t.seq < 4096
    → s.ms ≤ t.ms
    → t.ms < 2 ^ 48
    → value s < value t
    → text_ltb (id_text s r) (id_text t q) ≡ true
unfolding id_text counter_groups value
id_text-order s t r q hs ht le lt h =
    rw
      (
        hex_order 8 (s.ms % 2 ^ 48 / 2 ^ 16) (t.ms % 2 ^ 48 / 2 ^ 16) _ _ (omega arith)
            (omega arith),
        dash_order,
        hex_order 4 (s.ms % 2 ^ 16) (t.ms % 2 ^ 16) _ _ (omega arith) (omega arith),
        dash_order,
        hex_order 4 (0x7000 + s.seq % 2 ^ 12) (0x7000 + t.seq % 2 ^ 12) _ _ (omega arith)
            (omega arith),
      )
      (ground arith)

after_calls-ms :
    (calls : List (ℕ × ℕ)) (s : IdState) → s.seq < 4096 → s.ms ≤ (after_calls calls s).ms
unfolding after_calls
after_calls-ms [] s h = omega arith
after_calls-ms ((now, random) ∷ calls) s h =
    let (v, q, m) = advance-value now random s h in
    omega (arith, after_calls-ms calls (advance now random s) q, m)

new_ids-above :
    (calls : List (ℕ × ℕ)) (s t : IdState) (r : ℕ)
    → s.seq < 4096
    → t.seq < 4096
    → s.ms ≤ t.ms
    → value s ≤ value t
    → (after_calls calls t).ms < 2 ^ 48
    → All (λ u. text_ltb (id_text s r) u ≡ true) (new_ids calls t)
unfolding new_ids after_calls
new_ids-above [] s t r hs ht m v b = tt
new_ids-above ((now, random) ∷ calls) s t r hs ht m v b =
    let (v', q, m') = advance-value now random t ht in
    let last = after_calls-ms calls (advance now random t) q in
    (
      id_text-order s (advance now random t) r random hs q (omega arith) (omega (arith, last, b))
          (omega arith),
      new_ids-above calls s (advance now random t) r hs q (omega arith) (omega arith) b,
    )

-- From a state whose counter is below 4096, and whatever the clock and the random bytes do from
-- call to call, a clock that stands still or runs back included, each id of NewID is below all the
-- later ones as a text, as long as the timestamp stays below 2 ^ 48 ms.
pub new_ids-Ascending :
    (calls : List (ℕ × ℕ)) (s : IdState)
    → s.seq < 4096
    → (after_calls calls s).ms < 2 ^ 48
    → Ascending (new_ids calls s)
unfolding new_ids after_calls
new_ids-Ascending [] s h b = tt
new_ids-Ascending ((now, random) ∷ calls) s h b =
    let (v, q, m) = advance-value now random s h in
    (
      new_ids-above calls (advance now random s) (advance now random s) random q q (omega arith)
          (omega arith) b,
      new_ids-Ascending calls (advance now random s) q b,
    )
