-- ===== src/Executor/Buffers.antt =====
-- internal/executor/executor.go: cappedBuffer and tailBuffer. A byte string is a Text; each buffer is
-- guarded by its mutex, so that a sequence of writes is a list of chunks.
use mathlib.Core.Path.{subst}
use sonata.Prelude.{
  ℕ, zero, suc, ◌+◌, ◌-◌, ◌≤◌, ◌<◌, ◌≡◌, refl, sym, ap, ◌∙◌, Bool, true, false, ◌&&◌, List, [], ◌∷◌,
  ◌++◌, Text, length, drop, ltb, if◌then◌else◌, arith, length-append, length-drop, Bool-cases, inl,
  inr,
}

-- 8 << 10.
abbrev pub stderr_tail_size : ℕ
stderr_tail_size = 8192

-- tailBuffer.
pub record TailBuffer : Type 0 where
  pub buf : Text
  pub max : ℕ

unfoldable pub new_tail_buffer : ℕ → TailBuffer
new_tail_buffer max = record { buf = []; max = max }

-- tailBuffer.Write, which reports the whole chunk as written.
unfoldable pub write_tail : Text → TailBuffer → ℕ × TailBuffer
write_tail p b =
    let buf = b.buf ++ p in
    (
      length p,
      record b { buf = if ltb b.max (length buf) then drop (length buf - b.max) buf else buf },
    )

unfoldable pub write_tails : List Text → TailBuffer → TailBuffer
unfolding write_tail
write_tails [] b = b
write_tails (p ∷ ps) b = write_tails ps (write_tail p b).1

-- cappedBuffer: `over` is closed exactly when `done` is set. A cap of 0 is no cap.
pub record CappedBuffer : Type 0 where
  pub buf : Text
  pub max : ℕ
  pub done : Bool

unfoldable pub new_capped_buffer : ℕ → CappedBuffer
new_capped_buffer max = record { buf = []; max = max; done = false }

-- cappedBuffer.Write: a chunk that would exceed the cap is dropped whole, and reported as written.
unfoldable pub write_capped : Text → CappedBuffer → ℕ × CappedBuffer
write_capped p b =
    if ltb 0 b.max && ltb b.max (length b.buf + length p)
    then (length p, record b { done = true })
    else (length p, record b { buf = b.buf ++ p })

unfoldable pub write_cappeds : List Text → CappedBuffer → CappedBuffer
unfolding write_capped
write_cappeds [] b = b
write_cappeds (p ∷ ps) b = write_cappeds ps (write_capped p b).1

-- All that was written.
unfoldable pub flatten : List Text → Text
flatten [] = []
flatten (p ∷ ps) = p ++ flatten ps

-- The last `n` elements.
abbrev pub last_of : ℕ → Text → Text
last_of n t = drop (length t - n) t

drop-append : (n : ℕ) (s t : Text) → n ≤ length s → drop n (s ++ t) ≡ drop n s ++ t
drop-append zero s t h = refl
drop-append (suc n) [] t h = absurd (omega (arith, h))
drop-append (suc n) (c ∷ s) t h = drop-append n s t (omega (arith, h))

drop_nil : (n : ℕ) → drop {A = ℕ} n [] ≡ []
drop_nil zero = refl
drop_nil (suc n) = refl

drop-drop : (m n : ℕ) (s : Text) → drop m (drop n s) ≡ drop (n + m) s
drop-drop m zero s = ap (λ k. drop k s) (omega arith)
drop-drop m (suc n) [] = drop_nil m ∙ sym (drop_nil (suc n + m))
drop-drop m (suc n) (c ∷ s) =
    let e : suc (n + m) ≡ suc n + m = omega arith in drop-drop m n s ∙ ap (λ k. drop k (c ∷ s)) e

-- The tail of a tail and more is the tail of all.
last_of-last_of : (n : ℕ) (s t : Text) → last_of n (last_of n s ++ t) ≡ last_of n (s ++ t)
last_of-last_of n s t =
    let k : ℕ = length s - n in
    let moved : drop k s ++ t ≡ drop k (s ++ t) = sym (drop-append k s t (omega arith)) in
    rw moved (
      drop-drop (length (drop k (s ++ t)) - n) k (s ++ t)
      ∙ ap (λ m. drop m (s ++ t)) (omega (arith, length-drop k (s ++ t), length-append s t)))

append_nil : (s : Text) → s ++ [] ≡ s
append_nil [] = refl
append_nil (c ∷ s) = ap (λ t. c ∷ t) (append_nil s)

append_assoc_lem : (r s t : Text) → (r ++ s) ++ t ≡ r ++ (s ++ t)
append_assoc_lem [] s t = refl
append_assoc_lem (c ∷ r) s t = ap (λ u. c ∷ u) (append_assoc_lem r s t)

write_tail-last_of :
    (p : Text) (b : TailBuffer) → (write_tail p b).1.buf ≡ last_of b.max (b.buf ++ p)
unfolding write_tail
write_tail-last_of p b = elim (Bool-cases (ltb b.max (length (b.buf ++ p)))) [
  | inl e ↦ rw e refl
  | inr e ↦ let z : length (b.buf ++ p) - b.max ≡ 0 = ground arith in rw (e, z) refl
]

write_tails-last_of :
    (ps : List Text) (s : Text) (b : TailBuffer)
    → b.buf ≡ last_of b.max s
    → (write_tails ps b).buf ≡ last_of b.max (s ++ flatten ps)
unfolding write_tails flatten write_tail
write_tails-last_of [] s b e = rw append_nil e
write_tails-last_of (p ∷ ps) s b e =
    write_tails-last_of ps (s ++ p) (write_tail p b).1
      (write_tail-last_of p b ∙ (rw e (last_of-last_of b.max s p)))
    ∙ ap (last_of b.max) (append_assoc_lem s p (flatten ps))

-- However the output is cut into writes, a tail buffer holds the last `max` bytes of all of it.
pub tail_buffer-last_of :
    (max : ℕ) (ps : List Text)
    → (write_tails ps (new_tail_buffer max)).buf ≡ last_of max (flatten ps)
unfolding new_tail_buffer
tail_buffer-last_of max ps =
    write_tails-last_of ps [] (new_tail_buffer max) (sym (drop_nil (0 - max)))

-- What a capped buffer holds after some writes: all of them as long as none overflowed.
record Holds (s : Text) (b : CappedBuffer) : Type 0 where
  all : b.done ≡ false → b.buf ≡ s
  within : 0 < b.max → length b.buf ≤ b.max
  honest : b.done ≡ true → (0 < b.max) × (b.max < length s)
  least : length b.buf ≤ length s

write_capped-Holds :
    (p s : Text) (b : CappedBuffer) → Holds s b → Holds (s ++ p) (write_capped p b).1
unfolding write_capped
write_capped-Holds p s b h =
    elim (Bool-cases (ltb 0 b.max && ltb b.max (length b.buf + length p))) [
      | inl e ↦ rw e (record {
        all = λ x. cc;
        within = h.within;
        honest = λ x. let least = h.least in ground (arith, length-append s p);
        least = omega (arith, h.least, length-append s p);
      })
      | inr e ↦ rw e (record {
        all = λ x. ap (λ t. t ++ p) (h.all x);
        within = λ x. ground (arith, length-append b.buf p);
        honest = λ x. let both = h.honest x in (both.0, omega (arith, both.1, length-append s p));
        least = omega (arith, h.least, length-append s p, length-append b.buf p);
      })
    ]

write_cappeds-Holds :
    (ps : List Text) (s : Text) (b : CappedBuffer)
    → Holds s b
    → Holds (s ++ flatten ps) (write_cappeds ps b)
unfolding write_cappeds flatten write_capped
write_cappeds-Holds [] s b h = rw append_nil h
write_cappeds-Holds (p ∷ ps) s b h =
    subst (λ t. Holds t (write_cappeds ps (write_capped p b).1)) (append_assoc_lem s p (flatten ps))
      (write_cappeds-Holds ps (s ++ p) (write_capped p b).1 (write_capped-Holds p s b h))

write_capped-max : (p : Text) (b : CappedBuffer) → (write_capped p b).1.max ≡ b.max
unfolding write_capped
write_capped-max p b = elim (Bool-cases (ltb 0 b.max && ltb b.max (length b.buf + length p))) [
  | inl e ↦ rw e refl
  | inr e ↦ rw e refl
]

write_cappeds-max : (ps : List Text) (b : CappedBuffer) → (write_cappeds ps b).max ≡ b.max
unfolding write_cappeds write_capped
write_cappeds-max [] b = refl
write_cappeds-max (p ∷ ps) b = write_cappeds-max ps (write_capped p b).1 ∙ write_capped-max p b

flagged :
    (max : ℕ) (s : Text) (b : CappedBuffer)
    → b.max ≡ max
    → Holds s b
    → b.done ≡ (ltb 0 max && ltb max (length s))
flagged max s b e h = elim (Bool-cases b.done) [
  | inl d ↦ let both = h.honest d in ground arith
  | inr d ↦
      let whole : length b.buf ≡ length s = ap length (h.all d) in
      let within = h.within in ground arith
]

-- However the output is cut into writes, a capped buffer is flagged exactly when there is a cap and
-- the whole output exceeds it; when it is not flagged it holds the whole output, and under a cap it
-- never holds more than the cap.
pub capped_buffer-exact :
    (max : ℕ) (ps : List Text)
    → let b = write_cappeds ps (new_capped_buffer max) in
      (b.done ≡ (ltb 0 max && ltb max (length (flatten ps))))
      × (b.done ≡ false → b.buf ≡ flatten ps)
      × (0 < max → length b.buf ≤ max)
unfolding new_capped_buffer
capped_buffer-exact max ps =
    let h = write_cappeds-Holds ps [] (new_capped_buffer max) (record {
      all = λ x. refl;
      within = λ x. omega arith;
      honest = λ x. cc;
      least = omega arith;
    }) in
    let m = write_cappeds-max ps (new_capped_buffer max) in
    (flagged max (flatten ps) _ m h, h.all, rw m at h.within)
