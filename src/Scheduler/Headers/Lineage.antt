-- ===== src/Scheduler/Headers/Lineage.antt =====
-- buildOutputs: what the messages that an execution emits carry over from its input.
use sonata.Prelude.{ℕ, suc, ◌≤◌, ◌≡◌, refl, ap, some, List, [], ◌∷◌, map, Text, All, arith}
use sonata.Prelude.Int.{ℤ, pos, ◌+ℤ◌}
use sonata.Store.Types.{Message, Db}
use sonata.Scheduler.Headers.{
  is_hops, read_hops, hops_or_zero, message_hops, or_zero, next_headers, output, build_outputs,
}

-- An output of the message: one hop further, on the same trace, and under an id not given before.
abbrev pub Continues : Message → ℤ → Text → Text → ℕ → ℕ → Message → Type 0
Continues m hops queue action version first o =
    (message_hops o.headers ≡ some (hops +ℤ pos 1))
    × (o.trace_id ≡ m.trace_id)
    × (o.origin_message_id ≡ some m.id)
    × (o.origin_action ≡ some action)
    × (o.origin_action_version ≡ some version)
    × (o.queue ≡ queue)
    × (first ≤ o.id)

next_headers-hops :
    (m : Message) (hops : ℤ)
    → message_hops m.headers ≡ some hops
    → message_hops (next_headers m) ≡ some (hops +ℤ pos 1)
unfolding message_hops next_headers read_hops is_hops hops_or_zero or_zero
next_headers-hops m hops h = rw h refl

weaken_first :
    (m : Message) (hops : ℤ) (queue action : Text) (version a b : ℕ) (os : List Message)
    → a ≤ b
    → All (Continues m hops queue action version b) os
    → All (Continues m hops queue action version a) os
weaken_first m hops queue action version a b [] l h = tt
weaken_first m hops queue action version a b (o ∷ os) l ((x, t, i, c, v, q, f), h) =
    ((x, t, i, c, v, q, omega (arith, l, f)), weaken_first m hops queue action version a b os l h)

-- For an input with a readable number of hops, buildOutputs makes one message for each line, in
-- order and with the line as its payload; each is one hop further than the input, on its trace and
-- with it, the action and its version as the origin, and has an id not given before.
pub build_outputs-Continues :
    (m : Message) (hops : ℤ) (queue action : Text) (version now : ℕ) (lines : List Text) (db : Db)
    → message_hops m.headers ≡ some hops
    → let outputs = (build_outputs m queue action version now lines db).0 in
      (map (λ o. o.payload) outputs ≡ lines)
      × All (Continues m hops queue action version db.next_id) outputs
unfolding build_outputs output
build_outputs-Continues m hops queue action version now [] db h = (refl, tt)
build_outputs-Continues m hops queue action version now (line ∷ lines) db h =
    let (p, c) =
      build_outputs-Continues m hops queue action version now lines
        (record db { next_id = suc db.next_id }) h in
    (
      ap (λ ls. line ∷ ls) p,
      (
        (next_headers-hops m hops h, refl, refl, refl, refl, refl, omega arith),
        weaken_first m hops queue action version db.next_id (suc db.next_id) _ (omega arith) c,
      ),
    )
