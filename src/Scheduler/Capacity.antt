-- ===== src/Scheduler/Capacity.antt =====
-- The executions under way and the concurrency of an action, in dispatch of
-- internal/scheduler/scheduler.go.
use sonata.Scheduler.Closure.{Closed, dispatch-Closed}
use sonata.Scheduler.Dispatch.{launch, load_actions, dispatch}
use sonata.Prelude.{
  ℕ, ◌+◌, ◌≡◌, refl, ap, List, ◌++◌, true, false, some, [], ◌∷◌, Text, same, same→eq, same_refl,
  sym, ◌∙◌, if◌then◌else◌, arith, All, Bool-cases, inl, inr,
}
use sonata.Prelude.Int.{ℤ, pos, ◌+ℤ◌, ltb_ℤ, +ℤ_parts, eq_of_parts}
use sonata.Store.Types.{Store}
use sonata.Store.Queries.{Work}
use sonata.Scheduler.State.{Launch, ActionInfo, SchedEnv, World, Inflight, running_of, add_running}

running_of-add_running :
    (name n : Text) (d : ℤ) (inflight : Inflight)
    → running_of name (add_running n d inflight)
      ≡ (if same n name then running_of name inflight +ℤ d else running_of name inflight)
unfolding running_of add_running
running_of-add_running name n d [] = elim (Bool-cases (same n name)) [
  | inl e ↦ rw e (eq_of_parts _ _ (omega (arith, +ℤ_parts (pos 0) d)))
  | inr e ↦ rw e refl
]
running_of-add_running name n d ((k, v) ∷ rest) = elim (Bool-cases (same k n)) [
  | inl e ↦
      let one : k ≡ n = same→eq k n e in
      rw (e, one) (elim (Bool-cases (same n name)) [ inl f ↦ rw f refl | inr f ↦ rw f refl ])
  | inr e ↦ elim (Bool-cases (same k name)) [
    | inl f ↦ rw (e, f, apart k n name e f) refl
    | inr f ↦ rw (e, f) (running_of-add_running name n d rest)
  ]
]
  where
    apart : (k n name : Text) → same k n ≡ false → same k name ≡ true → same n name ≡ false
    apart k n name e f = elim (Bool-cases (same n name)) [
      | inl g ↦
          let one : k ≡ n = same→eq k name f ∙ sym (same→eq n name g) in
          absurd (cc (one, e, same_refl n))
      | inr g ↦ g
    ]

-- How many of the executions are of the action.
abbrev pub executions : Text → List Launch → ℕ
executions name [] = 0
executions name (l ∷ ls) =
    let later = executions name ls in if same l.action.name name then 1 + later else later

-- Between two worlds executions have been started. Each that is of the action has been counted, and
-- with the count before they are at most `limit`.
abbrev pub Within : Text → ℤ → World → World → Type 0
Within name limit w w' =
    (new : List Launch) × (w'.launched ≡ new ++ w.launched)
    × (running_of name w'.inflight ≡ running_of name w.inflight +ℤ pos (executions name new))
    × (ltb_ℤ limit (running_of name w.inflight +ℤ pos (executions name new)) ≡ false)

-- The actions of the name have at most that concurrency.
abbrev pub Allows : Text → ℤ → ActionInfo → Type 0
Allows name limit ai = same ai.name name ≡ true → ltb_ℤ limit ai.concurrency ≡ false

+ℤ_assoc : (k : ℤ) (m n : ℕ) → (k +ℤ pos m) +ℤ pos n ≡ k +ℤ pos (n + m)
+ℤ_assoc k m n =
    eq_of_parts _ _
      (omega (arith, +ℤ_parts (k +ℤ pos m) (pos n), +ℤ_parts k (pos m), +ℤ_parts k (pos (n + m))))

module _ (env : SchedEnv) (name : Text) (limit : ℤ) (now : ℕ) (from : World) where
  launched-Within :
      (ai : ActionInfo) (w : World) (work : Work) (s : Store)
      → Allows name limit ai
      → ltb_ℤ (running_of ai.name w.inflight) ai.concurrency ≡ true
      → Within name limit from w
      → Within name limit from (launch ai work (record w { store = s }))
  launched-Within ai w work s allows l (new, started, count, h) =
      let handed : Launch = record {
        work = record work {
          delivery = record work.delivery { attempt = work.delivery.attempt + 1 };
        };
        action = ai;
      } in
      let counted = running_of-add_running name ai.name (pos 1) w.inflight in
      let sum = +ℤ_assoc (running_of name from.inflight) (executions name new) 1 in
      elim (Bool-cases (same ai.name name)) [
        | inl e ↦
            let one : ai.name ≡ name = same→eq ai.name name e in
            let bound = allows e in
            let below : ltb_ℤ (running_of name w.inflight) ai.concurrency ≡ true = rw one at l in
            let room : ltb_ℤ limit (running_of name w.inflight +ℤ pos 1) ≡ false =
              ground (arith, +ℤ_parts (running_of name w.inflight) (pos 1)) in
            let more = rw (count, sum) at room in
            (handed ∷ new, ap (λ ls. handed ∷ ls) started, rw (counted, e, count) sum, rw e more)
        | inr e ↦ (handed ∷ new, ap (λ ls. handed ∷ ls) started, rw (counted, e) count, rw e h)
      ]

  Within-Closed : Closed env now (Allows name limit) (Within name limit from)
  Within-Closed = record {
    recached = λ w c h. h;
    refused = λ w s e h. h;
    settled = λ ai w work state why s q t n e h. h;
    launched = λ ai w work s q l n e h. launched-Within ai w work s q l h;
  }

-- If the scheduler counts at most `limit` executions of an action as under way, and no loaded action
-- of that name has a larger concurrency: that count, with the executions of the action that dispatch
-- starts, is at most `limit`, and each of them is counted.
pub dispatch-Within :
    (env : SchedEnv) (name : Text) (limit : ℤ) (now fuel : ℕ) (w w' : World)
    → All (Allows name limit) (load_actions env w)
    → ltb_ℤ limit (running_of name w.inflight) ≡ false
    → dispatch env now fuel w ≡ some w'
    → Within name limit w w'
dispatch-Within env name limit now fuel w w' a h e =
    let zero_more : running_of name w.inflight ≡ running_of name w.inflight +ℤ pos 0 =
      eq_of_parts _ _ (omega (arith, +ℤ_parts (running_of name w.inflight) (pos 0))) in
    dispatch-Closed env now (Allows name limit) (Within name limit w)
      (Within-Closed env name limit now w) fuel w w' a e ([], refl, zero_more, rw zero_more at h)
