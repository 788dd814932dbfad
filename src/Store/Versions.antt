-- ===== src/Store/Versions.antt =====
-- ApplyAction of internal/store/actions.go: what it leaves as the current version.
use sonata.Prelude.{
  ℕ, ◌+◌, ◌≤◌, ◌<◌, ◌≡◌, refl, sym, ap, ◌∙◌, inl, inr, Bool, true, false, Option, none, some, List,
  [], ◌∷◌, ◌++◌, Text, same, same→eq, same_refl, ok, keep, any, All, leb, if◌then◌else◌, arith,
  Bool-cases, Option-cases,
}
use sonata.Store.Types.{ActionRow, Db, Env, Store}
use sonata.Store.Actions.{
  named, is_version, newer, newest, current_action, insert_action, next_row, insert_next, apply_to,
  applied, apply_action,
}
use sonata.Store.Counting.{write-ok}

AtMost : ℕ → List ActionRow → Type 0
AtMost n rows = All (λ a. a.version ≤ n) rows

AtMost-weaken : (m n : ℕ) (rows : List ActionRow) → m ≤ n → AtMost m rows → AtMost n rows
unfolding AtMost
AtMost-weaken m n [] h b = tt
AtMost-weaken m n (a ∷ rows) h b = (omega (arith, b.0), AtMost-weaken m n rows h b.1)

empty-AtMost : (n : ℕ) (rows : List ActionRow) → newest rows ≡ none → AtMost n rows
unfolding newest newer AtMost
empty-AtMost n [] h = tt
empty-AtMost n (a ∷ rows) h = elim (Option-cases (newest rows)) [
  | inl e ↦ absurd (cc (rw e at h))
  | inr (b, e) ↦ elim (Bool-cases (leb b.version a.version)) [
    | inl l ↦ absurd (cc (rw (e, l) at h))
    | inr l ↦ absurd (cc (rw (e, l) at h))
  ]
]

-- The newest row has the largest version.
newest-AtMost :
    (rows : List ActionRow) (c : ActionRow) → newest rows ≡ some c → AtMost c.version rows
unfolding newest newer AtMost
newest-AtMost [] c h = tt
newest-AtMost (a ∷ rows) c h = elim (Option-cases (newest rows)) [
  | inl e ↦
      let one : a ≡ c = cc (rw e at h) in (rw one (omega arith), empty-AtMost c.version rows e)
  | inr (b, e) ↦ elim (Bool-cases (leb b.version a.version)) [
    | inl l ↦
        let one : a ≡ c = cc (rw (e, l) at h) in
        let bound : b.version ≤ c.version = ground arith in
        (
          rw one (omega arith),
          AtMost-weaken b.version c.version rows bound (newest-AtMost rows b e),
        )
    | inr l ↦
        let one : b ≡ c = cc (rw (e, l) at h) in
        (ground arith, newest-AtMost rows c (e ∙ ap some one))
  ]
]

newest-append :
    (rows : List ActionRow) (a : ActionRow) (n : ℕ)
    → AtMost n rows
    → n < a.version
    → newest (rows ++ a ∷ []) ≡ some a
unfolding newest newer AtMost
newest-append [] a n b l = refl
newest-append (c ∷ rows) a n b l = rw (newest-append rows a n b.1 l) (ground (arith, b.0))

keep-append :
    (name : Text) (rows : List ActionRow) (a : ActionRow)
    → named name a ≡ true
    → keep (named name) (rows ++ a ∷ []) ≡ keep (named name) rows ++ a ∷ []
keep-append name [] a h = rw h refl
keep-append name (c ∷ rows) a h = elim (Bool-cases (named name c)) [
  | inl e ↦ rw (e, keep-append name rows a h) refl
  | inr e ↦ rw (e, keep-append name rows a h) refl
]

insert_next-current :
    (name : Text) (next : ActionRow) (n : ℕ) (db db' : Db) (a : ActionRow) (changed : Bool)
    → named name next ≡ true
    → AtMost n (keep (named name) db.actions)
    → n < next.version
    → insert_next next db ≡ ok ((a, changed), db')
    → (current_action name db' ≡ some a) × (a ≡ next) × (changed ≡ true)
unfolding insert_next insert_action current_action
insert_next-current name next n db db' a changed p b l h =
    elim (Bool-cases (any (is_version next.name next.version) db.actions)) [
      | inl e ↦ absurd (cc (rw (e, insert_next) at h))
      | inr e ↦
          let one : next ≡ a = cc (rw (e, insert_next) at h) in
          let set : true ≡ changed = cc (rw (e, insert_next) at h) in
          let after : record db { actions = db.actions ++ next ∷ [] } ≡ db' =
            cc (rw (e, insert_next) at h) in
          (
            rw (sym after, keep-append name db.actions next p, newest-append _ next n b l)
                (ap some one),
            sym one,
            sym set,
          )
    ]

-- What ApplyAction did to the current version.
abbrev pub Registers : Text → Option ActionRow → ActionRow → Bool → Type 0
Registers definition none a changed = (changed ≡ true) × (a.version ≡ 1) × (a.enabled ≡ true)
Registers definition (some cur) a changed =
    (if same cur.definition definition
      then (changed ≡ false) × (a ≡ cur)
      else (changed ≡ true) × (a.version ≡ cur.version + 1) × (a.enabled ≡ cur.enabled))

apply_to-current :
    (name definition : Text) (now : ℕ) (o : Option ActionRow) (db db' : Db) (a : ActionRow)
    (changed : Bool)
    → current_action name db ≡ o
    → apply_to name definition now o db ≡ ok ((a, changed), db')
    → (current_action name db' ≡ some a)
      × (a.definition ≡ definition)
      × Registers definition o a changed
unfolding apply_to next_row current_action
apply_to-current name definition now none db db' a changed e h =
    let (now_current, one, set) =
      insert_next-current name (next_row name definition now none) 0 db db' a changed
        (same_refl name) (empty-AtMost 0 _ e) (omega arith) h in
    (now_current, rw one refl, (set, rw one refl, rw one refl))
apply_to-current name definition now (some cur) db db' a changed e h =
    elim (Bool-cases (same cur.definition definition)) [
      | inl s ↦
          let one : cur ≡ a = cc (rw s at h) in
          let set : false ≡ changed = cc (rw s at h) in
          let after : db ≡ db' = cc (rw s at h) in
          (rw (sym after) (e ∙ ap some one), rw (sym one) (same→eq _ _ s), rw s (sym set, sym one))
      | inr s ↦
          let (now_current, one, set) =
            insert_next-current name (next_row name definition now (some cur)) cur.version db db' a
              changed (same_refl name) (newest-AtMost _ cur e) (omega arith) (rw s at h) in
          (now_current, rw one refl, rw s (set, rw one refl, rw one refl))
    ]

-- After ApplyAction has succeeded, the current version of the action is the one it returns, with
-- the definition it was given. A first version is numbered 1 and enabled; the same definition
-- gives the current version back as it was; another one gets the next number, and stays enabled or disabled as it was.
pub apply_action-current :
    (env : Env) (name definition : Text) (now : ℕ) (s s' : Store) (a : ActionRow) (changed : Bool)
    → apply_action env name definition now s ≡ (ok (a, changed), s')
    → (current_action name s'.db ≡ some a)
      × (a.definition ≡ definition)
      × Registers definition (current_action name s.db) a changed
unfolding apply_action applied
apply_action-current env name definition now s s' a changed h =
    apply_to-current name definition now (current_action name s.db) s.db s'.db a changed refl
      (write-ok env (applied name definition now) s s' h)
