-- ===== src/Store/Eligible.antt =====
-- NextEligible of internal/store/deliveries.go: which delivery the scheduler is given.
use mathlib.Core.Path.{subst}
use sonata.Prelude.{
  ℕ, ◌≤◌, ◌≡◌, ◌≢◌, refl, sym, ap, inl, inr, Bool, true, false, arith, Option, none, some, List, [],
  ◌∷◌, Text, All, All-In, In, Bool-cases, Option-cases, leb,
}
use sonata.Store.Types.{Delivery, Message, Db}
use sonata.Store.Deliveries.{has_id}
use sonata.Store.Unique.{conflicts, Unique}
use sonata.Store.Queries.{Work, is_eligible, message_of, earlier, joined, first_work, next_eligible}

-- What it is to be the answer of a query by a test on rows: no row that passes has a message,
-- or the answer is a row of the table that passes, with its message, and has the least id of those.
abbrev pub Oldest : (Delivery → Bool) → List Message → List Delivery → Option Work → Type 0
Oldest p ms ds none = All (λ d. p d ≡ true → message_of ms d ≡ none) ds
Oldest p ms ds (some w) =
    In w.delivery ds
    × (p w.delivery ≡ true)
    × (message_of ms w.delivery ≡ some w.message)
    × All (λ d. p d ≡ true → message_of ms d ≢ none → w.delivery.id ≤ d.id) ds

module _ (p : Delivery → Bool) (ms : List Message) where
  least_down :
      (m n : ℕ) (ds : List Delivery)
      → m ≤ n
      → All (λ d. p d ≡ true → message_of ms d ≢ none → n ≤ d.id) ds
      → All (λ d. p d ≡ true → message_of ms d ≢ none → m ≤ d.id) ds
  least_down m n [] h l = tt
  least_down m n (d ∷ ds) h l = ((λ a b. let k = l.0 a b in omega arith), least_down m n ds h l.1)

  least_none :
      (m : ℕ) (ds : List Delivery)
      → All (λ d. p d ≡ true → message_of ms d ≡ none) ds
      → All (λ d. p d ≡ true → message_of ms d ≢ none → m ≤ d.id) ds
  least_none m [] l = tt
  least_none m (d ∷ ds) l = ((λ a b. absurd (b (l.0 a))), least_none m ds l.1)

  skipped :
      (d : Delivery) (ds : List Delivery) (o : Option Work)
      → (p d ≡ true → message_of ms d ≡ none)
      → Oldest p ms ds o
      → Oldest p ms (d ∷ ds) o
  skipped d ds none h l = (h, l)
  skipped d ds (some w) h (m, a, b, l) = (inr m, a, b, ((λ x y. absurd (y (h x))), l))

  taken :
      (d : Delivery) (m : Message) (ds : List Delivery) (o : Option Work)
      → p d ≡ true
      → message_of ms d ≡ some m
      → Oldest p ms ds o
      → Oldest p ms (d ∷ ds) (earlier (record { delivery = d; message = m }) o)
  unfolding earlier
  taken d m ds none a b l = (inl refl, a, b, ((λ x y. omega arith), least_none d.id ds l))
  taken d m ds (some w) a b (i, c, e, l) = elim (Bool-cases (leb d.id w.delivery.id)) [
    | inl h ↦
        rw h (
          inl refl,
          a,
          b,
          ((λ x y. omega arith), least_down d.id w.delivery.id ds (ground arith) l),
        )
    | inr h ↦ rw h (inr i, c, e, ((λ x y. ground arith), l))
  ]

  first_work-Oldest : (ds : List Delivery) → Oldest p ms ds (first_work p ms ds)
  unfolding first_work
  first_work-Oldest [] = tt
  first_work-Oldest (d ∷ ds) = elim (Bool-cases (p d)) [
    | inl a ↦ elim (Option-cases (message_of ms d)) [
      | inl e ↦ rw (a, e, joined) (skipped d ds _ (λ x. e) (first_work-Oldest ds))
      | inr (m, e) ↦ rw (a, e, joined) (taken d m ds _ a e (first_work-Oldest ds))
    ]
    | inr a ↦ rw (a, joined) (skipped d ds _ (λ x. cc) (first_work-Oldest ds))
  ]

-- NextEligible gives the oldest claimable delivery of an action with its message: a row of the
-- table that is pending, or failed with its gate reached (by the order of the stored texts), and no
-- claimable row that has a message has a smaller id. It answers ErrNotFound only when no claimable
-- row has a message.
pub next_eligible-Oldest :
    (action : Text) (now : ℕ) (db : Db)
    → Oldest (is_eligible action now) db.messages db.deliveries (next_eligible action now db)
unfolding next_eligible
next_eligible-Oldest action now db =
    first_work-Oldest (is_eligible action now) db.messages db.deliveries

-- A row under the id of a row of the table is that row.
pub same_row :
    (w : Delivery) (ds : List Delivery)
    → Unique ds
    → In w ds
    → All (λ d. has_id w.id d ≡ true → d ≡ w) ds
same_row w [] u i = tt
same_row w (d ∷ ds) u (inl e) = ((λ h. sym e), clear w d ds (ap (λ (x : Delivery). x.id) e) u.0)
  where
    clear :
        (w d : Delivery) (ds : List Delivery)
        → w.id ≡ d.id
        → All (λ e. conflicts e d ≡ false) ds
        → All (λ x. has_id w.id x ≡ true → x ≡ w) ds
    clear w d [] e c = tt
    clear w d (x ∷ ds) e c = ((λ h. absurd (ground arith)), clear w d ds e c.1)
same_row w (d ∷ ds) u (inr i) =
    ((λ h. absurd (apart d w ds u.0 i (ground arith))), same_row w ds u.1 i)
  where
    apart :
        (d w : Delivery) (ds : List Delivery)
        → All (λ e. conflicts e d ≡ false) ds
        → In w ds
        → d.id ≡ w.id
        → ⊥
    apart d w ds c i e =
        let no : conflicts w d ≡ false = All-In (λ x. conflicts x d ≡ false) w ds c i in
        ground arith

-- On unique rows, every row under the id that NextEligible answers is claimable.
pub next_eligible-is_active :
    (action : Text) (now : ℕ) (db : Db) (w : Work)
    → Unique db.deliveries
    → next_eligible action now db ≡ some w
    → All (λ d. has_id w.delivery.id d ≡ true → is_eligible action now d ≡ true) db.deliveries
next_eligible-is_active action now db w u e =
    let found : Oldest (is_eligible action now) db.messages db.deliveries (some w) =
      subst (Oldest (is_eligible action now) db.messages db.deliveries) e
        (next_eligible-Oldest action now db) in
    moved db.deliveries (same_row w.delivery db.deliveries u found.0) found.1
  where
    moved :
        (ds : List Delivery)
        → All (λ d. has_id w.delivery.id d ≡ true → d ≡ w.delivery) ds
        → is_eligible action now w.delivery ≡ true
        → All (λ d. has_id w.delivery.id d ≡ true → is_eligible action now d ≡ true) ds
    moved [] s h = tt
    moved (d ∷ ds) s h = ((λ a. rw (s.0 a) h), moved ds s.1 h)
