-- ===== src/Api/Actions/Disabling.antt =====
-- actionDisable of internal/api/actions.go beside the scheduler's cancellation.
use sonata.Prelude.{
  ℕ, ◌≡◌, refl, sym, Bool, true, false, Option, none, some, List, [], ◌∷◌, Text, same, same→eq,
  ◌==◌, is_empty, Result, ok, err, Bool-cases, Option-cases, inl, inr, ap, find?, any, update,
  and_true, arith,
}
use sonata.Store.Types.{action_disabled, Delivery, ActionRow, Db, Store, StoreError}
use sonata.Store.Deliveries.{cancellable, cancel_row, cancel_deliveries, exec_update}
use sonata.Store.Actions.{
  is_version, enable_row, enabled_at, enabled_in, set_action_enabled, current_action,
}
use sonata.Store.Counting.{write-ok}
use sonata.Scheduler.State.{SchedEnv, World}
use sonata.Scheduler.Apply.{handle_ctrl, after_cancel}
use sonata.Api.Actions.{cancelled_reply, enabled_reply, set_enabled}

-- A row that is found after an update of the rows sought is an updated one.
find-update {ℓ} :
    {A : Type ℓ} (p : A → Bool) (f : A → A) (xs : List A) (a : A)
    → ((x : A) → p x ≡ true → p (f x) ≡ true)
    → find? p (update p f xs) ≡ some a
    → (x : A) × (p x ≡ true) × (a ≡ f x)
unfolding update
find-update p f [] a keeps h = cc h
find-update p f (x ∷ xs) a keeps h = elim (Bool-cases (p x)) [
  | inl e ↦ (x, e, let h' = (rw (e, keeps x e) at h) in cc h')
  | inr e ↦ find-update p f xs a keeps ((rw (e, e) at h))
]

none_cancellable :
    (action : Text) (now : ℕ) (ds : List Delivery)
    → any (cancellable action) (update (cancellable action) (cancel_row action_disabled now) ds)
      ≡ false
unfolding update
none_cancellable action now [] = refl
none_cancellable action now (d ∷ ds) = elim (Bool-cases (cancellable action d)) [
  | inl e ↦ rw (e, none_cancellable action now ds) (ground arith)
  | inr e ↦ rw (e, e, none_cancellable action now ds) refl
]

enabled_at-row :
    (name : Text) (enabled : Bool) (o : Option ActionRow) (db db' : Db) (a : ActionRow)
    → enabled_at name enabled o db ≡ ok (a, db')
    → (a.name ≡ name) × (a.enabled ≡ enabled) × (db'.deliveries ≡ db.deliveries)
unfolding enabled_at
enabled_at-row name enabled none db db' a h = cc h
enabled_at-row name enabled (some cur) db db' a h =
    let test = is_version name cur.version in
    elim (Option-cases (find? test (update test (enable_row enabled) db.actions))) [
      | inl e ↦ cc ((rw (e, enabled_at) at h))
      | inr (b, e) ↦
          let (x, t, f) = find-update test (enable_row enabled) db.actions b (λ x t. t) e in
          let row : b ≡ a = cc ((rw (e, enabled_at) at h)) in
          let after : record db { actions = update test (enable_row enabled) db.actions } ≡ db' =
            cc ((rw (e, enabled_at) at h)) in
          let name_same =
            same→eq x.name name (and_true (same x.name name) (x.version == cur.version) t).0 in
          (cc (row, f, name_same), cc (row, f), sym (ap (λ (y : Db). y.deliveries) after))
    ]

after_cancel-done :
    (env : SchedEnv) (action : Text) (now n : ℕ) (w w' : World) (r : Result StoreError ℕ × Store)
    → cancel_deliveries env.store_env action action_disabled now w.store ≡ r
    → after_cancel r w ≡ (ok n, w')
    → w'.store.db.deliveries
      ≡ update (cancellable action) (cancel_row action_disabled now) w.store.db.deliveries
unfolding after_cancel cancel_deliveries exec_update
after_cancel-done env action now n w w' (err e, s) c h = cc h
after_cancel-done env action now n w w' (ok m, s) c h =
    let done = write-ok env.store_env _ w.store s c in
    let store : s ≡ w'.store = ap (λ (x : Result StoreError ℕ × World). x.1.store) h in
    let after : record w.store.db {
      deliveries =
          update (cancellable action) (cancel_row action_disabled now) w.store.db.deliveries;
    }
        ≡ s.db =
      cc done in
    cc (ap (λ (y : Db). y.deliveries) after, ap (λ (y : Store). y.db.deliveries) store)

cancelled_reply-ok :
    (a b : ActionRow) (r : Result StoreError ℕ × World) (w' : World)
    → cancelled_reply a r ≡ (ok b, w')
    → (a ≡ b) × (n : ℕ) × (r ≡ (ok n, w'))
unfolding cancelled_reply
cancelled_reply-ok a b (ok n, w) w' h = (cc h, n, cc h)
cancelled_reply-ok a b (err e, w) w' h = cc h

enabled_reply-cancels :
    (env : SchedEnv) (name : Text) (now : ℕ) (w w' : World) (a : ActionRow)
    (r : Result StoreError ActionRow × Store)
    → set_action_enabled env.store_env name false w.store ≡ r
    → enabled_reply env false now r w ≡ (ok a, w')
    → (a.name ≡ name)
      × (a.enabled ≡ false)
      × (w'.store.db.deliveries
          ≡ update (cancellable name) (cancel_row action_disabled now) w.store.db.deliveries)
unfolding enabled_reply set_action_enabled enabled_in handle_ctrl
enabled_reply-cancels env name now w w' a (err e, s) c h = cc h
enabled_reply-cancels env name now w w' a (ok b, s) c h =
    let (one, n, done) = cancelled_reply-ok b a _ w' h in
    let (named, off, rows) =
      enabled_at-row name false (current_action name w.store.db) w.store.db s.db b
        (write-ok env.store_env (enabled_in name false) w.store s c) in
    let after = after_cancel-done env b.name now n (record w { store = s }) w' _ refl done in
    (cc (one, named), cc (one, off), cc (after, named, rows))

-- Where action.disable has succeeded, it answers a disabled version of the action asked for;
-- exactly the deliveries of the action that were pending or waiting for a retry are cancelled, with
-- the reason that the action is disabled, and none of the action's is pending or waiting any more.
pub set_enabled-cancels :
    (env : SchedEnv) (name : Text) (now : ℕ) (w w' : World) (a : ActionRow)
    → set_enabled env name false now w ≡ (ok a, w')
    → (a.name ≡ name)
      × (a.enabled ≡ false)
      × (w'.store.db.deliveries
          ≡ update (cancellable name) (cancel_row action_disabled now) w.store.db.deliveries)
      × (any (cancellable name) w'.store.db.deliveries ≡ false)
unfolding set_enabled
set_enabled-cancels env name now w w' a h = elim (Bool-cases (is_empty name)) [
  | inl e ↦ let h' = (rw e at h) in cc h'
  | inr e ↦
      let (named, off, rows) = enabled_reply-cancels env name now w w' a _ refl ((rw e at h)) in
      (named, off, rows, rw rows (none_cancellable name now w.store.db.deliveries))
]
