-- ===== src/Daemon/Busy.antt =====
-- The busy counter of internal/scheduler along the steps of the daemon.
use sonata.Daemon.Registry.{SameRows, apply_action-SameRows, enable_action-SameRows}
use mathlib.Core.Path.{subst}
use sonata.Prelude.{
  ltb, ap, ◌∙◌, ℕ, suc, ◌+◌, ◌≡◌, refl, ◌||◌, Option, none, some, List, [], ◌∷◌, ◌++◌, codes, same,
  is_empty, Result, ok, err, arith, Bool-cases, inl, inr,
}
use sonata.Prelude.Int.{pos, pos_part, neg_part, +ℤ_parts}
use sonata.Store.Types.{Message, Delivery, Store, StoreError, Db}
use sonata.Store.Deliveries.{set_delivery_pgid, replay_delivery}
use sonata.Store.Messages.{append_message}
use sonata.Store.Queries.{count_active}
use sonata.Store.Soundness.{IsSound}
use sonata.Store.Preserve.{perform-IsSound, perform, sets_pgid, appends, replays}
use sonata.Store.Counting.{write-err, count_active-set_delivery_pgid}
use sonata.Store.Emitting.{count_active-append_message, count_active-replay_delivery}
use sonata.Scheduler.State.{SchedEnv, World, busy}
use sonata.Scheduler.Apply.{work_added, seed}
use sonata.Scheduler.Balance.{Balance, dispatch-Balance}
use sonata.Scheduler.Recording.{apply-Balance, handle_ctrl-Balance, new_id-IsSound}
use sonata.Api.{SendMessageRequest, ingress, sent, message_send, replayed_reply, delivery_replay}
use sonata.Daemon.Steps.{
  Daemon, sum, with_store, Step, dispatching, applying, cancelling, starting, sending, replaying,
  announcing, registering, enabling, Reach, here, next,
}

-- The counter, with what the handlers will still add, is the number of active deliveries.
abbrev pub Balanced : Daemon → Type 0
Balanced d = Balance (sum d.owed) d.world

sum-insert : (before after : List ℕ) (n : ℕ) → sum (before ++ n ∷ after) ≡ n + sum (before ++ after)
sum-insert [] after n = refl
sum-insert (m ∷ before) after n = omega (arith, sum-insert before after n)

SameRows-Balance :
    (owed : ℕ) (w : World) (s : Store)
    → SameRows w.store.db s.db
    → Balance owed w
    → Balance owed (with_store s w)
unfolding count_active
SameRows-Balance owed w s e b = record {
  sound = record {
    rows = rw e.0 b.sound.rows;
    unique = rw e.0 b.sound.unique;
    below = rw (e.0, e.1) b.sound.below;
  };
  count = rw e.0 b.count;
}

module _ (env : SchedEnv) (owed : ℕ) (w : World) (b : Balance owed w) where
  sent-Balance :
      (m : Message) (db : Db) (r : Result StoreError ℕ × Store)
      → IsSound db
      → count_active db ≡ count_active w.store.db
      → append_message env.store_env m (record w.store { db = db }) ≡ r
      → Balance ((sent m r).announce + owed) (with_store (sent m r).store w)
  unfolding sent perform append_message
  sent-Balance m db (ok n, s) sound same e =
      let more = count_active-append_message env.store_env (record w.store { db = db }) s m n e in
      record {
        sound =
            subst (λ x. IsSound x.1.db) e
              (perform-IsSound env.store_env (appends m) (record w.store { db = db }) sound);
        count = omega (arith, more, same, b.count);
      }
  sent-Balance m db (err x, s) sound same e =
      let old = write-err env.store_env _ (record w.store { db = db }) s e in
      record { sound = rw old sound; count = rw old (omega (arith, same, b.count)) }

  message_send-Balance :
      (req : SendMessageRequest) (now : ℕ)
      → let h = message_send env.store_env env.valid_json req now w.store in
        Balance (h.announce + owed) (with_store h.store w)
  unfolding message_send ingress
  message_send-Balance req now = elim (Bool-cases (is_empty req.queue)) [
    | inl e ↦ rw e unchanged
    | inr e ↦ rw e (elim (Bool-cases (is_empty req.payload || same req.payload (codes "null"))) [
      | inl f ↦ rw f unchanged
      | inr f ↦ rw f (elim (Bool-cases (env.valid_json req.payload)) [
        | inl g ↦ rw g (
            sent-Balance (ingress req now w.store.db).0
              (record w.store.db { next_id = suc (suc w.store.db.next_id) }) _
              (new_id-IsSound _ (new_id-IsSound w.store.db b.sound)) (unfold count_active in refl)
              refl)
        | inr g ↦ rw g unchanged
      ])
    ])
  ]
    where
      unchanged : Balance (0 + owed) w
      unchanged = record { sound = b.sound; count = omega (arith, b.count) }

  replayed-Balance :
      (id : ℕ) (r : Result StoreError Delivery × Store)
      → replay_delivery env.store_env id w.store ≡ r
      → Balance ((replayed_reply r).announce + owed) (with_store (replayed_reply r).store w)
  unfolding replayed_reply perform replay_delivery
  replayed-Balance id (ok d, s) e =
      let more = count_active-replay_delivery env.store_env w.store s id d b.sound.unique e in
      record {
        sound =
            subst (λ x. IsSound x.1.db) e
              (perform-IsSound env.store_env (replays id) w.store b.sound);
        count = omega (arith, more, b.count);
      }
  replayed-Balance id (err x, s) e =
      let old = write-err env.store_env _ w.store s e in
      record { sound = rw old b.sound; count = rw old (omega (arith, b.count)) }

  delivery_replay-Balance :
      (id : Option ℕ)
      → let h = delivery_replay env.store_env id w.store in
        Balance (h.announce + owed) (with_store h.store w)
  unfolding delivery_replay
  delivery_replay-Balance none = record { sound = b.sound; count = omega (arith, b.count) }
  delivery_replay-Balance (some id) = replayed-Balance id _ refl

  starting-Balance :
      (id pgid : ℕ)
      → Balance owed (with_store (set_delivery_pgid env.store_env id pgid w.store).1 w)
  unfolding perform
  starting-Balance id pgid =
      let same = count_active-set_delivery_pgid env.store_env w.store id pgid in
      record {
        sound = perform-IsSound env.store_env (sets_pgid id pgid) w.store b.sound;
        count = rw same b.count;
      }

announcing-Balance : (owed n : ℕ) (w : World) → Balance (n + owed) w → Balance owed (work_added n w)
unfolding work_added
announcing-Balance owed n w b = record {
  sound = b.sound;
  count = let sums = +ℤ_parts w.active (pos n) in omega (arith, sums, b.count);
}

-- Every step of the daemon keeps the balance.
Step-Balanced : (env : SchedEnv) {d e : Daemon} → Step env d e → Balanced d → Balanced e
Step-Balanced env {d} (dispatching now fuel w e) b =
    dispatch-Balance env now (sum d.owed) fuel d.world w e b
Step-Balanced env {d} (applying r res now jitter) b =
    apply-Balance env (sum d.owed) r res now jitter d.world b
Step-Balanced env {d} (cancelling action now) b =
    handle_ctrl-Balance env (sum d.owed) action now d.world b
Step-Balanced env {d} (starting id pgid) b = starting-Balance env (sum d.owed) d.world b id pgid
Step-Balanced env {d} (sending req now) b = message_send-Balance env (sum d.owed) d.world b req now
Step-Balanced env {d} (replaying id) b = delivery_replay-Balance env (sum d.owed) d.world b id
Step-Balanced env {d} (announcing before n after e) b =
    announcing-Balance (sum (before ++ after)) n d.world
      (subst (λ k. Balance k d.world) (ap sum e ∙ sum-insert before after n) b)
Step-Balanced env {d} (registering name definition now) b =
    SameRows-Balance (sum d.owed) d.world _
      (apply_action-SameRows env.store_env name definition now d.world.store) b
Step-Balanced env {d} (enabling name enabled) b =
    SameRows-Balance (sum d.owed) d.world _
      (enable_action-SameRows env.store_env name enabled d.world.store) b

pub Reach-Balanced : (env : SchedEnv) {d e : Daemon} → Reach env d e → Balanced d → Balanced e
Reach-Balanced env here b = b
Reach-Balanced env (next r s) b = Step-Balanced env s (Reach-Balanced env r b)

-- What Run starts from.
abbrev pub started : World → Daemon
started w = record { world = seed w; owed = [] }

pub seed-Balanced : (w : World) → IsSound w.store.db → Balanced (started w)
unfolding seed
seed-Balanced w s = record { sound = s; count = omega arith }

-- Whatever steps the daemon takes from its start on a sound database, the database is sound, and
-- the counter with the announcements that are still to be made is the number of active deliveries.
pub Reach-count_active :
    (env : SchedEnv) (w : World) (d : Daemon)
    → IsSound w.store.db
    → Reach env (started w) d
    → IsSound d.world.store.db
      × (pos_part d.world.active + sum d.owed
          ≡ neg_part d.world.active + count_active d.world.store.db)
Reach-count_active env w d s r =
    let b = Reach-Balanced env r (seed-Balanced w s) in (b.sound, b.count)

-- Whatever steps the daemon takes from its start on a sound database: once every handler has made
-- its announcement, Busy says true exactly when the database has an active delivery.
pub Reach-busy :
    (env : SchedEnv) (w : World) (d : Daemon)
    → IsSound w.store.db
    → Reach env (started w) d
    → sum d.owed ≡ 0
    → busy d.world ≡ ltb 0 (count_active d.world.store.db)
unfolding busy
Reach-busy env w d s r o = let b = (Reach-count_active env w d s r).1 in ground arith
