-- ===== src/Api/Actions/Applying.antt =====
-- actionApply of internal/api/actions.go, called again.
use sonata.Prelude.{
  ℕ, suc, ◌≡◌, refl, sym, true, false, ◌||◌, Option, none, some, Text, codes, same, same_refl,
  is_empty, Result, ok, err, Bool-cases, inl, inr,
}
use sonata.Store.Types.{ActionRow, Store, StoreError, Env, write, settle}
use sonata.Store.Actions.{Applied, apply_action, applied, apply_to, current_action}
use sonata.Store.Versions.{apply_action-current}
use sonata.Workflow.Definition.{Action}
use sonata.Workflow.Cel.{Cel}
use sonata.Workflow.Validate.{InvalidAction}
use sonata.Workflow.Parse.{Codec, parse_json, canonical}
use sonata.Api.Actions.{
  ApplyActionResponse, apply_response, apply_reply, apply_canonical, apply_parsed, action_apply,
}

-- The current version, applied again.
apply_current :
    (env : Env) (name : Text) (now : ℕ) (s : Store) (a : ActionRow)
    → current_action name s.db ≡ some a
    → env.commits s.writes ≡ true
    → apply_action env name a.definition now s ≡ (ok (a, false), record s { writes = suc s.writes })
unfolding apply_action applied apply_to write settle
apply_current env name now s a c k = rw (k, c, same_refl a.definition) refl

apply_reply-again :
    (env : Env) (name c : Text) (now now' : ℕ) (s s' : Store) (r : ApplyActionResponse)
    (o : Result StoreError Applied × Store)
    → apply_action env name c now s ≡ o
    → apply_reply o ≡ (ok r, s')
    → env.commits s'.writes ≡ true
    → apply_reply (apply_action env name c now' s')
      ≡ (ok (record r { changed = false }), record s' { writes = suc s'.writes })
unfolding apply_reply
apply_reply-again env name c now now' s s' r (err e, s₁) h k w = cc k
apply_reply-again env name c now now' s s' r (ok (a, changed), s₁) h k w =
    let store : s₁ ≡ s' = cc k in
    let reply : apply_response (a, changed) ≡ r = cc k in
    let (current, definition, registered) =
      apply_action-current env name c now s s' a changed (cc (h, store)) in
    let again = apply_current env name now' s' a current w in
    rw (sym definition, again, sym reply) refl

apply_canonical-again :
    (env : Env) (name : Text) (o : Option Text) (now now' : ℕ) (s s' : Store)
    (r : ApplyActionResponse)
    → apply_canonical env name o now s ≡ (ok r, s')
    → env.commits s'.writes ≡ true
    → apply_canonical env name o now' s'
      ≡ (ok (record r { changed = false }), record s' { writes = suc s'.writes })
unfolding apply_canonical
apply_canonical-again env name none now now' s s' r h w = cc h
apply_canonical-again env name (some c) now now' s s' r h w =
    apply_reply-again env name c now now' s s' r _ refl h w

module _ {Value Document : Type 0} (codec : Codec Value Document) (cel : Cel) (env : Env) where
  apply_parsed-again :
      (p : Result InvalidAction Action) (now now' : ℕ) (s s' : Store) (r : ApplyActionResponse)
      → apply_parsed codec env p now s ≡ (ok r, s')
      → env.commits s'.writes ≡ true
      → apply_parsed codec env p now' s'
        ≡ (ok (record r { changed = false }), record s' { writes = suc s'.writes })
  unfolding apply_parsed
  apply_parsed-again (err e) now now' s s' r h w = cc h
  apply_parsed-again (ok def) now now' s s' r h w =
      apply_canonical-again env def.name (canonical codec def) now now' s s' r h w

  -- Where action.apply has succeeded and the next transaction commits, the same request again
  -- succeeds, reports the same version as unchanged, and changes nothing but the number of
  -- transactions.
  pub action_apply-again :
      (definition : Text) (now now' : ℕ) (s s' : Store) (r : ApplyActionResponse)
      → action_apply codec cel env definition now s ≡ (ok r, s')
      → env.commits s'.writes ≡ true
      → action_apply codec cel env definition now' s'
        ≡ (ok (record r { changed = false }), record s' { writes = suc s'.writes })
  unfolding action_apply
  action_apply-again definition now now' s s' r h w =
      elim (Bool-cases (is_empty definition || same definition (codes "null"))) [
        | inl e ↦ let h' = (rw e at h) in cc h'
        | inr e ↦
            rw e
              (apply_parsed-again (parse_json codec cel definition) now now' s s' r ((rw e at h)) w)
      ]
