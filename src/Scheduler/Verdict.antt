-- ===== src/Scheduler/Verdict.antt =====
-- vet of internal/scheduler/scheduler.go: what its decisions can be.
use sonata.Prelude.{
  ℕ, ◌≡◌, ◌↔◌, refl, Bool, true, false, Option, none, some, Text, Result, ok, err, Bool-cases, inl,
  inr,
}
use sonata.Prelude.Int.{ℤ, ltb_ℤ}
use sonata.Store.Types.{Message}
use sonata.Store.Soundness.{IsTerminal}
use sonata.Workflow.Cel.{
  Cel, Cache, Compiled, CompileError, Activation, EvalError, eval_filter, get,
}
use sonata.Scheduler.Headers.{message_hops, input_index}
use sonata.Scheduler.State.{ActionInfo, SchedEnv}
use sonata.Scheduler.Vet.{
  Verdict, run, settle, filter_at, of_filter, of_activation, activation, of_compiled, of_hops,
  of_index, verdict,
}

-- A delivery is resolved to a terminal state only.
abbrev pub Settles : Verdict → Type 0
Settles run = Unit
Settles (settle state _) = IsTerminal state

-- Why a delivery may run: its queue is the i-th input, its hops are below the limit, the i-th
-- filter compiles, the filter's input decodes, and the filter is true of it.
pub record MayRun (env : SchedEnv) (ai : ActionInfo) (m : Message) (cache : Cache) : Type 0 where
  pub index : ℕ
  pub hops : ℤ
  pub compiled : Compiled
  pub input : Activation
  pub subscribed : input_index ai.def m.queue ≡ some index
  pub readable : message_hops m.headers ≡ some hops
  pub below : ltb_ℤ hops env.config.max_hops ≡ true
  pub compiles : (get env.cel ai.name ai.version ai.def cache).0 ≡ ok compiled
  pub decodes : activation env.cel m ≡ ok input
  pub accepts : eval_filter env.cel (filter_at compiled.filters index) input ≡ ok true

of_filter-run : (r : Result EvalError Bool) → of_filter r ≡ run → r ≡ ok true
unfolding of_filter
of_filter-run (ok true) h = refl
of_filter-run (ok false) h = cc
of_filter-run (err e) h = cc

of_activation-run :
    (cel : Cel) (p : Option Text) (r : Result EvalError Activation)
    → of_activation cel p r ≡ run
    → (act : Activation) × (r ≡ ok act) × (eval_filter cel p act ≡ ok true)
unfolding of_activation
of_activation-run cel p (ok act) h = (act, refl, of_filter-run (eval_filter cel p act) h)
of_activation-run cel p (err e) h = cc

of_compiled-run :
    (cel : Cel) (m : Message) (i : ℕ) (r : Result CompileError Compiled)
    → of_compiled cel m i r ≡ run
    → (c : Compiled) × (r ≡ ok c)
      × (of_activation cel (filter_at c.filters i) (activation cel m) ≡ run)
unfolding of_compiled
of_compiled-run cel m i (ok c) h = (c, refl, h)
of_compiled-run cel m i (err e) h = cc

of_filter-Settles : (r : Result EvalError Bool) → Settles (of_filter r)
unfolding of_filter
of_filter-Settles (ok true) = tt
of_filter-Settles (ok false) = tt
of_filter-Settles (err e) = tt

of_activation-Settles :
    (cel : Cel) (p : Option Text) (r : Result EvalError Activation)
    → Settles (of_activation cel p r)
unfolding of_activation
of_activation-Settles cel p (ok act) = of_filter-Settles (eval_filter cel p act)
of_activation-Settles cel p (err e) = tt

of_compiled-Settles :
    (cel : Cel) (m : Message) (i : ℕ) (r : Result CompileError Compiled)
    → Settles (of_compiled cel m i r)
unfolding of_compiled
of_compiled-Settles cel m i (ok c) =
    of_activation-Settles cel (filter_at c.filters i) (activation cel m)
of_compiled-Settles cel m i (err e) = tt

module _ (env : SchedEnv) (ai : ActionInfo) (m : Message) (cache : Cache) where
  of_hops-Settles : (i : ℕ) (o : Option ℤ) → Settles (of_hops env ai m i cache o).0
  unfolding of_hops
  of_hops-Settles i none = tt
  of_hops-Settles i (some h) = elim (Bool-cases (ltb_ℤ h env.config.max_hops)) [
    | inl e ↦ rw e (of_compiled-Settles env.cel m i (get env.cel ai.name ai.version ai.def cache).0)
    | inr e ↦ rw e tt
  ]

  of_index-Settles : (o : Option ℕ) → Settles (of_index env ai m cache o).0
  unfolding of_index
  of_index-Settles none = tt
  of_index-Settles (some i) = of_hops-Settles i (message_hops m.headers)

  pub verdict-Settles : Settles (verdict env ai m cache).0
  unfolding verdict
  verdict-Settles = of_index-Settles (input_index ai.def m.queue)

  of_hops-run :
      (i : ℕ) (o : Option ℤ)
      → (of_hops env ai m i cache o).0 ≡ run
      → (h : ℤ) × (o ≡ some h)
        × (ltb_ℤ h env.config.max_hops ≡ true)
        × (of_compiled env.cel m i (get env.cel ai.name ai.version ai.def cache).0 ≡ run)
  unfolding of_hops
  of_hops-run i none h = cc
  of_hops-run i (some n) h = elim (Bool-cases (ltb_ℤ n env.config.max_hops)) [
    | inl e ↦ (n, refl, e, rw e at h)
    | inr e ↦ cc (rw e at h)
  ]

  of_index-run :
      (o : Option ℕ)
      → (of_index env ai m cache o).0 ≡ run
      → (i : ℕ) × (o ≡ some i) × ((of_hops env ai m i cache (message_hops m.headers)).0 ≡ run)
  unfolding of_index
  of_index-run none h = cc
  of_index-run (some i) h = (i, refl, h)

  verdict-run : (verdict env ai m cache).0 ≡ run → MayRun env ai m cache
  unfolding verdict
  verdict-run e =
      let (i, subscribed, e₁) = of_index-run (input_index ai.def m.queue) e in
      let (h, readable, below, e₂) = of_hops-run i (message_hops m.headers) e₁ in
      let (c, compiles, e₃) =
        of_compiled-run env.cel m i (get env.cel ai.name ai.version ai.def cache).0 e₂ in
      let (act, decodes, accepts) =
        of_activation-run env.cel (filter_at c.filters i) (activation env.cel m) e₃ in
      record {
        index = i;
        hops = h;
        compiled = c;
        input = act;
        subscribed = subscribed;
        readable = readable;
        below = below;
        compiles = compiles;
        decodes = decodes;
        accepts = accepts;
      }

  run-verdict : MayRun env ai m cache → (verdict env ai m cache).0 ≡ run
  unfolding verdict of_index of_hops of_compiled of_activation of_filter
  run-verdict r = rw (
    r.subscribed, of_index, r.readable, of_hops, r.below, r.compiles, of_compiled, r.decodes,
    of_activation, r.accepts, of_filter,
  )

  -- vet lets a delivery run exactly if its queue is an input of the action, its hops are readable
  -- and below the limit, the action compiles, the filter's input decodes, and the input's filter is
  -- true.
  pub verdict-MayRun : ((verdict env ai m cache).0 ≡ run) ↔ MayRun env ai m cache
  verdict-MayRun = (verdict-run, run-verdict)
