-- ===== src/Workflow/Cel/Coherence.antt =====
-- The cache of compiled programs of internal/workflow/cel.go.
use sonata.Prelude.{
  ℕ, ◌≡◌, refl, sym, true, ◌&&◌, Option, none, some, [], ◌∷◌, Text, same, same→eq, Result, ok, err,
  All, ◌==◌, arith, Bool-cases, inl, inr,
}
use sonata.Workflow.Definition.{Action}
use sonata.Workflow.Cel.{
  Cel, Compiled, CompileError, Cache, compile, cached, stored, looked_up, get,
}

-- The definitions are those of the versions of the actions, which never change.
module _ (cel : Cel) (definition : Text → ℕ → Action) where
  -- Every entry is what its version compiles to.
  abbrev pub Coherent : Cache → Type 0
  Coherent cache = All (λ e. compile cel (definition e.name e.version) ≡ ok e.compiled) cache

  cached-Coherent :
      (name : Text) (version : ℕ) (cache : Cache) (c : Compiled)
      → Coherent cache
      → cached name version cache ≡ some c
      → compile cel (definition name version) ≡ ok c
  unfolding cached
  cached-Coherent name version [] c h e = cc
  cached-Coherent name version (x ∷ cache) c h e =
      elim (Bool-cases (same x.name name && x.version == version)) [
        | inl b ↦
            let names : same x.name name ≡ true = ground arith in
            let versions : x.version ≡ version = ground arith in
            let one : x.name ≡ name = same→eq x.name name names in
            let here : x.compiled ≡ c = cc (rw b at e) in rw (sym one, sym versions, sym here) h.0
        | inr b ↦ cached-Coherent name version cache c h.1 (rw b at e)
      ]

  stored-Coherent :
      (name : Text) (version : ℕ) (r : Result CompileError Compiled) (cache : Cache)
      → Coherent cache
      → compile cel (definition name version) ≡ r
      → ((stored name version r cache).0 ≡ compile cel (definition name version))
        × Coherent (stored name version r cache).1
  unfolding stored
  stored-Coherent name version (ok c) cache h e = (sym e, (e, h))
  stored-Coherent name version (err x) cache h e = (sym e, h)

  looked_up-Coherent :
      (name : Text) (version : ℕ) (o : Option Compiled) (cache : Cache)
      → Coherent cache
      → cached name version cache ≡ o
      → ((looked_up cel name version (definition name version) o cache).0
          ≡ compile cel (definition name version))
        × Coherent (looked_up cel name version (definition name version) o cache).1
  unfolding looked_up
  looked_up-Coherent name version none cache h e = stored-Coherent name version _ cache h refl
  looked_up-Coherent name version (some c) cache h e =
      (sym (cached-Coherent name version cache c h e), h)

  -- On a cache whose entries are what their versions compile to, Get answers what compiling the
  -- version's definition answers, an error included, and leaves such a cache.
  pub get-Coherent :
      (name : Text) (version : ℕ) (cache : Cache)
      → Coherent cache
      → ((get cel name version (definition name version) cache).0
          ≡ compile cel (definition name version))
        × Coherent (get cel name version (definition name version) cache).1
  unfolding get
  get-Coherent name version cache h = looked_up-Coherent name version _ cache h refl
