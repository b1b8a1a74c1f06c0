-- ===== src/Registry/History.antt =====
-- The registry against its abstract view: which models there are, and how often each is retained.
use gpumemd.Base.{
  ℕ, ◌+◌, ◌-◌, ◌≤◌, ◌<◌, ◌≡◌, refl, ◌∙◌, Bool, true, not, ◌&&◌, Option, none, some, List, [], ◌∷◌,
  arith, Text, text_eq, text_eq_iff, ◌==◌, if◌then◌else◌, length, find, is_some, find-assign,
  find-emplace, find-erase_ne, find-erase_self, contains-find, add64, add64_exact, word,
  Option-cases, inl, inr, ap, sym,
}
use gpumemd.Names.{valid_name, valid_metadata, valid_path}
use gpumemd.Registry.{
  Registry, ModelRecord, FileSystem, empty, register_model, register_file, unregister_model, retain,
  release_model, usable_size, is_regular, count,
}
use gpumemd.Registry.Counting.{
  new_record, IsRegistry, register_model-IsRegistry, register_file-IsRegistry,
  unregister_model-IsRegistry, retain-IsRegistry, release_model-IsRegistry,
}

pub data Call : Type 0 where
  registers : Text → ℕ → Text → Call
  registers_file : Text → Text → Text → Call
  unregisters retains releases : Text → Call

module _ (files : FileSystem) where
  pub step : Registry → Call → Registry
  step r (registers id bytes metadata) = (register_model id bytes metadata r).0
  step r (registers_file id path metadata) = (register_file files id path metadata r).0
  step r (unregisters id) = (unregister_model id r).0
  step r (retains id) = (retain id r).0
  step r (releases id) = (release_model id r).0

  pub run : Registry → List Call → Registry
  run r [] = r
  run r (call ∷ calls) = run (step r call) calls

  -- What is asked of a registration, apart from the name being free.
  abbrev pub accepts : Call → Bool
  accepts (registers id bytes metadata) =
      valid_name id && not (bytes == 0) && valid_metadata metadata
  accepts (registers_file id path metadata) =
      valid_name id
      && valid_path path
      && valid_metadata metadata
      && is_regular (files.is_regular_file path)
      && is_some (usable_size (files.file_size path))
  accepts _ = true

  abbrev pub registered : Bool → Option ℕ → Option ℕ
  registered ok none = if ok then some 0 else none
  registered ok (some n) = some n

  abbrev pub unregistered : Option ℕ → Option ℕ
  unregistered none = none
  unregistered (some n) = if n == 0 then none else some n

  abbrev pub changed : (ℕ → ℕ) → Option ℕ → Option ℕ
  changed f none = none
  changed f (some n) = some (f n)

  -- How a call changes the count of one model; `none` is a model that is not registered.
  abbrev pub expected : Call → Text → Option ℕ → Option ℕ
  expected (registers other bytes metadata) id n =
      if text_eq other id then registered (accepts (registers other bytes metadata)) n else n
  expected (registers_file other path metadata) id n =
      if text_eq other id then registered (accepts (registers_file other path metadata)) n else n
  expected (unregisters other) id n = if text_eq other id then unregistered n else n
  expected (retains other) id n = if text_eq other id then changed (λ k. k + 1) n else n
  expected (releases other) id n = if text_eq other id then changed (λ k. k - 1) n else n

  abbrev pub refs : Option ModelRecord → Option ℕ
  refs none = none
  refs (some model) = some model.ref_count

  -- The registry's own count.
  abbrev pub ref_count : Text → Registry → Option ℕ
  ref_count id r = refs (find id r.models)

  step-IsRegistry : (r : Registry) (call : Call) → IsRegistry r → IsRegistry (step r call)
  unfolding step
  step-IsRegistry r (registers id bytes metadata) v =
      register_model-IsRegistry id bytes metadata r v
  step-IsRegistry r (registers_file id path metadata) v =
      register_file-IsRegistry files id path metadata r v
  step-IsRegistry r (unregisters id) v = unregister_model-IsRegistry id r v
  step-IsRegistry r (retains id) v = retain-IsRegistry id r v
  step-IsRegistry r (releases id) v = release_model-IsRegistry id r v

  -- No count is above `n`.
  abbrev Bounded : ℕ → Registry → Type 0
  Bounded n r =
      (id : Text) (model : ModelRecord) → find id r.models ≡ some model → model.ref_count ≤ n

  register-expected :
      (r : Registry) (other : Text) (bytes : ℕ) (metadata id : Text)
      → ref_count id (step r (registers other bytes metadata))
        ≡ expected (registers other bytes metadata) id (ref_count id r)
  unfolding step register_model
  register-expected r other bytes metadata id = ground (
    arith,
    text_eq_iff other id,
    contains-find other r.models,
    find-emplace other id (new_record other metadata bytes []) r.models,
  )

  register_file-expected :
      (r : Registry) (other path metadata id : Text)
      → ref_count id (step r (registers_file other path metadata))
        ≡ expected (registers_file other path metadata) id (ref_count id r)
  unfolding step register_file
  register_file-expected r other path metadata id =
      elim (Option-cases (usable_size (files.file_size path))) [
        | inl e ↦ rw (step, register_file, e) (ground arith)
        | inr (size, e) ↦
            rw (step, register_file, e)
              (ground (
                arith,
                text_eq_iff other id,
                contains-find other r.models,
                find-emplace other id (new_record other metadata size path) r.models,
              ))
      ]

  step-expected :
      (n : ℕ) (r : Registry) (call : Call) (id : Text)
      → IsRegistry r
      → Bounded n r
      → n + 1 < word
      → ref_count id (step r call) ≡ expected call id (ref_count id r)
  unfolding step unregister_model retain release_model
  step-expected n r (registers other bytes metadata) id v b w =
      register-expected r other bytes metadata id
  step-expected n r (registers_file other path metadata) id v b w =
      register_file-expected r other path metadata id
  step-expected n r (unregisters other) id v b w = elim (Option-cases (find other r.models)) [
    | inl e ↦ ground (arith, text_eq_iff other id)
    | inr (model, e) ↦ ground (
      arith,
      text_eq_iff other id,
      find-erase_ne other id r.models,
      find-erase_self other r.models v.unique,
      (v.records other model e).valid,
    )
  ]
  step-expected n r (retains other) id v b w = elim (Option-cases (find other r.models)) [
    | inl e ↦ ground (arith, text_eq_iff other id)
    | inr (model, e) ↦ ground (
      arith,
      text_eq_iff other id,
      find-assign other id (count model (add64 model.ref_count 1) (add64 r.next_access 1)) r.models,
      (v.records other model e).valid,
      b other model e,
      add64_exact model.ref_count 1,
    )
  ]
  step-expected n r (releases other) id v b w = elim (Option-cases (find other r.models)) [
    | inl e ↦ ground (arith, text_eq_iff other id)
    | inr (model, e) ↦ ground (
      arith,
      text_eq_iff other id,
      find-assign other id (count model (model.ref_count - 1) (add64 r.next_access 1)) r.models,
      (v.records other model e).valid,
    )
  ]

  abbrev pub replay : List Call → Text → Option ℕ → Option ℕ
  replay [] id n = n
  replay (call ∷ calls) id n = replay calls id (expected call id n)

  grows : (call : Call) (id : Text) (k : ℕ) → expected call id none ≡ some k → k ≤ 0
  grows (registers other bytes metadata) id k e = ground arith
  grows (registers_file other path metadata) id k e = ground arith
  grows (unregisters other) id k e = ground arith
  grows (retains other) id k e = ground arith
  grows (releases other) id k e = ground arith

  grows_by_one :
      (call : Call) (id : Text) (m k : ℕ) → expected call id (some m) ≡ some k → k ≤ m + 1
  grows_by_one (registers other bytes metadata) id m k e = ground arith
  grows_by_one (registers_file other path metadata) id m k e = ground arith
  grows_by_one (unregisters other) id m k e = ground arith
  grows_by_one (retains other) id m k e = ground arith
  grows_by_one (releases other) id m k e = ground arith

  step-Bounded :
      (n : ℕ) (r : Registry) (call : Call)
      → IsRegistry r
      → Bounded n r
      → n + 1 < word
      → Bounded (n + 1) (step r call)
  step-Bounded n r call v b w id model e =
      let now : expected call id (ref_count id r) ≡ some model.ref_count =
        sym (step-expected n r call id v b w) ∙ ap refs e in
      elim (Option-cases (find id r.models)) [
        | inl f ↦ omega (arith, grows call id model.ref_count (rw f at now))
        | inr (old, f) ↦
            omega
              (arith, grows_by_one call id old.ref_count model.ref_count (rw f at now), b id old f)
      ]

  run-replay :
      (calls : List Call) (n : ℕ) (r : Registry) (id : Text)
      → IsRegistry r
      → Bounded n r
      → n + length calls < word
      → ref_count id (run r calls) ≡ replay calls id (ref_count id r)
  unfolding run
  run-replay [] n r id v b w = refl
  run-replay (call ∷ calls) n r id v b w =
      run-replay calls (n + 1) (step r call) id (step-IsRegistry r call v)
        (step-Bounded n r call v b (omega arith)) (omega arith)
      ∙ ap (replay calls id) (step-expected n r call id v b (omega arith))

  empty-IsRegistry : IsRegistry empty
  unfolding find
  empty-IsRegistry = record { unique = tt; records = λ id model e. cc }

  -- After any history of fewer than 2 ^ 64 calls from the empty registry, each model is registered,
  -- and retained as often, as the calls say: an accepted registration of a free name enters it with
  -- no reference, `retain` adds one, `release_model` takes one away if there is one, and
  -- `unregister_model` removes it only while it has none. Calls for other models do not count.
  pub run-expected :
      (calls : List Call) (id : Text)
      → length calls < word
      → ref_count id (run empty calls) ≡ replay calls id none
  unfolding find
  run-expected calls id w =
      run-replay calls 0 empty id empty-IsRegistry (λ other model e. cc) (omega arith)
