-- ===== src/Residency/Counted.antt =====
-- The operations of `ModelResidencyManager` that count references, and the invariant.
use gpumemd.Base.{
  ℕ, ◌-◌, ◌≡◌, refl, sym, ◌∙◌, ap, subst, false, some, List, arith, Text, text_eq, text_eq_iff,
  text_eq_refl, find, assign, contains, contains-find, find-assign, find-emplace, Unique,
  Unique-assign, Unique-emplace, is_some, Option-cases, Bool-cases, inl, inr, ◌==◌, add64,
}
use gpumemd.Names.{valid_name}
use gpumemd.Registry
use gpumemd.Registry.{
  Registry, ModelRecord, ModelError, ModelOperationResult, failed, done, ok, snapshot,
  unknown_model, count, FileSystem, usable_size,
}
use gpumemd.Registry.Counting.{IsRegistry, retain-IsRegistry, release_model-IsRegistry}
use gpumemd.Backend.{Backend}
use gpumemd.Residency.{ResidencyRecord, System, resident_bytes}
use gpumemd.Residency.Coherent.{Mirrors, IsCoherent}
use gpumemd.Residency.Lookup.{find_model-snapshot}
use gpumemd.Residency.Operations.{
  retain, release_model, after_counting, count_refs, not_resident, is_done,
}

-- The records after a count of `model`.
record Counted (model : ModelRecord) (refs : ℕ) (registry : Registry)
    (records records' : List (Text × ResidencyRecord)) : Type 0 where
  unique : Unique records'
  mirrors : (id : Text) (x : ResidencyRecord) → find id records' ≡ some x → Mirrors registry id x
  resident : (id : Text) → resident_bytes (find id records') ≡ resident_bytes (find id records)

module _ (model : ModelRecord) (refs access : ℕ) (r : Registry)
    (records : List (Text × ResidencyRecord)) (at : find model.id r.models ≡ some model)
    (unique : Unique records)
    (mirrors : (id : Text) (x : ResidencyRecord) → find id records ≡ some x → Mirrors r id x) where
  abbrev r' : Registry
  r' = record { models = assign model.id (count model refs access) r.models; next_access = access }

  counted-Mirrors :
      (x : ResidencyRecord)
      → x.id ≡ model.id
      → x.footprint_bytes ≡ model.footprint_bytes
      → x.ref_count ≡ refs
      → Mirrors r' model.id x
  counted-Mirrors x own bytes same = record {
    model = count model refs access;
    own_id = own;
    registered = ground (
      arith,
      find-assign model.id model.id (count model refs access) r.models,
      text_eq_refl model.id,
    );
    footprint = bytes;
    counted = same;
  }

  kept-Mirrors :
      (id : Text) (x : ResidencyRecord)
      → text_eq model.id id ≡ false
      → find id records ≡ some x
      → Mirrors r' id x
  kept-Mirrors id x differs e =
      let m = mirrors id x e in
      record {
        model = m.model;
        own_id = m.own_id;
        registered =
            ground
              (arith, find-assign model.id id (count model refs access) r.models, m.registered);
        footprint = m.footprint;
        counted = m.counted;
      }

  count_refs-Counted : Counted model refs r' records (count_refs model refs records)
  unfolding count_refs
  count_refs-Counted = elim (Option-cases (find model.id records)) [
    | inl e ↦
        let fresh : contains model.id records ≡ false =
          ground (arith, contains-find model.id records) in
        rw (count_refs, e)
          (record {
            unique = Unique-emplace model.id _ records unique;
            mirrors = λ id x f. elim (Bool-cases (text_eq model.id id)) [
              | inl same ↦
                  let is_new : not_resident model refs ≡ x =
                    ground
                      (arith, find-emplace model.id id (not_resident model refs) records fresh) in
                  subst (λ k. Mirrors r' k x) ((text_eq_iff model.id id).0 same)
                    (subst (Mirrors r' model.id) is_new
                      (counted-Mirrors (not_resident model refs) refl refl refl))
              | inr differs ↦
                  kept-Mirrors id x differs (
                    ground
                      (arith, find-emplace model.id id (not_resident model refs) records fresh))
            ];
            resident = λ id. ground (
              arith,
              find-emplace model.id id (not_resident model refs) records fresh,
              text_eq_iff model.id id,
            );
          })
    | inr (y, e) ↦
        let old = mirrors model.id y e in
        let same_model : old.model ≡ model = ground (arith, old.registered) in
        let bytes : y.footprint_bytes ≡ model.footprint_bytes =
          old.footprint ∙ ap (λ (m : ModelRecord). m.footprint_bytes) same_model in
        rw (count_refs, e)
          (record {
            unique = Unique-assign model.id _ records unique;
            mirrors = λ id x f. elim (Bool-cases (text_eq model.id id)) [
              | inl same ↦
                  let is_new : (record y { ref_count = refs }) ≡ x =
                    ground
                      (arith, find-assign model.id id (record y { ref_count = refs }) records) in
                  subst (λ k. Mirrors r' k x) ((text_eq_iff model.id id).0 same)
                    (subst (Mirrors r' model.id) is_new
                      (counted-Mirrors (record y { ref_count = refs }) old.own_id bytes refl))
              | inr differs ↦
                  kept-Mirrors id x differs (
                    ground (arith, find-assign model.id id (record y { ref_count = refs }) records))
            ];
            resident = λ id. ground (
              arith,
              find-assign model.id id (record y { ref_count = refs }) records,
              text_eq_iff model.id id,
            );
          })
  ]

-- What a registry's count of a registered model returns: a failure that changes nothing, or the new
-- count, which stands in the registry.
data Counts (model : ModelRecord) (r : Registry) : Registry × ModelOperationResult → Type 0 where
  refused : (e : ModelError) → is_done e ≡ false → Counts model r (r, failed e)
  counts :
      (refs access : ℕ)
      → Counts model r (
        record {
          models = assign model.id (count model refs access) r.models;
          next_access = access;
        },
        done refs,
      )

retain-Counts :
    (model : ModelRecord) (r : Registry)
    → find model.id r.models ≡ some model
    → Counts model r (Registry.retain model.id r)
unfolding Registry.retain
retain-Counts model r at = elim (Bool-cases (valid_name model.id)) [
  | inl e ↦ rw (Registry.retain, e, at) (counts (add64 model.ref_count 1) (add64 r.next_access 1))
  | inr e ↦ rw (Registry.retain, e) (refused Registry.invalid_id refl)
]

release_model-Counts :
    (model : ModelRecord) (r : Registry)
    → find model.id r.models ≡ some model
    → Counts model r (Registry.release_model model.id r)
unfolding Registry.release_model
release_model-Counts model r at = elim (Bool-cases (valid_name model.id)) [
  | inl e ↦ elim (Bool-cases (model.ref_count == 0)) [
    | inl f ↦ rw (Registry.release_model, e, at, f) (refused Registry.refcount_underflow refl)
    | inr f ↦
        rw (Registry.release_model, e, at, f) (counts (model.ref_count - 1) (add64 r.next_access 1))
  ]
  | inr e ↦ rw (Registry.release_model, e) (refused Registry.invalid_id refl)
]

module _ {B : Type 0} (backend : Backend B) (Valid : B → Type 0) where
  after_counting-IsCoherent :
      (model : ModelRecord) (s : System B) (r : Registry × ModelOperationResult)
      → IsCoherent backend Valid s
      → find model.id s.registry.models ≡ some model
      → IsRegistry r.0
      → Counts model s.registry r
      → IsCoherent backend Valid (after_counting model s r).0
  after_counting-IsCoherent model s (_, _) c at v (refused e h) = rw h c
  after_counting-IsCoherent model s (_, _) c at v (counts refs access) =
      let counted =
        count_refs-Counted model refs access s.registry s.records at c.unique c.mirrors in
      record {
        registry = v;
        resources = c.resources;
        backend_valid = c.backend_valid;
        unique = counted.unique;
        mirrors = counted.mirrors;
        reserved = λ id. c.reserved id ∙ sym (counted.resident id);
        loaded = λ id. c.loaded id ∙ ap is_some (sym (counted.resident id));
      }

  registered-own :
      (id : Text) (model : ModelRecord) (s : System B)
      → IsCoherent backend Valid s
      → find id s.registry.models ≡ some model
      → (model.id ≡ id) × (find model.id s.registry.models ≡ some model)
  registered-own id model s c e =
      let own = (c.registry.records id model e).own_id in
      (own, subst (λ k. find k s.registry.models ≡ some model) (sym own) e)

  pub retain-IsCoherent :
      (id : Text) (s : System B)
      → IsCoherent backend Valid s
      → IsCoherent backend Valid (retain id s).0
  unfolding retain
  retain-IsCoherent id s c = elim (Option-cases (find id s.registry.models)) [
    | inl e ↦ rw (retain, find_model-snapshot id s.registry c.registry, e) c
    | inr (model, e) ↦
        let (own, at) = registered-own id model s c e in
        rw (retain, find_model-snapshot id s.registry c.registry, e)
          (subst
            (λ k.
              IsCoherent backend Valid (after_counting model s (Registry.retain k s.registry)).0)
            own
            (after_counting-IsCoherent model s (Registry.retain model.id s.registry) c at
              (retain-IsRegistry model.id s.registry c.registry)
              (retain-Counts model s.registry at)))
  ]

  pub release_model-IsCoherent :
      (id : Text) (s : System B)
      → IsCoherent backend Valid s
      → IsCoherent backend Valid (release_model id s).0
  unfolding release_model
  release_model-IsCoherent id s c = elim (Option-cases (find id s.registry.models)) [
    | inl e ↦ rw (release_model, find_model-snapshot id s.registry c.registry, e) c
    | inr (model, e) ↦
        let (own, at) = registered-own id model s c e in
        rw (release_model, find_model-snapshot id s.registry c.registry, e)
          (subst
            (λ k.
              IsCoherent backend Valid
                (after_counting model s (Registry.release_model k s.registry)).0)
            own
            (after_counting-IsCoherent model s (Registry.release_model model.id s.registry) c at
              (release_model-IsRegistry model.id s.registry c.registry)
              (release_model-Counts model s.registry at)))
  ]
