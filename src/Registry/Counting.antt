-- ===== src/Registry/Counting.antt =====
-- The invariant of `ModelRegistry`, and how its operations change a model's record.
use gpumemd.Base.{
  ℕ, ◌<◌, ◌≡◌, true, false, some, [], arith, Text, text_eq, text_eq_iff, find, contains, emplace,
  assign, erase, Unique, Unique-emplace, Unique-erase, Unique-assign, find-assign, find-emplace,
  find-erase_ne, find-erase_self, Bool-cases, inl, inr, subst,
}
use gpumemd.Names.{valid_name}
use gpumemd.Registry.{
  Registry, ModelRecord, FileSystem, register_model, register_file, unregister_model, retain,
  release_model, usable_size, count,
}

-- What is known of a record under the key `id`.
pub record IsRecord (id : Text) (model : ModelRecord) : Type 0 where
  pub own_id : model.id ≡ id
  pub valid : valid_name id ≡ true
  pub sized : 0 < model.footprint_bytes

pub record IsRegistry (r : Registry) : Type 0 where
  pub unique : Unique r.models
  pub records :
      (id : Text) (model : ModelRecord) → find id r.models ≡ some model → IsRecord id model

add-IsRegistry :
    (id : Text) (model : ModelRecord) (r : Registry)
    → IsRegistry r
    → contains id r.models ≡ false
    → IsRecord id model
    → IsRegistry (record r { models = emplace id model r.models })
add-IsRegistry id model r v fresh good = record {
  unique = Unique-emplace id model r.models v.unique;
  records = λ other found e. elim (Bool-cases (text_eq id other)) [
    | inl same ↦
        let found_new : model ≡ found =
          ground (arith, find-emplace id other model r.models fresh) in
        let key : id ≡ other = (text_eq_iff id other).0 same in
        subst (λ k. IsRecord k found) key (subst (IsRecord id) found_new good)
    | inr differs ↦
        v.records other found (ground (arith, find-emplace id other model r.models fresh))
  ];
}

write-IsRegistry :
    (id : Text) (model : ModelRecord) (refs access : ℕ) (r : Registry)
    → IsRegistry r
    → find id r.models ≡ some model
    → IsRegistry
        (record { models = assign id (count model refs access) r.models; next_access = access })
write-IsRegistry id model refs access r v at = record {
  unique = Unique-assign id _ r.models v.unique;
  records = λ other found e. elim (Bool-cases (text_eq id other)) [
    | inl same ↦
        let found_new : count model refs access ≡ found =
          ground (arith, find-assign id other (count model refs access) r.models) in
        let key : id ≡ other = (text_eq_iff id other).0 same in
        let old = v.records id model at in
        subst (λ k. IsRecord k found) key
          (subst (IsRecord id) found_new
            (record { own_id = old.own_id; valid = old.valid; sized = old.sized }))
    | inr differs ↦
        v.records other found
          (ground (arith, find-assign id other (count model refs access) r.models))
  ];
}

pub remove-IsRegistry :
    (id : Text) (r : Registry) → IsRegistry r → IsRegistry (record r { models = erase id r.models })
remove-IsRegistry id r v = record {
  unique = Unique-erase id r.models v.unique;
  records = λ other found e. elim (Bool-cases (text_eq id other)) [
    | inl same ↦ absurd (ground (arith, find-erase_self id r.models v.unique, text_eq_iff id other))
    | inr differs ↦ v.records other found (ground (arith, find-erase_ne id other r.models))
  ];
}

abbrev pub new_record : Text → Text → ℕ → Text → ModelRecord
new_record id metadata bytes path = record {
  id = id;
  metadata = metadata;
  footprint_bytes = bytes;
  ref_count = 0;
  last_access = 0;
  source_path = path;
}

pub register_model-IsRegistry :
    (id : Text) (bytes : ℕ) (metadata : Text) (r : Registry)
    → IsRegistry r
    → IsRegistry (register_model id bytes metadata r).0
unfolding register_model
register_model-IsRegistry id bytes metadata r v =
    ground (arith, add-IsRegistry id (new_record id metadata bytes []) r v)

pub register_file-IsRegistry :
    (files : FileSystem) (id path metadata : Text) (r : Registry)
    → IsRegistry r
    → IsRegistry (register_file files id path metadata r).0
unfolding register_file usable_size
register_file-IsRegistry files id path metadata r v = grind (arith, add-IsRegistry)

pub unregister_model-IsRegistry :
    (id : Text) (r : Registry) → IsRegistry r → IsRegistry (unregister_model id r).0
unfolding unregister_model
unregister_model-IsRegistry id r v = ground (arith, remove-IsRegistry id r v)

pub retain-IsRegistry : (id : Text) (r : Registry) → IsRegistry r → IsRegistry (retain id r).0
unfolding retain
retain-IsRegistry id r v = grind (arith, write-IsRegistry)

pub release_model-IsRegistry :
    (id : Text) (r : Registry) → IsRegistry r → IsRegistry (release_model id r).0
unfolding release_model
release_model-IsRegistry id r v = grind (arith, write-IsRegistry)
