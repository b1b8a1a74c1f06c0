-- ===== src/Residency/Lookup.antt =====
-- `find_model` over the registry's sorted snapshot is a lookup in the registry.
use gpumemd.Base.{
  ◌≡◌, sym, ◌∙◌, subst, true, false, some, List, [], ◌∷◌, arith, Text, text_eq, text_eq_iff,
  text_eq_refl, find, contains, any_of, All, All-find_if, find_if-none, Unique, sort, sort-All,
  sort-any_of, contains-find, Option-cases, Bool-cases, inl, inr,
}
use gpumemd.Registry.{Registry, ModelRecord, snapshot, values, by_id}
use gpumemd.Registry.Counting.{IsRegistry}
use gpumemd.Residency.{find_model, has_id}

abbrev Models : Type 0
Models = List (Text × ModelRecord)

-- Every record stands under its own id.
abbrev Owns : Models → Type 0
Owns models = (id : Text) (model : ModelRecord) → find id models ≡ some model → model.id ≡ id

find_head : (k : Text) (v : ModelRecord) (rest : Models) → find k ((k, v) ∷ rest) ≡ some v
unfolding find
find_head k v rest = rw (text_eq_refl k)

find_tail :
    (k id : Text) (v model : ModelRecord) (rest : Models)
    → contains k rest ≡ false
    → find id rest ≡ some model
    → find id ((k, v) ∷ rest) ≡ some model
unfolding find
find_tail k id v model rest u e = ground (arith, text_eq_iff k id, contains-find k rest)

values-All :
    (whole part : Models)
    → Owns whole
    → Unique part
    → ((id : Text) (model : ModelRecord) → find id part ≡ some model → find id whole ≡ some model)
    → All (λ model. find model.id whole ≡ some model) (values part)
values-All whole [] own u sub = tt
values-All whole ((k, v) ∷ rest) own u sub =
    let at : find k whole ≡ some v = sub k v (find_head k v rest) in
    (
      subst (λ id. find id whole ≡ some v) (sym (own k v at)) at,
      values-All whole rest own u.1
          (λ id model e. sub id model (find_tail k id v model rest u.0 e)),
    )

any_of-values :
    (id : Text) (part : Models) (model : ModelRecord)
    → Owns part
    → Unique part
    → find id part ≡ some model
    → any_of (has_id id) (values part) ≡ true
unfolding find
any_of-values id [] model own u e = cc
any_of-values id ((k, v) ∷ rest) model own u e = elim (Bool-cases (text_eq k id)) [
  | inl same ↦ ground (arith, own k v (find_head k v rest))
  | inr differs ↦ ground (
    arith,
    any_of-values id rest model (λ i m f. own i m (find_tail k i v m rest u.0 f)) u.1
        (ground arith),
  )
]

-- The linear search of the sorted snapshot finds what stands in the registry under the id.
pub find_model-snapshot :
    (id : Text) (r : Registry) → IsRegistry r → find_model id (snapshot r) ≡ find id r.models
unfolding find_model snapshot
find_model-snapshot id r v = elim (Option-cases (find_model id (snapshot r))) [
  | inl e ↦ elim (Option-cases (find id r.models)) [
    | inl f ↦ e ∙ sym f
    | inr (model, f) ↦ absurd (
        ground (
          arith,
          find_if-none (has_id id) (sort by_id (values r.models)) e,
          sort-any_of by_id (has_id id) (values r.models),
          any_of-values id r.models model (λ i m g. (v.records i m g).own_id) v.unique f,
        ))
  ]
  | inr (model, e) ↦
      let (at, same) =
        All-find_if (λ m. find m.id r.models ≡ some m) (has_id id) (sort by_id (values r.models))
          (sort-All by_id (λ m. find m.id r.models ≡ some m) (values r.models)
            (values-All r.models r.models (λ i m g. (v.records i m g).own_id) v.unique
              (λ i m g. g)))
          e in
      e ∙ sym (subst (λ i. find i r.models ≡ some model) ((text_eq_iff model.id id).0 same) at)
]
