-- ===== src/Residency/Evicting.antt =====
-- Which models `load` evicts, and what evicting them changes.
use gpumemd.Base.{
  ℕ, ◌≡◌, refl, sym, ◌∙◌, ap, subst, true, false, not, ◌&&◌, none, some, List, [], ◌∷◌, arith, Text,
  text_eq, text_eq_iff, text_eq_refl, find, assign, All, Unique, Unique-assign, find-assign,
  contains-find, sort, sort-All, Option-cases, Bool-cases, inl, inr, ltb, add64,
}
use gpumemd.Resource.Replacing.{among}
use gpumemd.Registry.{Registry}
use gpumemd.Registry.Counting.{IsRegistry}
use gpumemd.Backend.{Backend, IsBackend}
use gpumemd.Residency.{
  ResidencyRecord, System, LongDouble, resident_bytes, is_evictable, evictable, take_needed,
  choose_evictions, by_score, ids, evict_all,
}
use gpumemd.Residency.Coherent.{Mirrors}

abbrev pub Records : Type 0
Records = List (Text × ResidencyRecord)

-- An entry of the map that may be evicted.
abbrev pub Evictable : Records → Text × ResidencyRecord → Type 0
Evictable records (key, r) = (find key records ≡ some r) × (is_evictable r ≡ true)

evictable-All :
    (whole part : Records)
    → Unique part
    → ((key : Text) (r : ResidencyRecord) → find key part ≡ some r → find key whole ≡ some r)
    → All (Evictable whole) (evictable part)
unfolding evictable find
evictable-All whole [] u sub = tt
evictable-All whole ((key, r) ∷ rest) u sub =
    let later =
      evictable-All whole rest u.1
        (λ k x e. sub k x (ground (arith, text_eq_iff key k, contains-find key rest))) in
    elim (Bool-cases (is_evictable r)) [
      | inl e ↦ rw (evictable, e) ((sub key r (rw (text_eq_refl key)), e), later)
      | inr e ↦ rw (evictable, e) later
    ]

module _ {ℓ} (P : Text × ResidencyRecord → Type ℓ) where
  take_needed-All :
      (available footprint : ℕ) (candidates evictions : Records)
      → All P candidates
      → take_needed available footprint candidates ≡ some evictions
      → All P evictions
  unfolding take_needed
  take_needed-All available footprint [] evictions a e =
      let none_taken : evictions ≡ [] = ground arith in rw none_taken tt
  take_needed-All available footprint ((key, r) ∷ rest) evictions a e =
      elim (Bool-cases (ltb available footprint)) [
        | inr f ↦ let none_taken : evictions ≡ [] = ground arith in rw none_taken tt
        | inl f ↦
            elim (Option-cases (take_needed (add64 available r.footprint_bytes) footprint rest)) [
              | inl g ↦ absurd (ground arith)
              | inr (taken, g) ↦
                  let first : evictions ≡ (key, r) ∷ taken = ground arith in
                  rw first (
                    a.0,
                    take_needed-All (add64 available r.footprint_bytes) footprint rest taken a.1 g,
                  )
            ]
      ]

-- Only resident models without a reference are chosen.
pub choose_evictions-All :
    {F : Type 0} (long_double : LongDouble F) (available footprint : ℕ)
    (records evictions : Records)
    → Unique records
    → choose_evictions long_double available footprint records ≡ some evictions
    → All (Evictable records) evictions
unfolding choose_evictions
choose_evictions-All long_double available footprint records evictions u e =
    elim (Bool-cases (ltb available footprint)) [
      | inr f ↦ let none_taken : evictions ≡ [] = ground arith in rw none_taken tt
      | inl f ↦
          take_needed-All (Evictable records) available footprint
            (sort (by_score long_double) (evictable records)) evictions
            (sort-All (by_score long_double) (Evictable records) (evictable records)
              (evictable-All records records u (λ k r g. g)))
            (ground arith)
    ]

-- No model that is not resident, or is referenced, is among the evictions.
pub among-Evictable :
    (records evictions : Records) (registry : Registry) (id : Text)
    → All (Evictable records) evictions
    → ((key : Text) (r : ResidencyRecord) → find key records ≡ some r → Mirrors registry key r)
    → among id (ids evictions) ≡ true
    → (r : ResidencyRecord) × (find id records ≡ some r) × (is_evictable r ≡ true)
among-Evictable records [] registry id a m h = absurd (ground arith)
among-Evictable records ((key, r) ∷ rest) registry id a m h = elim (Bool-cases (text_eq r.id id)) [
  | inl e ↦
      let own = (m key r a.0.0).own_id in
      let here : key ≡ id = sym own ∙ (text_eq_iff r.id id).0 e in
      (r, subst (λ k. find k records ≡ some r) here a.0.0, a.0.1)
  | inr e ↦ among-Evictable records rest registry id a.1 m (rw e at h)
]

-- `s'` is `s` with the models of `evictions` made not resident and unloaded.
pub record Evicted {B : Type 0} (backend : Backend B) (Valid : B → Type 0) (evictions : Records)
    (s s' : System B) : Type 0 where
  pub registry : s'.registry ≡ s.registry
  pub resources : s'.resources ≡ s.resources
  pub next_loaded : s'.next_loaded ≡ s.next_loaded
  pub valid : Valid s'.backend
  pub unique : Unique s'.records
  pub mirrors :
      (id : Text) (r : ResidencyRecord) → find id s'.records ≡ some r → Mirrors s.registry id r
  pub others :
      (id : Text) → among id (ids evictions) ≡ false → find id s'.records ≡ find id s.records
  pub gone :
      (id : Text) → among id (ids evictions) ≡ true → resident_bytes (find id s'.records) ≡ none
  pub loaded :
      (id : Text)
      → backend.is_loaded id s'.backend
        ≡ (not (among id (ids evictions)) && backend.is_loaded id s.backend)

pub write-Mirrors :
    (key : Text) (new : ResidencyRecord) (records : Records) (registry : Registry)
    → Mirrors registry key new
    → ((id : Text) (r : ResidencyRecord) → find id records ≡ some r → Mirrors registry id r)
    → (id : Text) (r : ResidencyRecord) → find id (assign key new records) ≡ some r
    → Mirrors registry id r
write-Mirrors key new records registry m mirrors id r e = elim (Bool-cases (text_eq key id)) [
  | inl same ↦
      let is_new : new ≡ r = ground (arith, find-assign key id new records) in
      subst (λ k. Mirrors registry k r) ((text_eq_iff key id).0 same)
        (subst (Mirrors registry key) is_new m)
  | inr differs ↦ mirrors id r (ground (arith, find-assign key id new records))
]

module _ {B : Type 0} (backend : Backend B) (Valid : B → Type 0)
    (laws : IsBackend backend Valid) where
  evict_one :
      (key : Text) (r : ResidencyRecord) (s : System B)
      → IsRegistry s.registry
      → Valid s.backend
      → Unique s.records
      → ((id : Text) (x : ResidencyRecord) → find id s.records ≡ some x → Mirrors s.registry id x)
      → Mirrors s.registry key r
      → Evicted backend Valid ((key, r) ∷ []) s (record s {
        backend = (backend.unload r.id s.backend).0;
        records = assign key (record r { resident = false }) s.records;
      })
  evict_one key r s registry valid unique mirrors m = record {
    registry = refl;
    resources = refl;
    next_loaded = refl;
    valid = laws.unload-Valid r.id s.backend valid;
    unique = Unique-assign key _ s.records unique;
    mirrors =
        write-Mirrors key (record r { resident = false }) s.records s.registry
          (record {
            model = m.model;
            own_id = m.own_id;
            registered = m.registered;
            footprint = m.footprint;
            counted = m.counted;
          })
          mirrors;
    others = λ id h. ground (
      arith,
      m.own_id,
      find-assign key id (record r { resident = false }) s.records,
      text_eq_iff key id,
      text_eq_iff r.id id,
    );
    gone = λ id h. ground (
      arith,
      m.own_id,
      find-assign key id (record r { resident = false }) s.records,
      text_eq_iff key id,
      text_eq_iff r.id id,
    );
    loaded = λ id. ground (
      arith,
      laws.is_loaded-unload r.id id s.backend valid
          (rw (m.own_id) (registry.records key m.model m.registered).valid),
    );
  }

  pub evict_all-Evicted :
      (evictions : Records) (s : System B)
      → IsRegistry s.registry
      → Valid s.backend
      → Unique s.records
      → ((id : Text) (x : ResidencyRecord) → find id s.records ≡ some x → Mirrors s.registry id x)
      → All (λ entry. Mirrors s.registry entry.0 entry.1) evictions
      → Evicted backend Valid evictions s (evict_all backend evictions s)
  unfolding evict_all
  evict_all-Evicted [] s registry valid unique mirrors a = record {
    registry = refl;
    resources = refl;
    next_loaded = refl;
    valid = valid;
    unique = unique;
    mirrors = mirrors;
    others = λ id h. refl;
    gone = λ id h. absurd (ground arith);
    loaded = λ id. refl;
  }
  evict_all-Evicted ((key, r) ∷ rest) s registry valid unique mirrors a =
      let one = evict_one key r s registry valid unique mirrors a.0 in
      let more = evict_all-Evicted rest _ registry one.valid one.unique one.mirrors a.1 in
      record {
        registry = more.registry;
        resources = more.resources;
        next_loaded = more.next_loaded;
        valid = more.valid;
        unique = more.unique;
        mirrors = more.mirrors;
        others = λ id h. more.others id (ground arith) ∙ one.others id (ground arith);
        gone = λ id h. elim (Bool-cases (among id (ids rest))) [
          | inl e ↦ more.gone id e
          | inr e ↦ ap resident_bytes (more.others id e) ∙ one.gone id (ground arith)
        ];
        loaded = λ id. ground (arith, more.loaded id, one.loaded id);
      }
