-- ===== src/Backend.antt =====
-- include/gpumemd/accelerator_backend.hpp: what the residency manager asks of a backend. Beside the
-- operations stand the laws that the manager relies on: a view of what is loaded, and how the
-- operations change it.
pub mod Mock
use gpumemd.Names.{valid_name}
use gpumemd.Base.{
  ℕ, ◌≡◌, Bool, true, false, not, ◌&&◌, ◌||◌, Option, none, some, List, Text, text_eq, text_eq_iff,
  length, arith, if◌then◌else◌,
}

pub data BackendError : Type 0 where
  ok invalid_model_id invalid_size already_loaded not_loaded device_unavailable : BackendError
  allocation_failed runtime_failure unsupported : BackendError

pub record BackendOperationResult : Type 0 where
  pub error : BackendError
  pub amount : ℕ

pub record BackendShareResult : Type 0 where
  pub error : BackendError
  pub amount : ℕ
  pub token : Text

abbrev pub failed : BackendError → BackendOperationResult
failed e = record { error = e; amount = 0 }

abbrev pub done : ℕ → BackendOperationResult
done amount = record { error = ok; amount = amount }

abbrev is_ok : BackendError → Bool
is_ok ok = true
is_ok _ = false

-- `BackendOperationResult::ok`
abbrev pub succeeds : BackendOperationResult → Bool
succeeds r = is_ok r.error

pub record Backend (B : Type 0) : Type 0 where
  pub load : Text → ℕ → B → B × BackendOperationResult
  pub load_data : Text → List ℕ → B → B × BackendOperationResult
  pub unload : Text → B → B × BackendOperationResult
  pub share : Text → B → BackendShareResult
  pub is_loaded : Text → B → Bool

-- An `unload` that succeeds removes its model, and one that fails changes nothing that is loaded. The
-- mock backend and the CUDA backend both do this.
pub record IsUnloading {B : Type 0} (backend : Backend B) (Valid : B → Type 0) : Type 0 where
  pub unload-Valid : (id : Text) (b : B) → Valid b → Valid (backend.unload id b).0
  pub is_loaded-unload :
      (id other : Text) (b : B)
      → Valid b
      → valid_name id ≡ true
      → backend.is_loaded other (backend.unload id b).0
        ≡ (not (succeeds (backend.unload id b).1 && text_eq id other) && backend.is_loaded other b)

-- A load that succeeds adds its model, and one that fails changes nothing. A valid name is unloaded
-- exactly if it is loaded: no unload of a loaded model fails. The code of `load` relies on this, for it
-- ignores what its calls of `unload` return; the CUDA backend does not keep it when `cudaFree` fails.
pub record IsBackend {B : Type 0} (backend : Backend B) (Valid : B → Type 0) : Type 0 where
  pub load-Valid : (id : Text) (bytes : ℕ) (b : B) → Valid b → Valid (backend.load id bytes b).0
  pub load_data-Valid :
      (id : Text) (bytes : List ℕ) (b : B) → Valid b → Valid (backend.load_data id bytes b).0
  pub unload-Valid : (id : Text) (b : B) → Valid b → Valid (backend.unload id b).0
  pub is_loaded-load :
      (id other : Text) (bytes : ℕ) (b : B)
      → backend.is_loaded other (backend.load id bytes b).0
        ≡ ((succeeds (backend.load id bytes b).1 && text_eq id other) || backend.is_loaded other b)
  pub is_loaded-load_data :
      (id other : Text) (bytes : List ℕ) (b : B)
      → backend.is_loaded other (backend.load_data id bytes b).0 ≡ (
          (succeeds (backend.load_data id bytes b).1 && text_eq id other)
          || backend.is_loaded other b)
  pub is_loaded-unload :
      (id other : Text) (b : B)
      → Valid b
      → valid_name id ≡ true
      → backend.is_loaded other (backend.unload id b).0
        ≡ (not (text_eq id other) && backend.is_loaded other b)
  pub succeeds-unload :
      (id : Text) (b : B)
      → valid_name id ≡ true
      → succeeds (backend.unload id b).1 ≡ backend.is_loaded id b

-- A backend of which no unload of a loaded model fails is one of which those that fail change nothing.
pub unloading :
    {B : Type 0} {backend : Backend B} {Valid : B → Type 0}
    → IsBackend backend Valid
    → IsUnloading backend Valid
unloading laws = record {
  unload-Valid = laws.unload-Valid;
  is_loaded-unload = λ id other b valid named. ground (
    arith,
    laws.is_loaded-unload id other b valid named,
    laws.succeeds-unload id b named,
    text_eq_iff id other,
  );
}
