-- ===== src/Residency/Reachable.antt =====
-- Runs of the whole system: the operations of the residency manager, the registrations, and the calls
-- of the resource manager's clients, in any order.
use gpumemd.Base.{ℕ, ◌≡◌, ◌<◌, refl, sym, subst, false, arith, Text, some, [], word, find, inl, inr}
use gpumemd.Resource.{Manager, SchedulingPolicy, create}
use gpumemd.Resource.Accounting.{IsConsistent}
use gpumemd.Resource.Reachable.{create-IsConsistent}
use gpumemd.Registry
use gpumemd.Registry.{FileSystem, empty}
use gpumemd.Backend.{IsBackend, unloading}
use gpumemd.Residency.{System, Host, Moment, resident_bytes}
use gpumemd.Residency.Coherent.{IsCoherent}
use gpumemd.Residency.Load.{load}
use gpumemd.Residency.Operations.{unload, retain, release_model, unregister_model}
use gpumemd.Residency.Loading.{load_lem}
use gpumemd.Residency.Unloading.{refused, broken, unloaded, unload_lem}
use gpumemd.Residency.Counted.{retain-IsCoherent, release_model-IsCoherent}
use gpumemd.Residency.Registering.{
  unregister_model-IsCoherent, register_model-IsCoherent, register_file-IsCoherent,
}
use gpumemd.Residency.Clients.{
  ClientStep, ClientReach, ClientStep-models, ClientStep-IsConsistent, ClientReach-Behaves,
}

-- Nothing is registered or resident.
abbrev pub start : {B : Type 0} → Manager → B → System B
start m b = record { registry = empty; resources = m; backend = b; records = []; next_loaded = 0 }

module _ {B F : Type 0} (host : Host B F) where
  pub data Step (s s' : System B) : Type 0 where
    registers :
        (id : Text) (bytes : ℕ) (metadata : Text)
        → s' ≡ record s { registry = (Registry.register_model id bytes metadata s.registry).0 }
        → Step s s'
    registers_file :
        (files : FileSystem) (id path metadata : Text)
        → s' ≡ record s { registry = (Registry.register_file files id path metadata s.registry).0 }
        → Step s s'
    unregisters : (id : Text) → s' ≡ (unregister_model id s).0 → Step s s'
    retains : (id : Text) → s' ≡ (retain id s).0 → Step s s'
    releases : (id : Text) → s' ≡ (release_model id s).0 → Step s s'
    loads :
        (id : Text) (moment : Moment)
        → ClientReach s.resources (moment.others s.resources)
        → s' ≡ (load host id moment s).0
        → Step s s'
    unloads : (id : Text) (now : ℕ) → s' ≡ (unload host id now s).0 → Step s s'
    clients : (m : Manager) → ClientStep s.resources m → s' ≡ record s { resources = m } → Step s s'

  pub data Reach (start : System B) : System B → Type 0 where
    here : Reach start start
    next : {s s' : System B} → Reach start s → Step s s' → Reach start s'

module _ {B F : Type 0} (host : Host B F) (Valid : B → Type 0)
    (laws : IsBackend host.backend Valid) where
  abbrev Good : System B → Type 0
  Good = IsCoherent host.backend Valid

  load-IsCoherent :
      (id : Text) (moment : Moment) (s : System B)
      → ClientReach s.resources (moment.others s.resources)
      → Good s
      → Good (load host id moment s).0
  load-IsCoherent id moment s r c =
      elim (load_lem host Valid laws moment id s c
        (ClientReach-Behaves moment s.resources r c.resources)) [
          | inl (e, unchanged) ↦ subst (λ q. Good q.0) (sym unchanged) c
          | inr (model, e, own, loaded) ↦ loaded.coherent
        ]

  unload-IsCoherent : (id : Text) (now : ℕ) (s : System B) → Good s → Good (unload host id now s).0
  unload-IsCoherent id now s c = elim (unload_lem host Valid (unloading laws) id now s c) [
    | refused e h same kept ↦ subst (λ q. Good q.0) (sym same) c
    | broken can failure same coherent ↦ coherent
    | unloaded x at can succeeded returned coherent others ↦ coherent
  ]

  clients-IsCoherent :
      (m : Manager) (s : System B)
      → ClientStep s.resources m
      → Good s
      → Good (record s { resources = m })
  clients-IsCoherent m s r c = record {
    registry = c.registry;
    resources = ClientStep-IsConsistent r c.resources;
    backend_valid = c.backend_valid;
    unique = c.unique;
    mirrors = c.mirrors;
    reserved = λ id.
        subst (λ n. find id n ≡ resident_bytes (find id s.records)) (sym (ClientStep-models r))
          (c.reserved id);
    loaded = c.loaded;
  }

  Step-IsCoherent : {s s' : System B} → Step host s s' → Good s → Good s'
  Step-IsCoherent {s} (registers id bytes metadata e) c =
      subst Good (sym e) (register_model-IsCoherent host.backend Valid id bytes metadata s c)
  Step-IsCoherent {s} (registers_file files id path metadata e) c =
      subst Good (sym e) (register_file-IsCoherent host.backend Valid files id path metadata s c)
  Step-IsCoherent {s} (unregisters id e) c =
      subst Good (sym e) (unregister_model-IsCoherent host.backend Valid id s c)
  Step-IsCoherent {s} (retains id e) c =
      subst Good (sym e) (retain-IsCoherent host.backend Valid id s c)
  Step-IsCoherent {s} (releases id e) c =
      subst Good (sym e) (release_model-IsCoherent host.backend Valid id s c)
  Step-IsCoherent {s} (loads id moment r e) c = subst Good (sym e) (load-IsCoherent id moment s r c)
  Step-IsCoherent {s} (unloads id now e) c = subst Good (sym e) (unload-IsCoherent id now s c)
  Step-IsCoherent {s} (clients m r e) c = subst Good (sym e) (clients-IsCoherent m s r c)

  Reach-keeps : {s s' : System B} → Reach host s s' → Good s → Good s'
  Reach-keeps here c = c
  Reach-keeps (next r e) c = Step-IsCoherent e (Reach-keeps r c)

  start-IsCoherent :
      (m : Manager) (b : B)
      → IsConsistent m
      → m.model_reservations ≡ []
      → Valid b
      → ((id : Text) → host.backend.is_loaded id b ≡ false)
      → Good (start m b)
  unfolding find
  start-IsCoherent m b v none_reserved valid none_loaded = record {
    registry = record { unique = tt; records = λ id model e. absurd (ground arith) };
    resources = v;
    backend_valid = valid;
    unique = tt;
    mirrors = λ id r e. absurd (ground arith);
    reserved = λ id. rw none_reserved refl;
    loaded = λ id. none_loaded id;
  }

-- Whatever clients and models do, and in whatever order, the system stays coherent if it starts with a
-- new resource manager of a 64-bit capacity and an empty backend that keeps its promises, among them
-- that it never fails to unload a loaded model. So at any time a model is resident exactly if the
-- backend holds it and exactly if bytes are reserved for it, these bytes are its footprint in the
-- registry, the reference counts of both managers agree, and what is reserved for clients and models
-- adds up to what is used and fits the capacity.
pub Reach-IsCoherent :
    {B F : Type 0} (host : Host B F) (Valid : B → Type 0) (laws : IsBackend host.backend Valid)
    (capacity : ℕ) (policy : SchedulingPolicy) (m : Manager) (b : B) (s : System B)
    → capacity < word
    → create capacity policy ≡ some m
    → Valid b
    → ((id : Text) → host.backend.is_loaded id b ≡ false)
    → Reach host (start m b) s
    → IsCoherent host.backend Valid s
unfolding create
Reach-IsCoherent host Valid laws capacity policy m b s h e valid none_loaded r =
    Reach-keeps host Valid laws r (
      start-IsCoherent host Valid laws m b (create-IsConsistent capacity policy h e) (ground arith)
        valid none_loaded)
