-- ===== src/Metrics.antt =====
-- include/gpumemd/metrics.hpp and src/core/metrics.cpp: the counters of the daemon.
use gpumemd.Base.{ℕ, Bool, if◌then◌else◌, add64}

pub record Metrics : Type 0 where
  pub requests : ℕ
  pub successes : ℕ
  pub failures : ℕ
  pub acquires : ℕ
  pub releases : ℕ
  pub model_loads : ℕ
  pub model_unloads : ℕ
  pub acquired_bytes : ℕ
  pub released_bytes : ℕ

abbrev pub no_metrics : Metrics
no_metrics = record {
  requests = 0;
  successes = 0;
  failures = 0;
  acquires = 0;
  releases = 0;
  model_loads = 0;
  model_unloads = 0;
  acquired_bytes = 0;
  released_bytes = 0;
}

unfoldable pub record_request : Bool → Metrics → Metrics
record_request success m = record m {
  requests = add64 m.requests 1;
  successes = if success then add64 m.successes 1 else m.successes;
  failures = if success then m.failures else add64 m.failures 1;
}

unfoldable pub record_acquire : Bool → ℕ → Metrics → Metrics
record_acquire success bytes m = record m {
  acquires = add64 m.acquires 1;
  acquired_bytes = if success then add64 m.acquired_bytes bytes else m.acquired_bytes;
}

unfoldable pub record_release : Bool → ℕ → Metrics → Metrics
record_release success bytes m = record m {
  releases = add64 m.releases 1;
  released_bytes = if success then add64 m.released_bytes bytes else m.released_bytes;
}

unfoldable pub record_model_load : Bool → Metrics → Metrics
record_model_load success m = record m {
  model_loads = if success then add64 m.model_loads 1 else m.model_loads;
}

unfoldable pub record_model_unload : Bool → Metrics → Metrics
record_model_unload success m = record m {
  model_unloads = if success then add64 m.model_unloads 1 else m.model_unloads;
}
