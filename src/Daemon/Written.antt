-- ===== src/Daemon/Written.antt =====
-- What the daemon's arguments make it do, against the settings that they write.
use gpumemd.Base.{
  ℕ, ◌≡◌, refl, ap, ◌∙◌, false, Option, none, some, List, [], ◌∷◌, ◌++◌, append-nil, sym, Text,
  codes, text_eq, arith, Option-cases, inl, inr, ◌==◌, if◌then◌else◌,
}
use gpumemd.Names.{is_empty}
use gpumemd.Resource.{Manager, SchedulingPolicy, priority_fifo, cost_aware, create}
use gpumemd.Protocol.{parse_size}
use gpumemd.Protocol.Numbers.{parse_size-exact}
use gpumemd.Daemon.{
  Settings, Launch, exits, serves, with_capacity, with_settings, launch, read_arguments,
  read_option, read_policy, default_settings, is_help,
}

-- What an option sets.
pub data Setting : Type 0 where
  memory socket : Text → Setting
  scheduling : SchedulingPolicy → Setting

abbrev policy_word : SchedulingPolicy → Text
policy_word priority_fifo = codes "priority"
policy_word cost_aware = codes "cost"

-- The arguments that write some settings.
abbrev pub written : List Setting → List Text
written [] = []
written (memory size ∷ settings) = codes "--memory" ∷ size ∷ written settings
written (socket path ∷ settings) = codes "--socket" ∷ path ∷ written settings
written (scheduling policy ∷ settings) =
    codes "--scheduling" ∷ policy_word policy ∷ written settings

abbrev pub memory_of : Setting → Option Text
memory_of (memory size) = some size
memory_of _ = none

abbrev pub socket_of : Setting → Option Text
socket_of (socket path) = some path
socket_of _ = none

abbrev pub scheduling_of : Setting → Option SchedulingPolicy
scheduling_of (scheduling policy) = some policy
scheduling_of _ = none

abbrev or_else : {A : Type 0} → A → Option A → A
or_else other none = other
or_else other (some x) = x

abbrev last_of : {A : Type 0} → (Setting → Option A) → List Setting → Option A
last_of part [] = none
last_of part (setting ∷ settings) = elim (last_of part settings) [
  | none ↦ part setting
  | some x ↦ some x
]

-- The last setting of a kind, or else a default.
unfoldable pub chosen : {A : Type 0} → (Setting → Option A) → A → List Setting → A
chosen part other settings = or_else other (last_of part settings)

chosen-step :
    {A : Type 0} (part : Setting → Option A) (other : A) (setting : Setting)
    (settings : List Setting)
    → chosen part other (setting ∷ settings) ≡ chosen part (or_else other (part setting)) settings
unfolding chosen
chosen-step part other setting settings = elim (Option-cases (last_of part settings)) [
  | inl e ↦ rw e refl
  | inr (x, e) ↦ rw e refl
]

abbrev applied : List Setting → Settings → Settings
applied settings s = record {
  memory_token = chosen memory_of s.memory_token settings;
  socket_path = chosen socket_of s.socket_path settings;
  scheduling_policy = chosen scheduling_of s.scheduling_policy settings;
}

applied-step :
    (setting : Setting) (settings : List Setting) (s : Settings)
    → applied (setting ∷ settings) s ≡ record {
      memory_token = chosen memory_of (or_else s.memory_token (memory_of setting)) settings;
      socket_path = chosen socket_of (or_else s.socket_path (socket_of setting)) settings;
      scheduling_policy =
          chosen scheduling_of (or_else s.scheduling_policy (scheduling_of setting)) settings;
    }
applied-step setting settings s =
    rw
      (
        chosen-step memory_of s.memory_token setting settings,
        chosen-step socket_of s.socket_path setting settings,
        chosen-step scheduling_of s.scheduling_policy setting settings,
      )
      refl

-- Settings are read in their order, and the arguments behind them come next.
read_arguments-written :
    (settings : List Setting) (rest : List Text) (s : Settings)
    → read_arguments (written settings ++ rest) s ≡ read_arguments rest (applied settings s)
unfolding read_arguments read_option read_policy text_eq chosen
read_arguments-written [] rest s = refl
read_arguments-written (memory size ∷ settings) rest s =
    read_arguments-written settings rest (record s { memory_token = size })
    ∙ ap (read_arguments rest) (sym (applied-step (memory size) settings s))
read_arguments-written (socket path ∷ settings) rest s =
    read_arguments-written settings rest (record s { socket_path = path })
    ∙ ap (read_arguments rest) (sym (applied-step (socket path) settings s))
read_arguments-written (scheduling priority_fifo ∷ settings) rest s =
    read_arguments-written settings rest (record s { scheduling_policy = priority_fifo })
    ∙ ap (read_arguments rest) (sym (applied-step (scheduling priority_fifo) settings s))
read_arguments-written (scheduling cost_aware ∷ settings) rest s =
    read_arguments-written settings rest (record s { scheduling_policy = cost_aware })
    ∙ ap (read_arguments rest) (sym (applied-step (scheduling cost_aware) settings s))

-- Arguments that are no settings: an option without a value, an unknown option, or another policy.
pub data IsRefused : List Text → Type 0 where
  alone : (option : Text) → text_eq option (codes "--help") ≡ false → IsRefused (option ∷ [])
  unknown :
      (option value : Text) (rest : List Text)
      → text_eq option (codes "--memory") ≡ false
      → text_eq option (codes "--socket") ≡ false
      → text_eq option (codes "--scheduling") ≡ false
      → IsRefused (option ∷ value ∷ rest)
  other_policy :
      (value : Text) (rest : List Text)
      → text_eq value (codes "priority") ≡ false
      → text_eq value (codes "cost") ≡ false
      → IsRefused (codes "--scheduling" ∷ value ∷ rest)

read_arguments-IsRefused :
    (s : Settings) {rest : List Text} → IsRefused rest → read_arguments rest s ≡ none
unfolding read_arguments read_option read_policy text_eq
read_arguments-IsRefused s (alone option h) = refl
read_arguments-IsRefused s (unknown option value rest h k l) = rw (read_arguments, h, k, l) refl
read_arguments-IsRefused s (other_policy value rest h k) = rw (read_arguments, h, k) refl

is_help-IsRefused :
    (settings : List Setting) {rest : List Text}
    → IsRefused rest
    → is_help (written settings ++ rest) ≡ false
is_help-IsRefused [] (alone option h) = h
is_help-IsRefused [] (unknown option value rest h k l) = refl
is_help-IsRefused [] (other_policy value rest h k) = refl
is_help-IsRefused (memory size ∷ settings) r = refl
is_help-IsRefused (socket path ∷ settings) r = refl
is_help-IsRefused (scheduling policy ∷ settings) r = refl

is_help-written : (settings : List Setting) → is_help (written settings) ≡ false
is_help-written [] = refl
is_help-written (memory size ∷ settings) = refl
is_help-written (socket path ∷ settings) = refl
is_help-written (scheduling policy ∷ settings) = refl

-- A resource manager that holds nothing.
abbrev unused : ℕ → SchedulingPolicy → Manager
unused capacity policy = record {
  capacity = capacity;
  scheduling_policy = policy;
  used = 0;
  reservations = [];
  model_reservations = [];
  pending = [];
  next_sequence = 0;
  finished = [];
  notified = 0;
}

-- What settings make the daemon do.
abbrev pub expected : Option ℕ → Text → SchedulingPolicy → Launch
expected none path policy = exits 2
expected (some capacity) path policy =
    if is_empty path then exits 2 else serves path (unused capacity policy)

with_capacity-expected :
    (settings : Settings) (size : Option ℕ)
    → parse_size settings.memory_token ≡ size
    → with_capacity settings size ≡ expected size settings.socket_path settings.scheduling_policy
unfolding create
with_capacity-expected settings none h = refl
with_capacity-expected settings (some capacity) h =
    let (split, digits, value, positive, fits) =
      parse_size-exact settings.memory_token capacity h in
    let nonzero : capacity == 0 ≡ false = ground arith in rw (create, nonzero) refl

-- The daemon's arguments, as options with their values in any order: of each kind the last one counts,
-- the policy is `priority` unless one is given, and the daemon serves on that socket with a resource
-- manager that holds nothing and has that size and that policy, if the size parses and the path is not
-- empty; otherwise it exits with status 2. It exits with 2 as well if behind some settings there is an
-- option without a value (but `--help` alone), an unknown option or another policy. In none of these
-- cases does the constructor of the resource manager throw.
pub launch-written :
    (settings : List Setting)
    → (launch (written settings)
        ≡ expected
            (parse_size (chosen memory_of [] settings))
            (chosen socket_of [] settings)
            (chosen scheduling_of priority_fifo settings))
      × ((rest : List Text) → IsRefused rest → launch (written settings ++ rest) ≡ exits 2)
unfolding launch read_arguments
launch-written settings = (
  rw (launch, is_help-written settings)
      (ap with_settings (
          ap (λ arguments. read_arguments arguments default_settings)
            (sym (append-nil (written settings)))
          ∙ read_arguments-written settings [] default_settings)
        ∙ with_capacity-expected (applied settings default_settings) _ refl),
  λ rest refused.
      rw (launch, is_help-IsRefused settings refused)
        (ap with_settings (
          read_arguments-written settings rest default_settings
          ∙ read_arguments-IsRefused (applied settings default_settings) refused)),
)
