-- ===== src/Examples/Fixtures.antt =====
-- Concrete managers, registries, disks and backends.
use gpumemd.Base.{ℕ, ◌*◌, ◌/◌, true, false, some, [], ◌∷◌, Text, codes, ltb, pos}
use gpumemd.Resource.{Manager, AcquireOptions, PendingRequest, priority_fifo, granted}
use gpumemd.Registry.{FileSystem}
use gpumemd.Loader.{Disk}
use gpumemd.Backend.Mock.{Allocations, mock}
use gpumemd.Residency.{Host, LongDouble, Moment}

abbrev pub alice : Text
alice = codes "alice"

abbrev pub bob : Text
bob = codes "bob"

abbrev pub bert : Text
bert = codes "bert"

abbrev pub new_manager : Manager
new_manager = record {
  capacity = 100;
  scheduling_policy = priority_fifo;
  used = 0;
  reservations = [];
  model_reservations = [];
  pending = [];
  next_sequence = 0;
  finished = [];
  notified = 0;
}

abbrev pub options : AcquireOptions
options = record { priority = pos 3; timeout = pos 1_000; estimated_cost = pos 0 }

abbrev pub request : Text → ℕ → ℕ → PendingRequest
request name bytes sequence = record {
  name = name;
  bytes = bytes;
  priority = pos 3;
  estimated_cost = pos 0;
  sequence = sequence;
  deadline = 2_000;
  completed = false;
  result = granted 0;
}

-- Alice holds 60 bytes and a model 30, and Bob waits for 50.
abbrev pub busy : Manager
busy = record {
  capacity = 100;
  scheduling_policy = priority_fifo;
  used = 90;
  reservations = (alice, 60) ∷ [];
  model_reservations = (bert, 30) ∷ [];
  pending = request bob 50 4 ∷ [];
  next_sequence = 5;
  finished = [];
  notified = 0;
}

-- One file of three bytes.
abbrev pub files : FileSystem
files = record { is_regular_file = λ path. some true; file_size = λ path. some 3 }

abbrev pub disk : Disk
disk = record { files = files; read = λ path size. some (7 ∷ 8 ∷ 9 ∷ []) }

abbrev pub long_double : LongDouble ℕ
long_double = record { of_nat = λ n. n; times = λ a b. a * b; divide = λ a b. a / b; less = ltb }

abbrev pub host : Host Allocations ℕ
host = record { backend = mock; disk = disk; long_double = long_double }

abbrev pub moment : Moment
moment = record { elapsed_ms = 5; now = 1_000; others = λ m. m }
