-- ===== src/Server/Listening.antt =====
-- `UnixSocketServer::run` of src/ipc/unix_socket_server.cpp: the socket is set up, clients are accepted
-- until the server stops, and everything is taken down again.
use gpumemd.Base.{
  ℕ, Bool, not, ◌||◌, Option, none, some, List, [], ◌∷◌, ◌++◌, Text, length, leb, if◌then◌else◌, ℤ,
  pos, negsuc,
}
use gpumemd.Names.{is_empty}

-- `sizeof(sockaddr_un::sun_path)`
abbrev pub path_max : ℕ
path_max = 108

-- What the system calls that set the socket up come to: whether `lstat` fails with `ENOENT`, and whether
-- `socket`, `bind`, `chmod`, `listen` and the two calls of `fcntl` succeed.
pub record Calls : Type 0 where
  pub absent : Bool
  pub socket : Bool
  pub bind : Bool
  pub chmod : Bool
  pub listen : Bool
  pub nonblocking : Bool

-- What `accept` comes to: a client, `EINTR`, or another failure. The loop also ends when a stop has been
-- requested.
pub data Accept : Type 0 where
  client : ℕ → Accept
  interrupted drained stop_seen : Accept

-- A round of the loop of `run`: a stop is requested (by `request_shutdown` or `external_stop`), `poll`
-- fails with `EINTR` or otherwise, nothing is ready, or clients may be.
pub data Round : Type 0 where
  stops interrupts fails idle : Round
  ready : List Accept → Round

-- What `run` does that is seen from outside.
pub data Effect : Type 0 where
  opens binds closes unlinks cancels_waiters joins_workers : Effect
  serves : ℕ → Effect

-- The loop that drains the pending clients.
unfoldable pub accept_all : List Accept → List Effect
accept_all [] = []
accept_all (client fd ∷ accepts) = serves fd ∷ accept_all accepts
accept_all (interrupted ∷ accepts) = accept_all accepts
accept_all (drained ∷ accepts) = []
accept_all (stop_seen ∷ accepts) = []

abbrev pub preceded : List Effect → Option (List Effect) → Option (List Effect)
preceded effects none = none
preceded effects (some later) = some (effects ++ later)

-- The loop of `run`: `none` while it goes on.
unfoldable pub serve_rounds : List Round → Option (List Effect)
unfolding accept_all
serve_rounds [] = none
serve_rounds (stops ∷ rounds) = some []
serve_rounds (fails ∷ rounds) = some []
serve_rounds (interrupts ∷ rounds) = serve_rounds rounds
serve_rounds (idle ∷ rounds) = serve_rounds rounds
serve_rounds (ready accepts ∷ rounds) = preceded (accept_all accepts) (serve_rounds rounds)

abbrev pub take_down : List Effect
take_down = closes ∷ cancels_waiters ∷ joins_workers ∷ unlinks ∷ []

abbrev pub finished : Option (List Effect) → Option (ℤ × List Effect)
finished none = none
finished (some effects) = some (pos 0, opens ∷ binds ∷ (effects ++ take_down))

-- The result and what was done: `none` while the server runs.
unfoldable pub run : Text → Calls → List Round → Option (ℤ × List Effect)
unfolding serve_rounds
run path calls rounds =
    if is_empty path || leb path_max (length path)
    then some (negsuc 0, [])
    else if not calls.absent
    then some (negsuc 0, [])
    else if not calls.socket
    then some (negsuc 0, [])
    else if not calls.bind
    then some (negsuc 0, opens ∷ closes ∷ [])
    else if not calls.chmod
    then some (negsuc 0, opens ∷ binds ∷ closes ∷ unlinks ∷ [])
    else if not calls.listen
    then some (negsuc 0, opens ∷ binds ∷ closes ∷ unlinks ∷ [])
    else if not calls.nonblocking
    then some (negsuc 0, opens ∷ binds ∷ closes ∷ unlinks ∷ [])
    else finished (serve_rounds rounds)
