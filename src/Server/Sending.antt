-- ===== src/Server/Sending.antt =====
-- `send_all` of src/ipc/unix_socket_server.cpp, which is `write_all` of src/client/client.cpp too.
use gpumemd.Base.{
  ℕ, zero, suc, ◌+◌, max, ◌≤◌, ◌≡◌, subst, not, length, all_of, refl, sym, ap, ◌∙◌, Bool, true,
  false, List, [], ◌∷◌, ◌++◌, append-nil, append_assoc, arith, Text, take, drop, ◌==◌,
  if◌then◌else◌, Bool-cases, inl, inr,
}
use gpumemd.Server.{Write, wrote, interrupted, broken}

-- What has come of sending: still blocked in `write`, or returned with the bytes that have been
-- written and whether they are all.
pub data Sending : Type 0 where
  blocked : Sending
  returned : Text → Bool → Sending

-- The loop, with the bytes that are sent and those that are left.
unfoldable pub send_from : List Write → Text → Text → Sending
send_from writes sent [] = returned sent true
send_from [] sent (c ∷ rest) = blocked
send_from (wrote count ∷ writes) sent (c ∷ rest) =
    if count == 0
    then returned sent false
    else send_from writes (sent ++ take count (c ∷ rest)) (drop count (c ∷ rest))
send_from (interrupted ∷ writes) sent (c ∷ rest) = send_from writes sent (c ∷ rest)
send_from (broken ∷ writes) sent (c ∷ rest) = returned sent false

unfoldable pub send_all : List Write → Text → Sending
unfolding send_from
send_all writes response = send_from writes [] response

pub take-drop : (n : ℕ) (xs : Text) → take n xs ++ drop n xs ≡ xs
take-drop zero xs = refl
take-drop (suc n) [] = refl
take-drop (suc n) (x ∷ xs) = ap (λ t. x ∷ t) (take-drop n xs)

-- What sending comes to: it blocks, all is written, or a part from the start.
pub data Delivers (response : Text) : Sending → Type 0 where
  blocks : Delivers response blocked
  whole : Delivers response (returned response true)
  part : (sent rest : Text) → sent ++ rest ≡ response → Delivers response (returned sent false)

send_from-Delivers :
    (writes : List Write) (sent left : Text) → Delivers (sent ++ left) (send_from writes sent left)
unfolding send_from
send_from-Delivers [] sent [] = rw (append-nil sent) whole
send_from-Delivers (write ∷ writes) sent [] = rw (append-nil sent) whole
send_from-Delivers [] sent (c ∷ rest) = blocks
send_from-Delivers (interrupted ∷ writes) sent (c ∷ rest) =
    send_from-Delivers writes sent (c ∷ rest)
send_from-Delivers (broken ∷ writes) sent (c ∷ rest) = part sent (c ∷ rest) refl
send_from-Delivers (wrote count ∷ writes) sent (c ∷ rest) = elim (Bool-cases (count == 0)) [
  | inl e ↦ rw (send_from, e) (part sent (c ∷ rest) refl)
  | inr e ↦
      rw (send_from, e)
        (subst
          (λ t.
            Delivers t (send_from writes (sent ++ take count (c ∷ rest)) (drop count (c ∷ rest))))
          (append_assoc sent (take count (c ∷ rest)) (drop count (c ∷ rest))
            ∙ ap (λ t. sent ++ t) (take-drop count (c ∷ rest)))
          (send_from-Delivers writes (sent ++ take count (c ∷ rest)) (drop count (c ∷ rest))))
]

-- However much each `write` takes, `send_all` returns a success only when the peer has got the whole
-- response, and otherwise the peer has got a part from its start: nothing is lost, repeated or
-- reordered.
pub send_all-Delivers :
    (writes : List Write) (response : Text) → Delivers response (send_all writes response)
unfolding send_all
send_all-Delivers writes response = send_from-Delivers writes [] response

-- A `write` that does not fail.
abbrev pub is_healthy : Write → Bool
is_healthy (wrote count) = not (count == 0)
is_healthy interrupted = true
is_healthy broken = false

abbrev pub is_written : Write → Bool
is_written (wrote count) = true
is_written _ = false

abbrev pub count_written : List Write → ℕ
count_written [] = 0
count_written (write ∷ writes) =
    if is_written write then suc (count_written writes) else count_written writes

length-drop : (n : ℕ) (xs : Text) → length (drop n xs) + n ≡ max n (length xs)
length-drop zero xs = omega arith
length-drop (suc n) [] = omega arith
length-drop (suc n) (x ∷ xs) = omega (arith, length-drop n xs)

send_from_complete :
    (writes : List Write) (sent left : Text)
    → all_of is_healthy writes ≡ true
    → length left ≤ count_written writes
    → send_from writes sent left ≡ returned (sent ++ left) true
unfolding send_from
send_from_complete [] sent [] h k = ap (λ t. returned t true) (sym (append-nil sent))
send_from_complete (write ∷ writes) sent [] h k = ap (λ t. returned t true) (sym (append-nil sent))
send_from_complete [] sent (c ∷ rest) h k = absurd (omega arith)
send_from_complete (interrupted ∷ writes) sent (c ∷ rest) h k =
    send_from_complete writes sent (c ∷ rest) h k
send_from_complete (broken ∷ writes) sent (c ∷ rest) h k = absurd (ground arith)
send_from_complete (wrote zero ∷ writes) sent (c ∷ rest) h k = absurd (ground arith)
send_from_complete (wrote (suc count) ∷ writes) sent (c ∷ rest) h k =
    let moved : suc count == 0 ≡ false = ground arith in
    rw (send_from, moved)
      (send_from_complete writes (sent ++ c ∷ take count rest) (drop count rest) (ground arith)
          (omega (arith, length-drop count rest))
        ∙ ap (λ t. returned t true)
            (append_assoc sent (c ∷ take count rest) (drop count rest)
              ∙ ap (λ t. sent ++ c ∷ t) (take-drop count rest)))

-- If no `write` fails and each takes at least a byte, `send_all` returns: the whole response is sent
-- after at most as many writes as it has bytes, the interrupted ones not counted.
pub send_all_complete :
    (writes : List Write) (response : Text)
    → all_of is_healthy writes ≡ true
    → length response ≤ count_written writes
    → send_all writes response ≡ returned response true
unfolding send_all
send_all_complete writes response h k = send_from_complete writes [] response h k
