-- ===== src/Client/Replies.antt =====
-- The client gets whole replies, however they are cut into the buffers of `read`.
use gpumemd.Base.{
  ℕ, zero, suc, ◌-◌, ◌≡◌, refl, sym, ap, ◌∙◌, subst, Bool, true, false, ◌&&◌, ◌||◌, List, [], ◌∷◌,
  ◌++◌, append_assoc, append-nil, arith, Text, codes, text_eq, text_eq_iff, any_of, all_of, length,
  drop, ◌==◌,
}
use gpumemd.Names.{is_empty}
use gpumemd.Client.{ClientError, ok, broker_rejected}
use gpumemd.Client.Exchange.{
  Read, got, interrupted, ended, complete, read_reply, is_complete, is_multiline, has_newline,
  classify, request, fails,
}
use gpumemd.Protocol.{ends_with}
use gpumemd.Protocol.Replies.{newline, end_mark}
use gpumemd.Server.{Write}
use gpumemd.Server.Sending.{Sending, send_all}

-- The results of `read` that bring bytes or none, and the bytes.
abbrev pub is_arrival : Read → Bool
is_arrival (got bytes) = true
is_arrival interrupted = true
is_arrival ended = false

abbrev pub arrived : List Read → Text
arrived [] = []
arrived (got bytes ∷ reads) = bytes ++ arrived reads
arrived (_ ∷ reads) = arrived reads

-- A reply at whose end, and not before, the loop that reads ends.
abbrev pub IsFramed : Bool → Text → Type 0
IsFramed multiline reply =
    (is_complete multiline reply ≡ true)
    × ((start rest : Text) (c : ℕ)
        → start ++ c ∷ rest ≡ reply
        → is_complete multiline start ≡ false)

pub read_reply-IsFramed :
    (multiline : Bool) (reads : List Read) (response reply : Text)
    → IsFramed multiline reply
    → all_of is_arrival reads ≡ true
    → response ++ arrived reads ≡ reply
    → is_empty (arrived reads) ≡ false
    → read_reply multiline reads response ≡ complete reply
unfolding read_reply
read_reply-IsFramed multiline [] response reply framed h e filled = absurd (ground arith)
read_reply-IsFramed multiline (interrupted ∷ reads) response reply framed h e filled =
    read_reply-IsFramed multiline reads response reply framed (ground arith) e filled
read_reply-IsFramed multiline (ended ∷ reads) response reply framed h e filled =
    absurd (ground arith)
read_reply-IsFramed multiline (got bytes ∷ reads) response reply framed h e filled =
    let so_far : (response ++ bytes) ++ arrived reads ≡ reply =
      append_assoc response bytes (arrived reads) ∙ e in
    split (arrived reads) refl so_far
      (read_reply-IsFramed multiline reads (response ++ bytes) reply framed (ground arith))
  where
    split :
        (left : Text)
        → arrived reads ≡ left
        → (response ++ bytes) ++ arrived reads ≡ reply
        → ((response ++ bytes) ++ arrived reads ≡ reply
            → is_empty (arrived reads) ≡ false
            → read_reply multiline reads (response ++ bytes) ≡ complete reply)
        → read_reply multiline (got bytes ∷ reads) response ≡ complete reply
    split [] last so_far later =
        let whole : response ++ bytes ≡ reply =
          sym (append-nil (response ++ bytes))
          ∙ ap (λ t. (response ++ bytes) ++ t) (sym last)
          ∙ so_far in
        let done : is_complete multiline (response ++ bytes) ≡ true =
          ap (is_complete multiline) whole ∙ framed.0 in
        rw (read_reply, done) (ap complete whole)
    split (c ∷ rest) more so_far later =
        let early : is_complete multiline (response ++ bytes) ≡ false =
          framed.1 (response ++ bytes) rest c
            (ap (λ t. (response ++ bytes) ++ t) (sym more) ∙ so_far) in
        let left : is_empty (arrived reads) ≡ false = ap is_empty more ∙ ground arith in
        rw (read_reply, early) (later so_far left)

-- A text without a newline.
abbrev pub IsUnbroken : Text → Type 0
IsUnbroken text = has_newline text ≡ false

pub any_of-append :
    (p : ℕ → Bool) (xs ys : Text) → any_of p (xs ++ ys) ≡ (any_of p xs || any_of p ys)
any_of-append p [] ys = refl
any_of-append p (x ∷ xs) ys = ground (arith, any_of-append p xs ys)

-- What ends before the end of a line has no newline.
start-IsUnbroken :
    (line start rest : Text) (c : ℕ)
    → IsUnbroken line
    → start ++ c ∷ rest ≡ line ++ newline
    → IsUnbroken start
start-IsUnbroken line [] rest c h e = refl
start-IsUnbroken [] (d ∷ start) rest c h e = absurd (empty start (ground arith))
  where
    empty : (start : Text) → ¬ (start ++ c ∷ rest ≡ [])
    empty [] e = absurd (ground arith)
    empty (x ∷ start) e = absurd (ground arith)
start-IsUnbroken (x ∷ line) (d ∷ start) rest c h e =
    let later : IsUnbroken start =
      start-IsUnbroken line start rest c (ground arith) (ground arith) in
    let same : d ≡ x = ground arith in ground (arith, h, later, same)

any_of-drop :
    (p : ℕ → Bool) (n : ℕ) (xs : Text) → any_of p xs ≡ false → any_of p (drop n xs) ≡ false
any_of-drop p zero xs h = h
any_of-drop p (suc n) [] h = refl
any_of-drop p (suc n) (x ∷ xs) h = any_of-drop p n xs (ground arith)

ends_with-IsUnbroken : (text : Text) → IsUnbroken text → ends_with text end_mark ≡ false
ends_with-IsUnbroken text h = ground (
  arith,
  text_eq_iff (drop (length text - 4) text) end_mark,
  any_of-drop (λ c. c == b'\n') (length text - 4) text h,
  ap has_newline,
)

-- The first word of a reply.
abbrev pub status_word : Bool → Text
status_word true = codes "OK "
status_word false = codes "ERR "

-- A reply of one line.
pub record IsReply (success : Bool) (reply : Text) : Type 0 where
  pub body : Text
  pub unbroken : IsUnbroken body
  pub written : reply ≡ status_word success ++ body ++ newline

abbrev pub verdict : Bool → ClientError
verdict true = ok
verdict false = broker_rejected

has_newline-line : (line : Text) → has_newline (line ++ newline) ≡ true
has_newline-line line = ground (arith, any_of-append (λ c. c == b'\n') line newline)

-- A loop ends where a line ends: for a command with a reply of one line, or if the line is an error.
pub line-IsFramed :
    (success multiline : Bool) (body : Text)
    → IsUnbroken body
    → multiline && success ≡ false
    → IsFramed multiline (status_word success ++ body ++ newline)
unfolding is_complete text_eq
line-IsFramed true true body h k = absurd (ground arith)
line-IsFramed true false body h k = (
  ground (arith, has_newline-line (codes "OK " ++ body)),
  λ start rest c e.
      let calm = start-IsUnbroken (codes "OK " ++ body) start rest c (ground (arith, h)) e in
      ground (arith, calm),
)
line-IsFramed false multiline body h k = (
  ground (arith, has_newline-line (codes "ERR " ++ body)),
  λ start rest c e.
      let calm : IsUnbroken start =
        start-IsUnbroken (codes "ERR " ++ body) start rest c (ground (arith, h)) e in
      let unended : ends_with start end_mark ≡ false = ends_with-IsUnbroken start calm in
      rw (is_complete, calm, unended) (ground arith),
)

classify-line :
    (success : Bool) (body : Text)
    → classify (complete (status_word success ++ body ++ newline))
      ≡ fails (verdict success) (status_word success ++ body ++ newline)
unfolding classify text_eq
classify-line true body = refl
classify-line false body = refl

pub line-is_empty :
    (success : Bool) (body : Text) → is_empty (status_word success ++ body ++ newline) ≡ false
line-is_empty true body = ground arith
line-is_empty false body = ground arith

-- A request whose command is sent and whose reply is one line ends with that reply, however it is
-- cut into buffers, as a success if the reply begins with `OK` and as a rejection if it begins with
-- `ERR`; a command that asks for several lines may be answered by an error.
pub request-IsReply :
    (command reply : Text) (success : Bool) (writes : List Write) (reads : List Read)
    → IsReply success reply
    → is_multiline command && success ≡ false
    → is_empty command ≡ false
    → has_newline command ≡ false
    → send_all writes (command ++ newline) ≡ Sending.returned (command ++ newline) true
    → all_of is_arrival reads ≡ true
    → arrived reads ≡ reply
    → request true writes reads command ≡ fails (verdict success) reply
unfolding request
request-IsReply command reply success writes reads line single filled unbroken sent h e =
    let framed : IsFramed (is_multiline command) reply =
      subst (IsFramed (is_multiline command)) (sym line.written)
        (line-IsFramed success (is_multiline command) line.body line.unbroken single) in
    let bytes : is_empty (arrived reads) ≡ false =
      ap is_empty (e ∙ line.written) ∙ line-is_empty success line.body in
    let complete_reply =
      read_reply-IsFramed (is_multiline command) reads [] reply framed h e bytes in
    rw (request, filled, unbroken, sent, complete_reply)
      (subst (λ t. classify (complete t) ≡ fails (verdict success) t) (sym line.written)
        (classify-line success line.body))
