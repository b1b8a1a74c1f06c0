-- ===== src/Client/Listing.antt =====
-- Replies of several lines, which the client reads up to the line `END`.
use gpumemd.Base.{
  ℕ, ◌-◌, ◌≡◌, refl, sym, ap, subst, ◌∙◌, true, false, not, none, some, List, [], ◌∷◌, ◌++◌,
  append_assoc, arith, Text, codes, text_eq, text_eq_iff, length, length-append, take, drop, all_of,
  All, leb, ◌==◌, Bool-cases, Option-cases, inl, inr,
}
use gpumemd.Names.{is_empty}
use gpumemd.Protocol.{ends_with}
use gpumemd.Protocol.Replies.{newline, end_mark}
use gpumemd.Server.Lines.{cut}
use gpumemd.Server.Chunks.{cut-append}
use gpumemd.Server.Framing.{unlines, cut-line}
use gpumemd.Server.Sending.{Sending, send_all, take-drop}
use gpumemd.Server.Session.{starts_with}
use gpumemd.Server.{Write}
use gpumemd.Client.{ok}
use gpumemd.Client.Exchange.{
  Read, complete, is_complete, is_multiline, has_newline, classify, request, fails,
}
use gpumemd.Client.Replies.{
  IsFramed, IsUnbroken, is_arrival, arrived, any_of-append, read_reply-IsFramed,
}

-- A line that does not end in `END`.
abbrev pub IsRow : Text → Type 0
IsRow row = IsUnbroken row × ((start : Text) → ¬ (row ≡ start ++ codes "END"))

-- A reply whose last line, and no other, ends in `END`.
pub record IsListing (reply : Text) : Type 0 where
  pub head : Text
  pub rows : List Text
  pub head_row : IsRow (codes "OK " ++ head)
  pub all_rows : All IsRow rows
  pub written : reply ≡ unlines ((codes "OK " ++ head) ∷ rows) ++ end_mark

calm_characters : (text : Text) → IsUnbroken text → all_of (λ c. not (c == b'\n')) text ≡ true
calm_characters [] h = refl
calm_characters (c ∷ text) h = ground (arith, calm_characters text)

cut-IsUnbroken : (text : Text) → cut text ≡ none → IsUnbroken text
unfolding cut
cut-IsUnbroken [] h = refl
cut-IsUnbroken (c ∷ text) h = elim (Bool-cases (c == b'\n')) [
  | inl e ↦ absurd (ground (arith, rw (cut, e) at h))
  | inr e ↦ elim (Option-cases (cut text)) [
    | inl f ↦ ground (arith, e, cut-IsUnbroken text f)
    | inr (found, f) ↦ absurd (ground (arith, rw (cut, e, f) at h))
  ]
]

-- No `END` line comes before the last.
no_early_end :
    (lines : List Text) (start rest : Text) (c : ℕ)
    → All IsRow lines
    → ¬ (start ++ end_mark ++ c ∷ rest ≡ unlines lines ++ end_mark)
no_early_end [] start rest c h e =
    let sizes = ap (λ t. length t) e in
    absurd (
      omega
        (arith, sizes, length-append (start ++ end_mark) (c ∷ rest), length-append start end_mark))
no_early_end (line ∷ lines) start rest c (row, h) e =
    let after : cut (unlines (line ∷ lines) ++ end_mark) ≡ some (line, unlines lines ++ end_mark) =
      ap cut (append_assoc line (b'\n' ∷ unlines lines) end_mark)
      ∙ cut-line line (unlines lines ++ end_mark) (calm_characters line row.0) in
    elim (Option-cases (cut start)) [
      | inl f ↦
          let calm : IsUnbroken (start ++ codes "END") =
            ground (
              arith,
              any_of-append (λ d. d == b'\n') start (codes "END"),
              cut-IsUnbroken start f,
            ) in
          let before : cut (start ++ end_mark ++ c ∷ rest) ≡ some (start ++ codes "END", c ∷ rest) =
            ap cut (
              append_assoc start end_mark (c ∷ rest)
              ∙ sym (append_assoc start (codes "END") (b'\n' ∷ c ∷ rest)))
            ∙ cut-line (start ++ codes "END") (c ∷ rest)
                (calm_characters (start ++ codes "END") calm) in
          let same : some (start ++ codes "END", c ∷ rest)
              ≡ some (line, unlines lines ++ end_mark) =
            sym before ∙ ap cut e ∙ after in
          row.1 start (ground (arith, same))
      | inr ((first, others), f) ↦
          let before : cut (start ++ end_mark ++ c ∷ rest)
              ≡ some (first, others ++ (end_mark ++ c ∷ rest)) =
            ap cut (append_assoc start end_mark (c ∷ rest))
            ∙ (cut-append start (end_mark ++ c ∷ rest) first others f).0 in
          let same : some (first, others ++ (end_mark ++ c ∷ rest))
              ≡ some (line, unlines lines ++ end_mark) =
            sym before ∙ ap cut e ∙ after in
          let left : others ++ (end_mark ++ c ∷ rest) ≡ unlines lines ++ end_mark =
            ground (arith, same) in
          no_early_end lines others rest c h (append_assoc others end_mark (c ∷ rest) ∙ left)
    ]

drop-append : (xs ys : Text) → drop (length xs) (xs ++ ys) ≡ ys
drop-append [] ys = refl
drop-append (x ∷ xs) ys = drop-append xs ys

ends_with-append : (text : Text) → ends_with (text ++ end_mark) end_mark ≡ true
ends_with-append text =
    let size : length (text ++ end_mark) - 4 ≡ length text =
      omega (arith, length-append text end_mark) in
    let long : leb 4 (length (text ++ end_mark)) ≡ true =
      ground (arith, length-append text end_mark) in
    let last : drop (length (text ++ end_mark) - 4) (text ++ end_mark) ≡ end_mark =
      ap (λ n. drop n (text ++ end_mark)) size ∙ drop-append text end_mark in
    ground (
      arith,
      long,
      (text_eq_iff (drop (length (text ++ end_mark) - 4) (text ++ end_mark)) end_mark).1 last,
    )

ends_with-start :
    (text : Text) → ends_with text end_mark ≡ true → text ≡ take (length text - 4) text ++ end_mark
ends_with-start text h =
    sym (take-drop (length text - 4) text)
    ∙ ap (λ t. take (length text - 4) text ++ t)
        ((text_eq_iff (drop (length text - 4) text) end_mark).0 (ground arith))

no_error :
    (start rest left : Text) (c : ℕ)
    → start ++ c ∷ rest ≡ codes "OK " ++ left
    → starts_with start (codes "ERR ") ≡ false
unfolding text_eq
no_error [] rest left c e = refl
no_error (x ∷ start) rest left c e =
    let first : 79 ≡ x = ground (arith, e) in
    subst (λ y. starts_with (y ∷ start) (codes "ERR ") ≡ false) first refl

listing-IsFramed : (reply : Text) → IsListing reply → IsFramed true reply
unfolding is_complete
listing-IsFramed reply l =
    let text : Text = unlines ((codes "OK " ++ l.head) ∷ l.rows) in
    subst (IsFramed true) (sym l.written) (
      ground (arith, ends_with-append text),
      λ start rest c e.
          let calm = no_error start rest (l.head ++ b'\n' ∷ unlines l.rows ++ end_mark) c e in
          elim (Bool-cases (ends_with start end_mark)) [
            | inr f ↦ rw (is_complete, calm, f) refl
            | inl f ↦ absurd (
                no_early_end ((codes "OK " ++ l.head) ∷ l.rows) (take (length start - 4) start) rest
                  c (l.head_row, l.all_rows)
                  (ap (λ t. t ++ c ∷ rest) (sym (ends_with-start start f)) ∙ e))
          ],
    )

classify-listing :
    (left : Text) → classify (complete (codes "OK " ++ left)) ≡ fails ok (codes "OK " ++ left)
unfolding classify text_eq
classify-listing left = refl

-- A request whose command asks for several lines ends with the whole reply, however it is cut into
-- buffers, if no line of it but the last ends in `END`.
pub request-IsListing :
    (command reply : Text) (writes : List Write) (reads : List Read)
    → IsListing reply
    → is_multiline command ≡ true
    → is_empty command ≡ false
    → has_newline command ≡ false
    → send_all writes (command ++ newline) ≡ Sending.returned (command ++ newline) true
    → all_of is_arrival reads ≡ true
    → arrived reads ≡ reply
    → request true writes reads command ≡ fails ok reply
unfolding request
request-IsListing command reply writes reads l multi filled unbroken sent h e =
    let bytes : is_empty (arrived reads) ≡ false = ap is_empty (e ∙ l.written) ∙ ground arith in
    let whole = read_reply-IsFramed true reads [] reply (listing-IsFramed reply l) h e bytes in
    rw (request, filled, unbroken, sent, multi, whole)
      (subst (λ t. classify (complete t) ≡ fails ok t) (sym l.written)
        (classify-listing (l.head ++ b'\n' ∷ unlines l.rows ++ end_mark)))
