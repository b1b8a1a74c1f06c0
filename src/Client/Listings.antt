-- ===== src/Client/Listings.antt =====
-- The daemon's replies of several lines.
use gpumemd.Base.{
  ℕ, ◌≡◌, ◌≢◌, refl, sym, ap, ◌∙◌, true, false, List, [], ◌∷◌, ◌++◌, map, append_assoc, arith, Text,
  codes, all_of, All, length, if◌then◌else◌,
}
use gpumemd.Names.{is_digit, is_empty}
use gpumemd.Resource.Models.{Reservation, StatusSnapshot}
use gpumemd.Nodes.{NodeRecord}
use gpumemd.Residency.{ResidencyRecord}
use gpumemd.Protocol.Decimal.{print, print-digits}
use gpumemd.Protocol.Replies.{
  newline, end_mark, rows, reservation_row, format_status, node_row, format_nodes, residents,
  resident_row, format_residency,
}
use gpumemd.Server.Framing.{unlines}
use gpumemd.Client.Replies.{IsUnbroken}
use gpumemd.Client.Verdicts.{print-IsUnbroken, append-IsUnbroken, field-IsUnbroken}
use gpumemd.Client.Listing.{IsRow, IsListing}

abbrev last_character : Text → ℕ
last_character [] = 0
last_character (c ∷ []) = c
last_character (c ∷ d ∷ text) = last_character (d ∷ text)

last_character-append :
    (xs ys : Text) (y : ℕ) → last_character (xs ++ y ∷ ys) ≡ last_character (y ∷ ys)
last_character-append [] ys y = refl
last_character-append (x ∷ []) ys y = refl
last_character-append (x ∷ z ∷ xs) ys y = last_character-append (z ∷ xs) ys y

-- A line is told from `END` by its last character.
last_character-IsRow : (row : Text) → IsUnbroken row → last_character row ≢ b'D' → IsRow row
last_character-IsRow row h k =
    (h, λ start e. k (ap last_character e ∙ last_character-append start (codes "ND") b'E'))

last_character-digits :
    (c : ℕ) (text : Text) → all_of is_digit (c ∷ text) ≡ true → last_character (c ∷ text) ≢ b'D'
last_character-digits c [] h e = absurd (ground arith)
last_character-digits c (d ∷ text) h e = last_character-digits d text (ground arith) e

last_character-print : (n : ℕ) → last_character (print n) ≢ b'D'
last_character-print n =
    let (digits, filled, value) = print-digits n in ends (print n) digits filled
  where
    ends :
        (text : Text)
        → all_of is_digit text ≡ true
        → is_empty text ≡ false
        → last_character text ≢ b'D'
    ends [] h k e = absurd (ground arith)
    ends (c ∷ text) h k e = last_character-digits c text h e

last_character-field :
    (xs ys : Text) → is_empty ys ≡ false → last_character (xs ++ b' ' ∷ ys) ≡ last_character ys
last_character-field xs [] h = absurd (ground arith)
last_character-field xs (y ∷ ys) h = last_character-append xs (y ∷ ys) b' '

-- A line that ends in a number.
number-IsRow : (xs : Text) (n : ℕ) → IsUnbroken xs → IsRow (xs ++ b' ' ∷ print n)
number-IsRow xs n h =
    let (digits, filled, value) = print-digits n in
    last_character-IsRow (xs ++ b' ' ∷ print n)
      (field-IsUnbroken xs (print n) h (print-IsUnbroken n))
      (λ e. last_character-print n (sym (last_character-field xs (print n) filled) ∙ e))

rows-unlines :
    {A : Type 0} (row : A → Text) (xs : List A) → rows row xs ≡ unlines (map row xs) ++ end_mark
rows-unlines row [] = refl
rows-unlines row (x ∷ xs) =
    append_assoc (row x) newline (rows row xs)
    ∙ ap (λ t. row x ++ b'\n' ∷ t) (rows-unlines row xs)
    ∙ sym (append_assoc (row x) (b'\n' ∷ unlines (map row xs)) end_mark)

All-rows :
    {A : Type 0} (row : A → Text) (P : A → Type 0)
    → ((x : A) → P x → IsRow (row x))
    → (xs : List A) → All P xs
    → All IsRow (map row xs)
All-rows row P f [] h = tt
All-rows row P f (x ∷ xs) (p, h) = (f x p, All-rows row P f xs h)

listed :
    {A : Type 0} (row : A → Text) (P : A → Type 0) (head : Text) (xs : List A)
    → ((x : A) → P x → IsRow (row x))
    → IsRow (codes "OK " ++ head)
    → All P xs
    → IsListing (codes "OK " ++ head ++ newline ++ rows row xs)
listed row P head xs f h k = record {
  head = head;
  rows = map row xs;
  head_row = h;
  all_rows = All-rows row P f xs k;
  written =
      append_assoc (codes "OK " ++ head) newline (rows row xs)
      ∙ ap (λ t. (codes "OK " ++ head) ++ b'\n' ∷ t) (rows-unlines row xs)
      ∙ sym (append_assoc (codes "OK " ++ head) (b'\n' ∷ unlines (map row xs)) end_mark);
}

node-IsRow : (n : NodeRecord) → IsUnbroken n.id × IsUnbroken n.endpoint → IsRow (node_row n)
node-IsRow n (h, k) =
    let xs : Text =
      codes "NODE "
      ++ n.id
      ++ b' ' ∷ n.endpoint
      ++ b' ' ∷ print n.capacity
      ++ b' ' ∷ print n.used in
    let calm : IsUnbroken xs =
      field-IsUnbroken (codes "NODE " ++ n.id ++ b' ' ∷ n.endpoint ++ b' ' ∷ print n.capacity)
        (print n.used)
        (field-IsUnbroken (codes "NODE " ++ n.id ++ b' ' ∷ n.endpoint) (print n.capacity)
          (field-IsUnbroken (codes "NODE " ++ n.id) n.endpoint
            (append-IsUnbroken (codes "NODE ") n.id refl h) k)
          (print-IsUnbroken n.capacity))
        (print-IsUnbroken n.used) in
    elim n.healthy
      as (λ healthy.
        IsRow (xs ++ b' ' ∷ (if healthy then codes "healthy" else codes "unhealthy"))) [
          | true ↦
              last_character-IsRow (xs ++ b' ' ∷ codes "healthy")
                (field-IsUnbroken xs (codes "healthy") calm refl)
                (λ e.
                  absurd (ground (arith, sym (last_character-field xs (codes "healthy") refl) ∙ e)))
          | false ↦
              last_character-IsRow (xs ++ b' ' ∷ codes "unhealthy")
                (field-IsUnbroken xs (codes "unhealthy") calm refl)
                (λ e.
                  absurd
                    (ground (arith, sym (last_character-field xs (codes "unhealthy") refl) ∙ e)))
        ]

-- Where no name and no endpoint has a newline, the replies to `status`, `residency` and `nodes` are
-- lists whose last line, and no other, ends in `END`.
pub replies-IsListing :
    (s : StatusSnapshot) (records : List ResidencyRecord) (nodes : List NodeRecord)
    → All (λ (r : Reservation). IsUnbroken r.name) s.reservations
    → All (λ (r : ResidencyRecord). IsUnbroken r.id) (residents records)
    → All (λ (n : NodeRecord). IsUnbroken n.id × IsUnbroken n.endpoint) nodes
    → IsListing (format_status s)
      × IsListing (format_residency records)
      × IsListing (format_nodes nodes)
unfolding format_status format_residency format_nodes
replies-IsListing s records nodes h k l = (
  listed reservation_row (λ (r : Reservation). IsUnbroken r.name)
      (codes "status "
        ++ print s.capacity
        ++ b' ' ∷ print s.used
        ++ b' ' ∷ print s.free
        ++ b' ' ∷ print (length s.reservations))
      s.reservations
      (λ r c.
        number-IsRow (codes "CLIENT " ++ r.name) r.bytes
          (append-IsUnbroken (codes "CLIENT ") r.name refl c))
      (number-IsRow
        (codes "OK status " ++ print s.capacity ++ b' ' ∷ print s.used ++ b' ' ∷ print s.free)
        (length s.reservations)
        (field-IsUnbroken (codes "OK status " ++ print s.capacity ++ b' ' ∷ print s.used)
          (print s.free)
          (field-IsUnbroken (codes "OK status " ++ print s.capacity) (print s.used)
            (append-IsUnbroken (codes "OK status ") (print s.capacity) refl
              (print-IsUnbroken s.capacity))
            (print-IsUnbroken s.used))
          (print-IsUnbroken s.free)))
      h,
  listed resident_row (λ (r : ResidencyRecord). IsUnbroken r.id)
      (codes "residency " ++ print (length (residents records))) (residents records)
      (λ r c.
        number-IsRow
          (codes "RESIDENT " ++ r.id ++ b' ' ∷ print r.footprint_bytes ++ b' ' ∷ print r.ref_count)
          r.last_loaded
          (field-IsUnbroken (codes "RESIDENT " ++ r.id ++ b' ' ∷ print r.footprint_bytes)
            (print r.ref_count)
            (field-IsUnbroken (codes "RESIDENT " ++ r.id) (print r.footprint_bytes)
              (append-IsUnbroken (codes "RESIDENT ") r.id refl c)
              (print-IsUnbroken r.footprint_bytes))
            (print-IsUnbroken r.ref_count)))
      (number-IsRow (codes "OK residency") (length (residents records)) refl) k,
  listed node_row (λ (n : NodeRecord). IsUnbroken n.id × IsUnbroken n.endpoint)
      (codes "nodes " ++ print (length nodes)) nodes node-IsRow
      (number-IsRow (codes "OK nodes") (length nodes) refl) l,
)
