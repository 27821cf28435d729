-- ===== src/CopyText.antt =====
-- The text format of PostgreSQL's COPY, which reads the lines that the program sends. It is not
-- part of the repository: `decode` is a parameter, with the documented behaviour that matters.
use cerepso.Base.{
  ℕ, Bytes, Bool, true, false, ◌||◌, ◌&&◌, List, [], ◌∷◌, ◌++◌, ◌≡◌, ◌≢◌, refl, sym, ap, ◌∙◌, arith,
  append-nil, append_assoc, ◌==◌, leb, not, All,
}

abbrev within : ℕ → ℕ → ℕ → Bool
within lo hi c = leb lo c && leb c hi

-- Characters that mean something else behind a backslash, or may in a later version: letters,
-- digits and the full stop of the end marker.
abbrev pub is_reserved : ℕ → Bool
is_reserved c = within b'a' b'z' c || within b'A' b'Z' c || within b'0' b'9' c || c == b'.'

-- Decoding of one column value: a backslashed character that is not reserved stands for itself,
-- and so does a character that is no backslash.
pub record CopyFormat : Type 0 where
  pub decode : Bytes → Bytes
  pub decode_nil : decode [] ≡ []
  pub decode_plain : (c : ℕ) (rest : Bytes) → c ≢ b'\\' → decode (c ∷ rest) ≡ c ∷ decode rest
  pub decode_escaped :
      (c : ℕ) (rest : Bytes) → is_reserved c ≡ false → decode (b'\\' ∷ c ∷ rest) ≡ c ∷ decode rest

-- What is left of a row when the data end without a newline.
abbrev open_row : List Bytes → Bytes → List (List Bytes)
open_row [] [] = []
open_row values value = (values ++ value ∷ []) ∷ []

-- The data are cut into rows at each newline and into column values at each tab that no backslash
-- escapes. `values` and `value` are what has been read of the current row and of its current
-- value, and the flag says that a backslash stands in front.
pub rows_from : List Bytes → Bytes → Bool → Bytes → List (List Bytes)
rows_from values value escaped [] = open_row values value
rows_from values value true (c ∷ text) = rows_from values (value ++ c ∷ []) false text
rows_from values value false (c ∷ text) = elim (c == b'\t') [
  | true ↦ rows_from (values ++ value ∷ []) [] false text
  | false ↦ elim (c == b'\n') [
    | true ↦ (values ++ value ∷ []) ∷ rows_from [] [] false text
    | false ↦ rows_from values (value ++ c ∷ []) (c == b'\\') text
  ]
]

unfoldable pub rows : Bytes → List (List Bytes)
unfolding rows_from
rows = rows_from [] [] false

-- Characters that stand for themselves in a value.
abbrev pub is_plain : ℕ → Bool
is_plain c = not (c == b'\\' || c == b'\t' || c == b'\n')

-- A piece of a line that reads as part of one value, whatever stands before and behind it.
pub record StaysInside (piece : Bytes) : Type 0 where
  pub reads :
      (values : List Bytes) (value rest : Bytes)
      → rows_from values value false (piece ++ rest) ≡ rows_from values (value ++ piece) false rest

pub StaysInside-nil : StaysInside []
StaysInside-nil = record { reads = λ values value rest. rw append-nil }

pub StaysInside-append : (a b : Bytes) → StaysInside a → StaysInside b → StaysInside (a ++ b)
StaysInside-append a b p q = record {
  reads = λ values value rest.
      rw append_assoc
        (p.reads values value (b ++ rest) ∙ q.reads values (value ++ a) rest ∙ rw append_assoc);
}

pub StaysInside-escaped : (c : ℕ) → StaysInside (b'\\' ∷ c ∷ [])
unfolding rows_from
StaysInside-escaped c = record { reads = λ values value rest. rw append_assoc }

pub StaysInside-plain : (c : ℕ) → is_plain c ≡ true → StaysInside (c ∷ [])
unfolding rows_from
StaysInside-plain c p = record { reads = λ values value rest. ground arith }

-- A list of values, with the tabs between them and the newline behind them.
unfoldable pub line_text : Bytes → List Bytes → Bytes
line_text value [] = value ++ b'\n' ∷ []
line_text value (next ∷ later) = value ++ b'\t' ∷ line_text next later

pub rows_from-line_text :
    (value : Bytes) (later seen : List Bytes) (more : Bytes)
    → StaysInside value
    → All StaysInside later
    → rows_from seen [] false (line_text value later ++ more) ≡ (seen ++ value ∷ later) ∷ rows more
unfolding line_text rows_from rows
rows_from-line_text value [] seen more p q =
    ap (rows_from seen [] false) (append_assoc value (b'\n' ∷ []) more)
    ∙ p.reads seen [] (b'\n' ∷ more)
rows_from-line_text value (next ∷ later) seen more p (q, qs) =
    ap (rows_from seen [] false) (append_assoc value _ more)
    ∙ p.reads seen [] (b'\t' ∷ (line_text next later ++ more))
    ∙ rows_from-line_text next later (seen ++ value ∷ []) more q qs
    ∙ ap (λ r. r ∷ rows more) (append_assoc seen (value ∷ []) (next ∷ later))

-- Values with tabs between them.
unfoldable pub joined : Bytes → List Bytes → Bytes
joined value [] = value
joined value (next ∷ later) = value ++ b'\t' ∷ joined next later

pub line_text-joined :
    (value : Bytes) (later : List Bytes) → line_text value later ≡ joined value later ++ b'\n' ∷ []
unfolding line_text joined
line_text-joined value [] = refl
line_text-joined value (next ∷ later) =
    ap (λ t. value ++ b'\t' ∷ t) (line_text-joined next later) ∙ sym (append_assoc value _ _)

pub line_text-append :
    (value next : Bytes) (seen later : List Bytes)
    → line_text value (seen ++ next ∷ later) ≡ joined value seen ++ b'\t' ∷ line_text next later
unfolding line_text joined
line_text-append value next [] later = refl
line_text-append value next (x ∷ seen) later =
    ap (λ t. value ++ b'\t' ∷ t) (line_text-append x next seen later) ∙ sym (append_assoc value _ _)

-- COPY reads a line whose values stay inside their columns as the row of these values.
pub rows-line_text :
    (value : Bytes) (later : List Bytes) (more : Bytes)
    → StaysInside value
    → All StaysInside later
    → rows (line_text value later ++ more) ≡ (value ∷ later) ∷ rows more
unfolding rows
rows-line_text value later more = rows_from-line_text value later [] more
