-- ===== src/Hstore/RoundTrip.antt =====
-- The parser reads back what hstore text in quotes holds.
use cerepso.Base.{
  ℕ, ◌+◌, Bytes, true, false, [], ◌∷◌, ◌++◌, length, length-append, ◌≡◌, refl, ap, ◌∙◌, arith,
  append-nil, append_assoc, if◌then◌else◌, ◌==◌, ok,
}
use cerepso.Hstore.{HStoreParts, key, value, end_reached, Scan, get_next_loop, start}

-- Quotation marks and backslashes are escaped, as in the text form of PostgreSQL's hstore.
unfoldable pub quoted_char : ℕ → Bytes
quoted_char c =
    if c == b'\\' then b'\\' ∷ b'\\' ∷ [] else if c == b'"' then b'\\' ∷ b'"' ∷ [] else c ∷ []

unfoldable pub quoted : Bytes → Bytes
quoted [] = []
quoted (c ∷ s) = quoted_char c ++ quoted s

abbrev reading : HStoreParts → ℕ → Bytes → Bytes → Scan
reading part p k v = record {
  current_position = p;
  parse_progress = part;
  key_buffer = k;
  value_buffer = v;
  accumulated_backslashes = 0;
  quoted_string = true;
}

loop-key_char :
    (p c : ℕ) (k v rest : Bytes)
    → get_next_loop (reading key p k v) (quoted_char c ++ rest)
      ≡ get_next_loop (reading key (p + length (quoted_char c)) (k ++ c ∷ []) v) rest
unfolding get_next_loop quoted_char
loop-key_char p c k v rest = ground arith

loop-value_char :
    (p c : ℕ) (k v rest : Bytes)
    → get_next_loop (reading value p k v) (quoted_char c ++ rest)
      ≡ get_next_loop (reading value (p + length (quoted_char c)) k (v ++ c ∷ [])) rest
unfolding get_next_loop quoted_char
loop-value_char p c k v rest = ground arith

loop-key :
    (s : Bytes) (p : ℕ) (k v rest : Bytes)
    → get_next_loop (reading key p k v) (quoted s ++ rest)
      ≡ get_next_loop (reading key (p + length (quoted s)) (k ++ s) v) rest
unfolding quoted
loop-key [] p k v rest = ground (arith, append-nil k)
loop-key (c ∷ s) p k v rest = ground (
  arith,
  append_assoc (quoted_char c) (quoted s) rest,
  loop-key_char p c k v (quoted s ++ rest),
  loop-key s (p + length (quoted_char c)) (k ++ c ∷ []) v rest,
  append_assoc k (c ∷ []) s,
  length-append (quoted_char c) (quoted s),
)

loop-value :
    (s : Bytes) (p : ℕ) (k v rest : Bytes)
    → get_next_loop (reading value p k v) (quoted s ++ rest)
      ≡ get_next_loop (reading value (p + length (quoted s)) k (v ++ s)) rest
unfolding quoted
loop-value [] p k v rest = ground (arith, append-nil v)
loop-value (c ∷ s) p k v rest = ground (
  arith,
  append_assoc (quoted_char c) (quoted s) rest,
  loop-value_char p c k v (quoted s ++ rest),
  loop-value s (p + length (quoted_char c)) k (v ++ c ∷ []) rest,
  append_assoc v (c ∷ []) s,
  length-append (quoted_char c) (quoted s),
)

-- One pair in quotes: "key"=>"value"
unfoldable pub pair_text : Bytes × Bytes → Bytes
unfolding quoted
pair_text (k, v) = b'"' ∷ (quoted k ++ (b'"' ∷ b'=' ∷ b'>' ∷ b'"' ∷ (quoted v ++ b'"' ∷ [])))

abbrev pub finished : ℕ → Bytes → Bytes → Scan
finished p k v = record {
  current_position = p;
  parse_progress = end_reached;
  key_buffer = k;
  value_buffer = v;
  accumulated_backslashes = 0;
  quoted_string = false;
}

loop-finished :
    (p : ℕ) (k v rest : Bytes) → get_next_loop (finished p k v) rest ≡ ok (finished p k v)
unfolding get_next_loop
loop-finished p k v [] = refl
loop-finished p k v (c ∷ rest) = refl

loop_separator :
    (p : ℕ) (k v rest : Bytes)
    → get_next_loop (reading key p k v) (b'"' ∷ b'=' ∷ b'>' ∷ b'"' ∷ rest)
      ≡ get_next_loop (reading value (p + 4) k v) rest
unfolding get_next_loop
loop_separator p k v rest = ground arith

loop_close :
    (p : ℕ) (k v rest : Bytes)
    → get_next_loop (reading value p k v) (b'"' ∷ rest) ≡ ok (finished (p + 1) k v)
unfolding get_next_loop
loop_close p k v rest = ground (arith, loop-finished (p + 1) k v rest)

loop_open :
    (p : ℕ) (rest : Bytes)
    → get_next_loop (start p) (b'"' ∷ rest) ≡ get_next_loop (reading key (p + 1) [] []) rest
unfolding get_next_loop
loop_open p rest = ground arith

pub loop_comma :
    (p : ℕ) (rest : Bytes)
    → get_next_loop (start p) (b',' ∷ rest) ≡ get_next_loop (start (p + 1)) rest
unfolding get_next_loop
loop_comma p rest = ground arith

pub loop-pair_text :
    (p : ℕ) (k v rest : Bytes)
    → get_next_loop (start p) (pair_text (k, v) ++ rest)
      ≡ ok (finished (p + length (pair_text (k, v))) k v)
unfolding pair_text
loop-pair_text p k v rest =
    ap (get_next_loop (start p)) (ap (◌∷◌ b'"') (append_assoc (quoted k) _ rest))
    ∙ loop_open p _
    ∙ loop-key k (p + 1) [] [] _
    ∙ loop_separator _ k [] _
    ∙ ap (get_next_loop _) (append_assoc (quoted v) (b'"' ∷ []) rest)
    ∙ loop-value v _ k [] (b'"' ∷ rest)
    ∙ loop_close _ k v rest
    ∙ ap (λ n. ok (finished n k v))
        (omega (
          arith,
          length-append (quoted k) (b'"' ∷ b'=' ∷ b'>' ∷ b'"' ∷ (quoted v ++ b'"' ∷ [])),
          length-append (quoted v) (b'"' ∷ []),
        ))
