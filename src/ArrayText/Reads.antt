-- ===== src/ArrayText/Reads.antt =====
-- A whole array is read element by element, by `while (has_next()) get_next()`.
use cerepso.Base.{
  ℕ, ◌+◌, ◌-◌, ◌%◌, ◌≤◌, ◌<◌, Bytes, true, false, List, [], ◌∷◌, ◌++◌, length, drop, get_elem?,
  length-append, drop-append, ◌≡◌, refl, sym, ap, ◌∙◌, arith, append_assoc, some, ◌==◌, leb, ok,
  subst, map,
}
use cerepso.ArrayText.{
  TypeConversion, ArrayParser, array_parser, size_mod, has_next, get_next, get_next_loop, begin,
}
use cerepso.ArrayText.Elements.{closed, loop-quoted, remove_escape_sequences-quoted}
use cerepso.Hstore.RoundTrip.{quoted}

-- The loop that starts in state `p` ends without an exception and yields these elements.
pub data Reads {ℓ} {A : Type ℓ} (conversion : TypeConversion A)
    : ArrayParser → List A → Type ℓ where
  stop : {p : ArrayParser} → has_next p ≡ ok false → Reads conversion p []
  more :
      {p q : ArrayParser} {a : A} {rest : List A}
      → has_next p ≡ ok true
      → get_next conversion p ≡ ok (a, q)
      → Reads conversion q rest
      → Reads conversion p (a ∷ rest)

-- Each element in quotes with a comma in front, and the closing brace.
unfoldable pub later_text : List Bytes → Bytes
later_text [] = b'}' ∷ []
later_text (e ∷ es) = b',' ∷ b'"' ∷ (quoted e ++ b'"' ∷ later_text es)

unfoldable pub array_text : List Bytes → Bytes
unfolding later_text
array_text [] = b'{' ∷ later_text []
array_text (e ∷ es) = b'{' ∷ b'"' ∷ (quoted e ++ b'"' ∷ later_text es)

abbrev at : Bytes → Bytes → ArrayParser
at done rest = record { string_repr = done ++ rest; current_position = length done }

get_elem?-append :
    (done : Bytes) (c : ℕ) (rest : Bytes) → get_elem? (done ++ c ∷ rest) (length done) ≡ some c
get_elem?-append [] c rest = refl
get_elem?-append (d ∷ done) c rest = get_elem?-append done c rest

has_next-brace :
    (done : Bytes)
    → length (done ++ b'}' ∷ []) < size_mod
    → has_next (at done (b'}' ∷ [])) ≡ ok false
unfolding has_next
has_next-brace done h = rw last refl
  where
    last : leb ((length (done ++ b'}' ∷ []) + size_mod - 1) % size_mod) (length done) ≡ true
    last = ground (arith, length-append done (b'}' ∷ []))

has_next_before :
    (done : Bytes) (c : ℕ) (rest : Bytes)
    → (c == b'}') ≡ false
    → 1 ≤ length rest
    → length (done ++ c ∷ rest) < size_mod
    → has_next (at done (c ∷ rest)) ≡ ok true
unfolding has_next
has_next_before done c rest h l b = rw (before, get_elem?-append done c rest, h) refl
  where
    before : leb ((length (done ++ c ∷ rest) + size_mod - 1) % size_mod) (length done) ≡ false
    before = ground (arith, length-append done (c ∷ rest))

regrouped :
    (front e rest : Bytes)
    → Path ArrayParser
        (record {
          string_repr = front ++ (quoted e ++ b'"' ∷ rest);
          current_position = length front + length (quoted e) + 1;
        })
        (at (front ++ (quoted e ++ b'"' ∷ [])) rest)
regrouped front e rest = λ i. record { string_repr = same i; current_position = moved i }
  where
    same : front ++ (quoted e ++ b'"' ∷ rest) ≡ (front ++ (quoted e ++ b'"' ∷ [])) ++ rest
    same =
        ap (λ s. front ++ s) (sym (append_assoc (quoted e) (b'"' ∷ []) rest))
        ∙ sym (append_assoc front (quoted e ++ b'"' ∷ []) rest)

    moved : length front + length (quoted e) + 1 ≡ length (front ++ (quoted e ++ b'"' ∷ []))
    moved =
        omega
          (arith, length-append front (quoted e ++ b'"' ∷ []), length-append (quoted e) (b'"' ∷ []))

module _ {ℓ} {A : Type ℓ} (conversion : TypeConversion A) where
  -- The element that starts behind `front`, once the loop has reached it.
  get_next-quoted :
      (front e rest : Bytes) (position : ℕ)
      → 1 ≤ length front
      → let text = front ++ (quoted e ++ b'"' ∷ rest) in
        get_next_loop text (begin position) (drop position text)
          ≡ ok (closed (length front) (length front + length (quoted e)))
        → get_next conversion (record { string_repr = text; current_position = position })
          ≡ ok (conversion.to_output_format e, at (front ++ (quoted e ++ b'"' ∷ [])) rest)
  unfolding get_next
  get_next-quoted front e rest position h loop =
      rw
        (
          loop,
          remove_escape_sequences-quoted front e (b'"' ∷ rest)
              (length front + length (quoted e) + 1) h,
        )
        (ap (λ p. ok (conversion.to_output_format e, p)) (regrouped front e rest))

  loop_first :
      (text e rest : Bytes)
      → get_next_loop text (begin 1) (b'"' ∷ (quoted e ++ b'"' ∷ rest))
        ≡ ok (closed 2 (2 + length (quoted e)))
  unfolding get_next_loop
  loop_first text e rest = loop-quoted text e 2 2 rest

  loop_comma :
      (text e rest : Bytes) (p : ℕ)
      → get_next_loop text (begin p) (b',' ∷ b'"' ∷ (quoted e ++ b'"' ∷ rest))
        ≡ ok (closed (p + 1 + 1) (p + 1 + 1 + length (quoted e)))
  unfolding get_next_loop
  loop_comma text e rest p = loop-quoted text e (p + 1 + 1) (p + 1 + 1) rest

  get_next_comma :
      (done e rest : Bytes)
      → get_next conversion (at done (b',' ∷ b'"' ∷ (quoted e ++ b'"' ∷ rest)))
        ≡ ok (
          conversion.to_output_format e,
          at ((done ++ b',' ∷ b'"' ∷ []) ++ (quoted e ++ b'"' ∷ [])) rest,
        )
  get_next_comma done e rest =
      subst
        (λ text.
          get_next conversion (record { string_repr = text; current_position = length done })
          ≡ ok (
            conversion.to_output_format e,
            at ((done ++ b',' ∷ b'"' ∷ []) ++ (quoted e ++ b'"' ∷ [])) rest,
          ))
        same
        (get_next-quoted (done ++ b',' ∷ b'"' ∷ []) e rest (length done) (omega (arith, behind)) (
          rw (same, drop-append done (b',' ∷ b'"' ∷ (quoted e ++ b'"' ∷ rest)), place)
            (loop_comma (done ++ b',' ∷ b'"' ∷ (quoted e ++ b'"' ∷ rest)) e rest (length done))))
    where
      behind : length (done ++ b',' ∷ b'"' ∷ []) ≡ length done + 2
      behind = length-append done (b',' ∷ b'"' ∷ [])

      place : length (done ++ b',' ∷ b'"' ∷ []) ≡ length done + 1 + 1
      place = omega (arith, behind)

      same :
          (done ++ b',' ∷ b'"' ∷ []) ++ (quoted e ++ b'"' ∷ rest)
          ≡ done ++ b',' ∷ b'"' ∷ (quoted e ++ b'"' ∷ rest)
      same = append_assoc done (b',' ∷ b'"' ∷ []) (quoted e ++ b'"' ∷ rest)

  Reads-later :
      (es : List Bytes) (done : Bytes)
      → length (done ++ later_text es) < size_mod
      → Reads conversion (at done (later_text es)) (map conversion.to_output_format es)
  unfolding later_text
  Reads-later [] done h = stop (has_next-brace done h)
  Reads-later (e ∷ es) done h =
      more (has_next_before done b',' _ refl (omega arith) h)
        (get_next_comma done e (later_text es))
        (Reads-later es ((done ++ b',' ∷ b'"' ∷ []) ++ (quoted e ++ b'"' ∷ []))
          (omega (arith, same_length)))
    where
      same_length :
          length (((done ++ b',' ∷ b'"' ∷ []) ++ (quoted e ++ b'"' ∷ [])) ++ later_text es)
          ≡ length (done ++ b',' ∷ b'"' ∷ (quoted e ++ b'"' ∷ later_text es))
      same_length = ap length (
          append_assoc (done ++ b',' ∷ b'"' ∷ []) (quoted e ++ b'"' ∷ []) (later_text es)
          ∙ append_assoc done (b',' ∷ b'"' ∷ []) ((quoted e ++ b'"' ∷ []) ++ later_text es)
          ∙ ap (λ s. done ++ b',' ∷ b'"' ∷ s) (append_assoc (quoted e) (b'"' ∷ []) (later_text es)))

  -- Of the text of an array whose elements stand in quotes, joined by commas, the loop reads every
  -- element, converted to the output format, in order, and then stops. Elements may hold any bytes
  -- and may be empty. The text is shorter than a `size_t` counts.
  pub array_parser-Reads :
      (es : List Bytes)
      → length (array_text es) < size_mod
      → Reads conversion (array_parser (array_text es)) (map conversion.to_output_format es)
  unfolding array_parser array_text
  array_parser-Reads [] h = stop (has_next-brace (b'{' ∷ []) h)
  array_parser-Reads (e ∷ es) h =
      more
        (has_next_before (b'{' ∷ []) b'"' (quoted e ++ b'"' ∷ later_text es) refl
          (omega (arith, length-append (quoted e) (b'"' ∷ later_text es))) h)
        (get_next-quoted (b'{' ∷ b'"' ∷ []) e (later_text es) 1 (omega arith)
          (loop_first _ e (later_text es)))
        (Reads-later es (b'{' ∷ b'"' ∷ (quoted e ++ b'"' ∷ [])) (omega (arith, same_length)))
    where
      same_length :
          length ((b'{' ∷ b'"' ∷ (quoted e ++ b'"' ∷ [])) ++ later_text es)
          ≡ length (b'{' ∷ b'"' ∷ (quoted e ++ b'"' ∷ later_text es))
      same_length =
          ap (λ s. length (b'{' ∷ b'"' ∷ s)) (append_assoc (quoted e) (b'"' ∷ []) (later_text es))
