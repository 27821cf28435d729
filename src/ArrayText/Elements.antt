-- ===== src/ArrayText/Elements.antt =====
-- One element in quotes.
use cerepso.Base.{
  ℕ, suc, ◌+◌, ◌-◌, ◌≤◌, Bytes, true, false, [], ◌∷◌, ◌++◌, length, length-append, drop-append, ◌≡◌,
  refl, sym, ap, ◌∙◌, arith, append_assoc, ◌==◌, ltb, ok, ◌>>=◌, Bool-cases, inl, inr, subst,
  ==_iff,
}
use cerepso.ArrayText.{
  element, end_reached, Scan, get_next_loop, copy_loop, remove_escape_sequences,
}
use cerepso.Hstore.RoundTrip.{quoted_char, quoted}

abbrev pub inside : ℕ → ℕ → Scan
inside start position = record {
  current_position = position;
  parse_progress = element;
  backslashes_before = false;
  quoted_element = true;
  start = start;
  end_position = 0;
}

-- Behind the closing quotation mark, which stands at `position`.
abbrev pub closed : ℕ → ℕ → Scan
closed start position = record {
  current_position = position + 1;
  parse_progress = end_reached;
  backslashes_before = false;
  quoted_element = true;
  start = start;
  end_position = position - 1;
}

loop-quoted_char :
    (text : Bytes) (start p c : ℕ) (rest : Bytes)
    → get_next_loop text (inside start p) (quoted_char c ++ rest)
      ≡ get_next_loop text (inside start (p + length (quoted_char c))) rest
unfolding get_next_loop quoted_char
loop-quoted_char text start p c rest = ground arith

loop_end :
    (text : Bytes) (start p : ℕ) (rest : Bytes)
    → get_next_loop text (closed start p) rest ≡ ok (closed start p)
unfolding get_next_loop
loop_end text start p [] = refl
loop_end text start p (c ∷ rest) = refl

loop_close :
    (text : Bytes) (start p : ℕ) (rest : Bytes)
    → get_next_loop text (inside start p) (b'"' ∷ rest) ≡ get_next_loop text (closed start p) rest
unfolding get_next_loop
loop_close text start p rest = refl

pub loop-quoted :
    (text e : Bytes) (start p : ℕ) (rest : Bytes)
    → get_next_loop text (inside start p) (quoted e ++ b'"' ∷ rest)
      ≡ ok (closed start (p + length (quoted e)))
unfolding quoted
loop-quoted text [] start p rest =
    ground (arith, loop_close text start p rest, loop_end text start p rest)
loop-quoted text (c ∷ e) start p rest = ground (
  arith,
  append_assoc (quoted_char c) (quoted e) (b'"' ∷ rest),
  loop-quoted_char text start p c (quoted e ++ b'"' ∷ rest),
  loop-quoted text e start (p + length (quoted_char c)) rest,
  length-append (quoted_char c) (quoted e),
)

abbrev Copies : Bytes → ℕ → ℕ → Bytes → Bytes → ℕ → Type 0
Copies text position n source result c =
    copy_loop text position (length (quoted_char c) + n) false (quoted_char c ++ source)
    ≡ ok (c ∷ result)

copy-quoted_char :
    (text : Bytes) (position n c : ℕ) (source result : Bytes)
    → copy_loop text position n false source ≡ ok result
    → Copies text position n source result c
unfolding copy_loop quoted_char
copy-quoted_char text position n c source result h = elim (Bool-cases (c == b'\\')) [
  | inl e ↦
      subst (Copies text position n source result) (sym ((==_iff c b'\\').0 e))
        (rw two (next b'\\'))
  | inr e ↦ elim (Bool-cases (c == b'"')) [
    | inl q ↦
        subst (Copies text position n source result) (sym ((==_iff c b'"').0 q))
          (rw two (next b'"'))
    | inr q ↦ rw (e, q) (rw one (rw (copy_loop, e) (next c)))
  ]
]
  where
    two : 2 + n ≡ suc (suc n)
    two = omega arith

    one : 1 + n ≡ suc n
    one = omega arith

    next : (d : ℕ) → (copy_loop text position n false source >>= λ r. ok (d ∷ r)) ≡ ok (d ∷ result)
    next d = ap (λ r. r >>= λ t. ok (d ∷ t)) h

copy-quoted :
    (text : Bytes) (position : ℕ) (e source : Bytes)
    → copy_loop text position (length (quoted e)) false (quoted e ++ source) ≡ ok e
unfolding quoted copy_loop
copy-quoted text position [] source = refl
copy-quoted text position (c ∷ e) source = ground (
  arith,
  append_assoc (quoted_char c) (quoted e) source,
  length-append (quoted_char c) (quoted e),
  copy-quoted_char text position (length (quoted e)) c (quoted e ++ source) e
      (copy-quoted text position e source),
)

remove_text :
    (front s : Bytes) (position n : ℕ)
    → 1 ≤ n
    → remove_escape_sequences (front ++ s) position (length front) (length front + n - 1)
      ≡ copy_loop (front ++ s) position n false s
unfolding remove_escape_sequences
remove_text front s position n h = rw (not_less, count, drop-append front s) refl
  where
    not_less : ltb (length front + n - 1) (length front) ≡ false
    not_less = ground arith

    count : length front + n - 1 - length front + 1 ≡ n
    count = omega arith

quoted_char_ge : (c : ℕ) → 1 ≤ length (quoted_char c)
unfolding quoted_char
quoted_char_ge c = ground arith

quoted_ge : (c : ℕ) (e : Bytes) → 1 ≤ length (quoted (c ∷ e))
unfolding quoted
quoted_ge c e = omega (arith, quoted_char_ge c, length-append (quoted_char c) (quoted e))

-- Behind some characters stands an element in quotes. For an empty one the end lies before the start.
pub remove_escape_sequences-quoted :
    (front e rest : Bytes) (position : ℕ)
    → 1 ≤ length front
    → remove_escape_sequences
        (front ++ (quoted e ++ rest))
        position
        (length front)
        (length front + length (quoted e) - 1)
      ≡ ok e
unfolding remove_escape_sequences quoted
remove_escape_sequences-quoted front [] rest position h = rw less refl
  where
    less : ltb (length front + 0 - 1) (length front) ≡ true
    less = ground arith
remove_escape_sequences-quoted front (c ∷ e) rest position h =
    remove_text front (quoted (c ∷ e) ++ rest) position (length (quoted (c ∷ e))) (quoted_ge c e)
    ∙ copy-quoted (front ++ (quoted (c ∷ e) ++ rest)) position (c ∷ e) rest
