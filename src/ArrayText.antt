-- ===== src/ArrayText.antt =====
-- contrib/pg-array-hstore-parser/include/array_parser.hpp: `ArrayParser`, and the conversions of
-- type_conversion.hpp. The loop of `get_next` recurs on the characters from `m_current_position` on.
pub mod Elements
pub mod Reads
use cerepso.Base.{
  ℕ, zero, suc, ◌+◌, ◌-◌, ◌%◌, ◌^◌, Bytes, Bool, true, false, not, ◌&&◌, ◌||◌, List, [], ◌∷◌, ◌++◌,
  length, drop, get_elem?, Option, none, some, if◌then◌else◌, ◌==◌, ltb, leb, equal, codes, Result,
  ok, err, ◌>>=◌,
}
use cerepso.Base.Int.{ℤ, pos}
use cerepso.Database.Queries.{strtoll}

-- `enum class ArrayParts`. The constructor `end_reached` is the source's END.
pub data ArrayParts : Type 0 where
  none_read element end_reached : ArrayParts

-- `std::runtime_error` of `invalid_syntax` with its position, or `std::out_of_range` of `at`.
pub data Fault : Type 0 where
  syntax_error : ℕ → Fault
  out_of_range : Fault

-- `TypeConversion`
pub record TypeConversion {ℓ} (A : Type ℓ) : Type ℓ where
  pub to_output_format : Bytes → A
  pub return_null_value : A

abbrev pub string_conversion : TypeConversion Bytes
string_conversion = record { to_output_format = λ s. s; return_null_value = [] }

-- The first character, or the null character.
abbrev pub first_char : Bytes → ℕ
first_char [] = 0
first_char (c ∷ s) = c

abbrev pub char_conversion : TypeConversion ℕ
char_conversion = record { to_output_format = first_char; return_null_value = 0 }

unfoldable pub int64_conversion : TypeConversion ℤ
unfolding strtoll
int64_conversion = record { to_output_format = strtoll; return_null_value = pos 0 }

-- The members of the parser, with the local variables of `get_next`.
pub record Scan : Type 0 where
  pub current_position : ℕ
  pub parse_progress : ArrayParts
  pub backslashes_before : Bool
  pub quoted_element : Bool
  pub start : ℕ
  pub end_position : ℕ

-- The message quotes the character at the position, which may lie behind the text.
abbrev pub invalid_syntax {ℓ} : {A : Type ℓ} → Bytes → ℕ → Result Fault A
invalid_syntax text position =
    if ltb position (length text) then err (syntax_error position) else err out_of_range

unfoldable pub on_none : Scan → ℕ → Result Fault Scan
on_none s c =
    if c == b'"'
    then ok (record s {
      quoted_element = true;
      start = s.current_position + 1;
      parse_progress = element;
    })
    else if not (c == b',') && not (c == b' ')
    then ok (record s { parse_progress = element; start = s.current_position })
    else ok s

unfoldable pub on_quoted : Bytes → Scan → ℕ → Result Fault Scan
on_quoted text s c =
    if s.backslashes_before
    then (if c == b'"' || c == b'\\'
        then ok (record s { backslashes_before = false })
        else invalid_syntax text s.current_position)
    else if c == b'\\'
    then ok (record s { backslashes_before = true })
    else if c == b'"'
    then ok (record s { end_position = s.current_position - 1; parse_progress = end_reached })
    else ok s

unfoldable pub on_plain : Scan → ℕ → Result Fault Scan
on_plain s c =
    if c == b' '
    then ok (record s { end_position = s.current_position - 1 })
    else if c == b',' || c == b'}'
    then ok (record s {
      end_position = if s.end_position == 0 then s.current_position - 1 else s.end_position;
      parse_progress = end_reached;
    })
    else ok s

-- The body of the loop of `get_next`, up to the increment of the position.
unfoldable pub get_next_step : Bytes → ArrayParts → Bool → Scan → ℕ → Result Fault Scan
unfolding on_none on_quoted on_plain
get_next_step text none_read quoted s c = on_none s c
get_next_step text element true s c = on_quoted text s c
get_next_step text element false s c = on_plain s c
get_next_step text end_reached quoted s c = ok s

abbrev pub is_end : ArrayParts → Bool
is_end end_reached = true
is_end _ = false

unfoldable pub get_next_loop : Bytes → Scan → Bytes → Result Fault Scan
unfolding get_next_step
get_next_loop text s [] = ok s
get_next_loop text s (c ∷ rest) = elim (is_end s.parse_progress) [
  | true ↦ ok s
  | false ↦ get_next_step text s.parse_progress s.quoted_element s c >>= λ s'.
      get_next_loop text (record s' { current_position = s'.current_position + 1 }) rest
]

-- The loop over the characters from `start` to `end`; the number says how many are left. The result
-- never outgrows its room, since it takes at most one character for each that is read. The position
-- is that of the parser, for the message.
unfoldable pub copy_loop : Bytes → ℕ → ℕ → Bool → Bytes → Result Fault Bytes
copy_loop text position zero backslashes_before source = ok []
copy_loop text position (suc n) backslashes_before [] = err out_of_range
copy_loop text position (suc n) true (c ∷ source) =
    let rest = copy_loop text position n false source in
    if c == b'"' || c == b'\\'
    then (rest >>= λ result. ok (c ∷ result))
    else invalid_syntax text position
copy_loop text position (suc n) false (c ∷ source) =
    let escaped = copy_loop text position n true source in
    let rest = copy_loop text position n false source in
    if c == b'\\' then escaped else (rest >>= λ result. ok (c ∷ result))

unfoldable pub remove_escape_sequences : Bytes → ℕ → ℕ → ℕ → Result Fault Bytes
unfolding copy_loop
remove_escape_sequences source position start end_position =
    if ltb end_position start
    then ok []
    else copy_loop source position (end_position - start + 1) false (drop start source)

-- What stays between two calls.
pub record ArrayParser : Type 0 where
  pub string_repr : Bytes
  pub current_position : ℕ

unfoldable pub array_parser : Bytes → ArrayParser
array_parser s = record { string_repr = s; current_position = 1 }

abbrev pub size_mod : ℕ
size_mod = 2 ^ 64

abbrev pub not_closed : Option ℕ → Result Fault Bool
not_closed none = err out_of_range
not_closed (some c) = ok (not (c == b'}'))

-- The difference is one of `size_t`s, and wraps for the empty string.
unfoldable pub has_next : ArrayParser → Result Fault Bool
has_next p =
    if leb ((length p.string_repr + size_mod - 1) % size_mod) p.current_position
    then ok false
    else not_closed (get_elem? p.string_repr p.current_position)

abbrev pub begin : ℕ → Scan
begin position = record {
  current_position = position;
  parse_progress = none_read;
  backslashes_before = false;
  quoted_element = false;
  start = 0;
  end_position = 0;
}

abbrev pub convert {ℓ} : {A : Type ℓ} → TypeConversion A → Bool → Bytes → A
convert conversion quoted_element s =
    if not quoted_element && equal s (codes "NULL")
    then conversion.return_null_value
    else conversion.to_output_format s

unfoldable pub get_next {ℓ} :
    {A : Type ℓ} → TypeConversion A → ArrayParser → Result Fault (A × ArrayParser)
unfolding get_next_loop remove_escape_sequences
get_next conversion p =
    get_next_loop p.string_repr (begin p.current_position) (drop p.current_position p.string_repr)
    >>= λ s.
        remove_escape_sequences p.string_repr s.current_position s.start s.end_position >>= λ t.
        ok (
          convert conversion s.quoted_element t,
          record p { current_position = s.current_position },
        )
