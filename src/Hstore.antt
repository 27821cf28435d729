-- ===== src/Hstore.antt =====
-- contrib/pg-array-hstore-parser/include/hstore_parser.hpp: `HStoreParser`.
-- The loop of `get_next` reads `m_string_repr` from `m_current_position` on; here it recurs on
-- the characters that are left there, and counts the position along.
pub mod Reads
pub mod RoundTrip
use cerepso.Base.{
  ℕ, ◌+◌, ◌-◌, ◌%◌, ◌^◌, Bytes, Bool, true, false, not, ◌&&◌, ◌||◌, [], ◌∷◌, ◌++◌, length, drop,
  if◌then◌else◌, ◌==◌, ltb, leb, Result, ok, err, ◌>>=◌,
}

-- `enum class HStoreParts`. The constructor `end_reached` is the source's END.
pub data HStoreParts : Type 0 where
  none key separator value end_reached : HStoreParts

-- The syntax errors of `invalid_syntax`, in the order of the code.
pub data SyntaxError : Type 0 where
  invalid_escape_sequence equals_at_end_of_value equals_not_allowed : SyntaxError
  greater_inside greater_not_allowed double_quote : SyntaxError

-- `std::runtime_error` of `invalid_syntax`, with the position that its message shows, or an
-- assertion that fails.
pub data Fault : Type 0 where
  invalid_syntax : SyntaxError → ℕ → Fault
  assertion_failed : Fault

-- The members of the parser, with the two local variables of `get_next`.
pub record Scan : Type 0 where
  pub current_position : ℕ
  pub parse_progress : HStoreParts
  pub key_buffer : Bytes
  pub value_buffer : Bytes
  pub accumulated_backslashes : ℕ
  pub quoted_string : Bool

pub add_to : HStoreParts → Scan → ℕ → Result Fault Scan
add_to key s c = ok (record s { key_buffer = s.key_buffer ++ c ∷ [] })
add_to value s c = ok (record s { value_buffer = s.value_buffer ++ c ∷ [] })
add_to _ s c = err assertion_failed

unfoldable pub add_to_key_or_value : Scan → ℕ → Result Fault Scan
unfolding add_to
add_to_key_or_value s c = add_to s.parse_progress s c

-- `operator++`, which asserts that the counter does not pass END.
pub next_part : HStoreParts → Scan → Result Fault Scan
next_part none s = ok (record s { parse_progress = key })
next_part key s = ok (record s { parse_progress = separator })
next_part separator s = ok (record s { parse_progress = value })
next_part value s = ok (record s { parse_progress = end_reached })
next_part end_reached s = err assertion_failed

unfoldable pub increase_parse_progress : Scan → Result Fault Scan
unfolding next_part
increase_parse_progress s = next_part s.parse_progress s

abbrev fail : SyntaxError → Scan → Result Fault Scan
fail e s = err (invalid_syntax e s.current_position)

-- Behind one backslash.
pub on_escaped : Scan → ℕ → Result Fault Scan
unfolding add_to_key_or_value
on_escaped s c =
    if c == b'"' || c == b'\\'
    then (add_to_key_or_value s c >>= λ s'. ok (record s' { accumulated_backslashes = 0 }))
    else fail invalid_escape_sequence s

pub on_equals : HStoreParts → Bool → Scan → Result Fault Scan
unfolding add_to_key_or_value increase_parse_progress
on_equals key false s = increase_parse_progress s
on_equals value false s = fail equals_at_end_of_value s
on_equals key true s = add_to_key_or_value s b'='
on_equals value true s = add_to_key_or_value s b'='
on_equals none quoted s = fail equals_not_allowed s
on_equals _ quoted s = ok s

pub on_greater : HStoreParts → Bool → Scan → Result Fault Scan
unfolding add_to_key_or_value
on_greater key false s = fail greater_inside s
on_greater value false s = fail greater_inside s
on_greater key true s = add_to_key_or_value s b'>'
on_greater value true s = add_to_key_or_value s b'>'
on_greater separator quoted s = ok s
on_greater _ quoted s = fail greater_not_allowed s

abbrev set_quoted : Bool → Scan → Result Fault Scan
set_quoted b s = ok (record s { quoted_string = b })

pub on_quote : HStoreParts → Scan → Result Fault Scan
unfolding increase_parse_progress
on_quote none s = increase_parse_progress s >>= set_quoted true
on_quote separator s = increase_parse_progress s >>= set_quoted true
on_quote key s = increase_parse_progress s >>= set_quoted false
on_quote value s = increase_parse_progress s >>= set_quoted false
on_quote end_reached s = fail double_quote s

-- A space or a comma; the flag is `quoted_string`.
pub on_blank : HStoreParts → Bool → Scan → ℕ → Result Fault Scan
unfolding add_to_key_or_value increase_parse_progress
on_blank key true s c = add_to_key_or_value s c
on_blank value true s c = add_to_key_or_value s c
on_blank key false s c = increase_parse_progress s
on_blank value false s c = increase_parse_progress s
on_blank _ quoted s c = ok s

pub on_other : HStoreParts → Scan → ℕ → Result Fault Scan
unfolding add_to_key_or_value increase_parse_progress
on_other key s c = add_to_key_or_value s c
on_other value s c = add_to_key_or_value s c
on_other none s c = increase_parse_progress s >>= λ s'. add_to_key_or_value s' c
on_other separator s c = increase_parse_progress s >>= λ s'. add_to_key_or_value s' c
on_other end_reached s c = ok s

-- The body of the loop of `get_next`, up to the increment of the position.
unfoldable pub get_next_step : Scan → ℕ → Result Fault Scan
unfolding on_escaped on_equals on_greater on_quote on_blank on_other
get_next_step s c =
    if s.accumulated_backslashes == 1
    then on_escaped s c
    else if c == b'\\'
    then ok (record s { accumulated_backslashes = s.accumulated_backslashes + 1 })
    else if c == b'='
    then on_equals s.parse_progress s.quoted_string s
    else if c == b'>'
    then on_greater s.parse_progress s.quoted_string s
    else if c == b'"'
    then on_quote s.parse_progress s
    else if c == b' ' || c == b','
    then on_blank s.parse_progress s.quoted_string s c
    else on_other s.parse_progress s c

abbrev pub is_end : HStoreParts → Bool
is_end end_reached = true
is_end _ = false

unfoldable pub get_next_loop : Scan → Bytes → Result Fault Scan
unfolding get_next_step
get_next_loop s [] = ok s
get_next_loop s (c ∷ rest) = elim (is_end s.parse_progress) [
  | true ↦ ok s
  | false ↦ get_next_step s c >>= λ s'.
      get_next_loop (record s' { current_position = s'.current_position + 1 }) rest
]

-- What stays between two calls. The buffers and the progress are reset by each call.
pub record HStoreParser : Type 0 where
  pub string_repr : Bytes
  pub current_position : ℕ

unfoldable pub h_store_parser : Bytes → HStoreParser
h_store_parser s = record { string_repr = s; current_position = 0 }

abbrev pub size_mod : ℕ
size_mod = 2 ^ 64

abbrev pub min_kv_pair_length : ℕ
min_kv_pair_length = 7

-- The difference is one of `size_t`s, and wraps for strings shorter than a pair.
unfoldable pub has_next : HStoreParser → Bool
has_next p =
    let size = length p.string_repr in
    not (
      ltb ((size + size_mod - min_kv_pair_length) % size_mod) p.current_position
      || leb size p.current_position)

abbrev pub start : ℕ → Scan
start position = record {
  current_position = position;
  parse_progress = none;
  key_buffer = [];
  value_buffer = [];
  accumulated_backslashes = 0;
  quoted_string = false;
}

unfoldable pub get_next : HStoreParser → Result Fault ((Bytes × Bytes) × HStoreParser)
unfolding get_next_loop
get_next p =
    get_next_loop (start p.current_position) (drop p.current_position p.string_repr) >>= λ s.
    ok ((s.key_buffer, s.value_buffer), record p { current_position = s.current_position })
