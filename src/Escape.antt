-- ===== src/Escape.antt =====
-- src/postgres_table.cpp: the three escaping routines, and the separator of a COPY line.
pub mod RoundTrip
use cerepso.Base.{ℕ, Bytes, [], ◌∷◌, ◌++◌, Option, none, some, if◌then◌else◌, ◌==◌}

-- What one turn of the loop of `escape4hstore` appends.
unfoldable pub hstore_char : ℕ → Bytes
hstore_char c =
    if c == b'\\'
    then b'\\' ∷ b'\\' ∷ b'\\' ∷ b'\\' ∷ []
    else if c == b'"'
    then b'\\' ∷ b'\\' ∷ b'"' ∷ []
    else if c == b'\t'
    then b'\\' ∷ b'\t' ∷ []
    else if c == b'\r'
    then b'\\' ∷ b'\r' ∷ []
    else if c == b'\n'
    then b'\\' ∷ b'\n' ∷ []
    else c ∷ []

-- The loop of `escape4hstore`, on the characters that are left.
unfoldable pub hstore_loop : Bytes → Bytes → Bytes
unfolding hstore_char
hstore_loop [] destination = destination
hstore_loop (c ∷ source) destination = hstore_loop source (destination ++ hstore_char c)

unfoldable pub escape4hstore : Bytes → Bytes → Bytes
unfolding hstore_loop
escape4hstore source destination = hstore_loop source (destination ++ b'"' ∷ []) ++ b'"' ∷ []

-- What one turn of the loop of `escape4array` appends.
unfoldable pub array_char : ℕ → Bytes
array_char c =
    if c == b'\\'
    then b'\\' ∷ b'\\' ∷ b'\\' ∷ b'\\' ∷ []
    else if c == b'"'
    then b'\\' ∷ b'\\' ∷ b'"' ∷ []
    else if c == b'\n'
    then b'\\' ∷ b'\\' ∷ b'n' ∷ []
    else if c == b'\r'
    then b'\\' ∷ b'\\' ∷ b'r' ∷ []
    else if c == b'\t'
    then b'\\' ∷ b'\\' ∷ b't' ∷ []
    else c ∷ []

unfoldable pub escape4array : Bytes → Bytes → Bytes
unfolding array_char
escape4array [] destination = destination
escape4array (c ∷ source) destination = escape4array source (destination ++ array_char c)

-- What one turn of the loop of `escape` appends.
unfoldable pub escape_char : ℕ → Bytes
escape_char c =
    if c == b'\\'
    then b'\\' ∷ b'\\' ∷ []
    else if c == 8
    then b'\\' ∷ 8 ∷ []
    else if c == 12
    then b'\\' ∷ 12 ∷ []
    else if c == b'\n'
    then b'\\' ∷ b'\n' ∷ []
    else if c == b'\r'
    then b'\\' ∷ b'\r' ∷ []
    else if c == b'\t'
    then b'\\' ∷ b'\t' ∷ []
    else if c == 11
    then b'\\' ∷ 11 ∷ []
    else c ∷ []

unfoldable pub escape_loop : Bytes → Bytes → Bytes
unfolding escape_char
escape_loop [] destination = destination
escape_loop (c ∷ source) destination = escape_loop source (destination ++ escape_char c)

-- `none` is the null pointer.
unfoldable pub escape : Option Bytes → Bytes → Bytes
unfolding escape_loop
escape none destination = destination ++ b'\\' ∷ b'N' ∷ []
escape (some source) destination = escape_loop source destination

-- `add_separator_to_stringstream`
unfoldable pub add_separator_to_stringstream : Bytes → Bytes
add_separator_to_stringstream ss = ss ++ b'\t' ∷ []
