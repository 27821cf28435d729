-- ===== src/Escape/RoundTrip.antt =====
-- What the escaping routines write is read back by COPY.
use cerepso.Base.{
  ℕ, Bytes, [], ◌∷◌, ◌++◌, Option, none, some, ◌≡◌, refl, sym, ap, ◌∙◌, arith, append-nil,
  append_assoc,
}
use cerepso.Hstore.RoundTrip.{quoted, quoted_char}
use cerepso.CopyText.{
  CopyFormat, StaysInside, StaysInside-nil, StaysInside-append, StaysInside-escaped,
  StaysInside-plain,
}
use cerepso.Escape.{escape_char, escape_loop, escape, hstore_char, hstore_loop, escape4hstore}

-- The accumulating loops, read as plain recursions.
pub escaped : Bytes → Bytes
escaped [] = []
escaped (c ∷ s) = escape_char c ++ escaped s

pub escape_loop-escaped : (s d : Bytes) → escape_loop s d ≡ d ++ escaped s
unfolding escape_loop escaped
escape_loop-escaped [] d = sym (append-nil d)
escape_loop-escaped (c ∷ s) d = escape_loop-escaped s (d ++ escape_char c) ∙ rw append_assoc

pub hstore_escaped : Bytes → Bytes
hstore_escaped [] = []
hstore_escaped (c ∷ s) = hstore_char c ++ hstore_escaped s

pub hstore_loop-escaped : (s d : Bytes) → hstore_loop s d ≡ d ++ hstore_escaped s
unfolding hstore_loop hstore_escaped
hstore_loop-escaped [] d = sym (append-nil d)
hstore_loop-escaped (c ∷ s) d = hstore_loop-escaped s (d ++ hstore_char c) ∙ rw append_assoc

escape_char-StaysInside : (c : ℕ) → StaysInside (escape_char c)
unfolding escape_char
escape_char-StaysInside c = ground (arith, StaysInside-escaped c, StaysInside-plain c)

pub escaped-StaysInside : (s : Bytes) → StaysInside (escaped s)
unfolding escaped
escaped-StaysInside [] = StaysInside-nil
escaped-StaysInside (c ∷ s) =
    StaysInside-append _ _ (escape_char-StaysInside c) (escaped-StaysInside s)

pub escape-append : (s : Option Bytes) (d : Bytes) → escape s d ≡ d ++ escape s []
unfolding escape
escape-append none d = refl
escape-append (some s) d = escape_loop-escaped s d ∙ ap (◌++◌ d) (sym (escape_loop-escaped s []))

-- A value that `escape` wrote never ends its column early, null pointers included.
pub escape-StaysInside : (s : Option Bytes) → StaysInside (escape s [])
unfolding escape
escape-StaysInside none = StaysInside-escaped b'N'
escape-StaysInside (some s) = rw (escape_loop-escaped s []) (escaped-StaysInside s)

module _ (copy : CopyFormat) where
  open copy use {decode, decode_nil, decode_plain, decode_escaped}

  decode-escape_char : (c : ℕ) (rest : Bytes) → decode (escape_char c ++ rest) ≡ c ∷ decode rest
  unfolding escape_char
  decode-escape_char c rest = ground (arith, decode_plain c rest, decode_escaped c rest)

  decode-escaped : (s rest : Bytes) → decode (escaped s ++ rest) ≡ s ++ decode rest
  unfolding escaped
  decode-escaped [] rest = refl
  decode-escaped (c ∷ s) rest =
      ap decode (append_assoc (escape_char c) (escaped s) rest)
      ∙ decode-escape_char c (escaped s ++ rest)
      ∙ ap (◌∷◌ c) (decode-escaped s rest)

  -- COPY reads back exactly the bytes that `escape` was given.
  pub decode-escape : (s : Bytes) → decode (escape (some s) []) ≡ s
  unfolding escape
  decode-escape s =
      ap decode (escape_loop-escaped s [] ∙ sym (append-nil (escaped s)))
      ∙ decode-escaped s []
      ∙ rw decode_nil (append-nil s)

pub escape4hstore-escaped :
    (s d : Bytes) → escape4hstore s d ≡ d ++ b'"' ∷ (hstore_escaped s ++ b'"' ∷ [])
unfolding escape4hstore
escape4hstore-escaped s d = simp (hstore_loop-escaped, append_assoc)

hstore_char-StaysInside : (c : ℕ) → StaysInside (hstore_char c)
unfolding hstore_char
hstore_char-StaysInside c = ground (
  arith,
  StaysInside-escaped c,
  StaysInside-plain c,
  StaysInside-append (b'\\' ∷ b'\\' ∷ []) (b'\\' ∷ b'\\' ∷ []),
  StaysInside-escaped b'\\',
  StaysInside-append (b'\\' ∷ b'\\' ∷ []) (b'"' ∷ []),
)

pub hstore_escaped-StaysInside : (s : Bytes) → StaysInside (hstore_escaped s)
unfolding hstore_escaped
hstore_escaped-StaysInside [] = StaysInside-nil
hstore_escaped-StaysInside (c ∷ s) =
    StaysInside-append _ _ (hstore_char-StaysInside c) (hstore_escaped-StaysInside s)

module _ (copy : CopyFormat) where
  open copy use {decode, decode_nil, decode_plain, decode_escaped}

  decode-hstore_char :
      (c : ℕ) (rest : Bytes) → decode (hstore_char c ++ rest) ≡ quoted_char c ++ decode rest
  unfolding hstore_char quoted_char
  decode-hstore_char c rest = ground (
    arith,
    decode_plain c rest,
    decode_escaped c rest,
    decode_escaped b'\\' rest,
    decode_escaped b'\\' (b'\\' ∷ b'\\' ∷ rest),
    decode_escaped b'\\' (b'"' ∷ rest),
    decode_plain b'"' rest,
  )

  -- After COPY an hstore text has its quotation marks and backslashes escaped once.
  pub decode-hstore_escaped :
      (s rest : Bytes) → decode (hstore_escaped s ++ rest) ≡ quoted s ++ decode rest
  unfolding hstore_escaped quoted
  decode-hstore_escaped [] rest = refl
  decode-hstore_escaped (c ∷ s) rest =
      ap decode (append_assoc (hstore_char c) (hstore_escaped s) rest)
      ∙ decode-hstore_char c (hstore_escaped s ++ rest)
      ∙ ap (◌++◌ (quoted_char c)) (decode-hstore_escaped s rest)
      ∙ sym (append_assoc (quoted_char c) (quoted s) (decode rest))
