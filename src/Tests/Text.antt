-- ===== src/Tests/Text.antt =====
-- Texts, numbers and hstores.
use cerepso.Base.{Bytes, List, [], ◌∷◌, some, ◌≡◌, refl, arith, codes}
use cerepso.CopyText.{CopyFormat}
use cerepso.Escape.{escape, escape4hstore, escape4array, array_char}
use cerepso.Escape.RoundTrip.{decode-escape}
use cerepso.Hstore.{h_store_parser}
use cerepso.Hstore.RoundTrip.{pair_text, quoted, quoted_char}
use cerepso.Hstore.Reads.{Reads, tags_text, later_text, h_store_parser-Reads}
use cerepso.Tests.Instances.{copy}

hstore_backslash : escape4hstore (codes "\\") [] ≡ codes "\"\\\\\\\\\""
unfolding escape4hstore
hstore_backslash = refl

array_newline : escape4array (codes "a\n") [] ≡ codes "a\\\\n"
unfolding escape4array array_char
array_newline = refl

abbrev name : Bytes
name = codes "a\tb\\"

decode-escape_example : CopyFormat.decode copy (escape (some name) []) ≡ name
decode-escape_example = decode-escape copy name

abbrev pub pairs : List (Bytes × Bytes)
pairs = (codes "highway", codes "bus_stop") ∷ (codes "name", codes "a\"b=>c") ∷ []

h_store_parser-Reads_example : Reads (h_store_parser (tags_text pairs)) pairs
unfolding tags_text pair_text quoted quoted_char later_text
h_store_parser-Reads_example = h_store_parser-Reads pairs (omega arith)
