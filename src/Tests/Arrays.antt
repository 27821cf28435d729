-- ===== src/Tests/Arrays.antt =====
-- An array with quotation marks, a comma and an empty element.
use cerepso.Base.{Bytes, List, [], ◌∷◌, arith, codes}
use cerepso.ArrayText.{array_parser, string_conversion}
use cerepso.ArrayText.Reads.{Reads, array_text, later_text, array_parser-Reads}
use cerepso.Hstore.RoundTrip.{quoted, quoted_char}

abbrev roles : List Bytes
roles = codes "out\"er" ∷ [] ∷ codes "a,b\\" ∷ []

array_parser-Reads_example : Reads string_conversion (array_parser (array_text roles)) roles
unfolding array_text later_text quoted quoted_char
array_parser-Reads_example = array_parser-Reads string_conversion roles (omega arith)
