-- ===== src/Handler/HstoreColumn.antt =====
-- The hstore column of `fill_field` behind COPY, and as the hstore parser reads it.
use cerepso.Base.{
  ℕ, ◌<◌, Bytes, true, List, [], ◌∷◌, ◌++◌, map, Option, none, some, length, ◌≡◌, refl, sym, ap,
  ◌∙◌, arith, append-nil, append_assoc, subst,
}
use cerepso.CopyText.{
  is_plain, CopyFormat, StaysInside, StaysInside-nil, StaysInside-append, StaysInside-plain,
}
use cerepso.Escape.RoundTrip.{hstore_escaped, decode-hstore_escaped, hstore_escaped-StaysInside}
use cerepso.Hstore.{h_store_parser, size_mod}
use cerepso.Hstore.RoundTrip.{quoted, pair_text}
use cerepso.Hstore.Reads.{Reads, later_text, tags_text, h_store_parser-Reads}
use cerepso.Osm.{Tag, OsmObject}
use cerepso.Handler.Row
use cerepso.Handler.Row.{Table, has_tag}
use cerepso.Handler.TagsOther.{
  raw_pair, raw_later, raw_tags, kept, is_empty, tags_loop-raw_tags, raw_tags-append,
}

abbrev pub pair_of : Tag → Bytes × Bytes
pair_of t = (t.key, t.value)

module _ (copy : CopyFormat) where
  open copy use {decode, decode_nil, decode_plain, decode_escaped}

  decode_arrow :
      (rest : Bytes)
      → decode (b'"' ∷ b'=' ∷ b'>' ∷ b'"' ∷ rest) ≡ b'"' ∷ b'=' ∷ b'>' ∷ b'"' ∷ decode rest
  decode_arrow rest = ground (
    arith,
    decode_plain b'"' (b'=' ∷ b'>' ∷ b'"' ∷ rest),
    decode_plain b'=' (b'>' ∷ b'"' ∷ rest),
    decode_plain b'>' (b'"' ∷ rest),
    decode_plain b'"' rest,
  )

  decode-raw_pair :
      (t : Tag) (rest : Bytes) → decode (raw_pair t ++ rest) ≡ pair_text (pair_of t) ++ decode rest
  unfolding raw_pair pair_text
  decode-raw_pair t rest =
      decode_plain b'"' _ (ground arith)
      ∙ ap (◌∷◌ b'"') (
          ap decode (append_assoc (hstore_escaped t.key) _ rest)
          ∙ decode-hstore_escaped copy t.key _
          ∙ ap (◌++◌ (quoted t.key)) (
              decode_arrow _
              ∙ ap (λ d. b'"' ∷ b'=' ∷ b'>' ∷ b'"' ∷ d)
                  (ap decode (append_assoc (hstore_escaped t.value) (b'"' ∷ []) rest)
                    ∙ decode-hstore_escaped copy t.value _
                    ∙ ap (◌++◌ (quoted t.value)) (decode_plain b'"' rest (ground arith))
                    ∙ sym (append_assoc (quoted t.value) (b'"' ∷ []) (decode rest))))
          ∙ sym (append_assoc (quoted t.key) _ (decode rest)))

  decode-raw_later : (ts : List Tag) → decode (raw_later ts) ≡ later_text (map pair_of ts)
  unfolding raw_later later_text
  decode-raw_later [] = decode_nil
  decode-raw_later (t ∷ ts) =
      decode_plain b',' _ (ground arith)
      ∙ ap (◌∷◌ b',') (
          decode-raw_pair t (raw_later ts)
          ∙ ap (◌++◌ (pair_text (pair_of t))) (decode-raw_later ts))

  pub decode-raw_tags : (ts : List Tag) → decode (raw_tags true ts) ≡ tags_text (map pair_of ts)
  unfolding raw_tags raw_later tags_text
  decode-raw_tags [] = decode_nil
  decode-raw_tags (t ∷ ts) =
      decode-raw_pair t (raw_later ts) ∙ ap (◌++◌ (pair_text (pair_of t))) (decode-raw_later ts)

-- A character that needs no escaping in a line.
plain : (c : ℕ) (rest : Bytes) → is_plain c ≡ true → StaysInside rest → StaysInside (c ∷ rest)
plain c rest p r = StaysInside-append (c ∷ []) rest (StaysInside-plain c p) r

raw_pair-StaysInside : (t : Tag) → StaysInside (raw_pair t)
unfolding raw_pair
raw_pair-StaysInside t = plain b'"' _ refl (
    StaysInside-append _ _ (hstore_escaped-StaysInside t.key) (
      plain b'"' _ refl (
        plain b'=' _ refl (
          plain b'>' _ refl (
            plain b'"' _ refl (
              StaysInside-append _ _ (hstore_escaped-StaysInside t.value)
                (StaysInside-plain b'"' refl)))))))

raw_later-StaysInside : (ts : List Tag) → StaysInside (raw_later ts)
unfolding raw_later
raw_later-StaysInside [] = StaysInside-nil
raw_later-StaysInside (t ∷ ts) =
    plain b',' _ refl (StaysInside-append _ _ (raw_pair-StaysInside t) (raw_later-StaysInside ts))

pub raw_tags-StaysInside : (ts : List Tag) → StaysInside (raw_tags true ts)
unfolding raw_tags
raw_tags-StaysInside [] = StaysInside-nil
raw_tags-StaysInside (t ∷ ts) =
    StaysInside-append _ _ (raw_pair-StaysInside t) (raw_later-StaysInside ts)

abbrev pub tags_of : Option (List Tag) → List Tag
tags_of none = []
tags_of (some rel_tags) = rel_tags

-- The pairs that the hstore column holds.
unfoldable pub hstore_tags : Table → OsmObject → List Bytes → Option (List Tag) → List Tag
unfolding kept
hstore_tags table object written rel =
    kept table written object.tags ++ kept table written (tags_of rel)

pub add_tags_other-raw_tags :
    (table : Table) (object : OsmObject) (written : List Bytes) (rel : Option (List Tag))
    (q : Bytes)
    → Row.add_tags_other table object written rel q
      ≡ q ++ raw_tags true (hstore_tags table object written rel)
unfolding Row.add_tags_other hstore_tags kept
add_tags_other-raw_tags table object written none q =
    ap (λ r. r.1) (tags_loop-raw_tags table written object.tags true q)
    ∙ ap (λ ts. q ++ raw_tags true ts) (sym (append-nil (kept table written object.tags)))
add_tags_other-raw_tags table object written (some rel) q =
    ap (λ r. (Row.tags_loop table written rel r.0 r.1).1)
      (tags_loop-raw_tags table written object.tags true q)
    ∙ ap (λ r. r.1)
        (tags_loop-raw_tags table written rel (is_empty (kept table written object.tags))
          (q ++ raw_tags true (kept table written object.tags)))
    ∙ append_assoc q (raw_tags true (kept table written object.tags)) _
    ∙ ap (◌++◌ q) (sym (raw_tags-append (kept table written object.tags) (kept table written rel)))

-- The hstore column reads back: behind COPY, the parser of the program yields exactly the tags
-- that no column holds and the drop filter spares, first the object's, then the relation's, in
-- their order and byte for byte. The text has less than 2^64 bytes.
pub add_tags_other-Reads :
    (copy : CopyFormat) (table : Table) (object : OsmObject) (written : List Bytes)
    (rel : Option (List Tag))
    → length (tags_text (map pair_of (hstore_tags table object written rel))) < size_mod
    → Reads
        (h_store_parser (copy.decode (Row.add_tags_other table object written rel [])))
        (map pair_of (hstore_tags table object written rel))
add_tags_other-Reads copy table object written rel h =
    subst (λ d. Reads (h_store_parser d) (map pair_of (hstore_tags table object written rel)))
      (sym (
        ap copy.decode (add_tags_other-raw_tags table object written rel [])
        ∙ decode-raw_tags copy (hstore_tags table object written rel)))
      (h_store_parser-Reads _ h)

-- The hstore column never ends early, whatever the keys and the values of the tags.
pub add_tags_other-StaysInside :
    (table : Table) (object : OsmObject) (written : List Bytes) (rel : Option (List Tag))
    → StaysInside (Row.add_tags_other table object written rel [])
add_tags_other-StaysInside table object written rel =
    subst StaysInside (sym (add_tags_other-raw_tags table object written rel []))
      (raw_tags-StaysInside (hstore_tags table object written rel))
