-- ===== src/Handler/TagsOther.antt =====
-- The hstore column: what `fill_field` writes for it, and what a reader of the column sees.
use cerepso.Base.{
  Bytes, Bool, true, false, ◌&&◌, ◌||◌, List, [], ◌∷◌, ◌++◌, if◌then◌else◌, Bool-cases, inl, inr,
  ◌≡◌, refl, ◌∙◌, arith, append-nil, append_assoc, codes,
}
use cerepso.Escape.{escape4hstore}
use cerepso.Escape.RoundTrip.{hstore_escaped, escape4hstore-escaped}
use cerepso.Osm.{Tag}
use cerepso.Handler.Row
use cerepso.Handler.Row.{Table, has_tag}

-- The text of one tag, as `escape4hstore` writes it.
unfoldable pub raw_pair : Tag → Bytes
raw_pair t =
    b'"'
    ∷ (hstore_escaped t.key ++ (b'"' ∷ b'=' ∷ b'>' ∷ b'"' ∷ (hstore_escaped t.value ++ b'"' ∷ [])))

unfoldable pub raw_later : List Tag → Bytes
raw_later [] = []
raw_later (t ∷ ts) = b',' ∷ (raw_pair t ++ raw_later ts)

-- The text of the tags; the flag says that none stands in front.
unfoldable pub raw_tags : Bool → List Tag → Bytes
unfolding raw_later
raw_tags false ts = raw_later ts
raw_tags true [] = []
raw_tags true (t ∷ ts) = raw_pair t ++ raw_later ts

abbrev pub is_empty : List Tag → Bool
is_empty [] = true
is_empty (t ∷ ts) = false

raw_later-append : (a b : List Tag) → raw_later (a ++ b) ≡ raw_later a ++ raw_later b
unfolding raw_later
raw_later-append [] b = refl
raw_later-append (t ∷ a) b = rw (raw_later-append a b) (simp append_assoc)

pub raw_tags-append :
    (a b : List Tag) → raw_tags true (a ++ b) ≡ raw_tags true a ++ raw_tags (is_empty a) b
unfolding raw_tags
raw_tags-append [] b = refl
raw_tags-append (t ∷ a) b = rw (raw_later-append a b) (simp append_assoc)

module _ (table : Table) where
  -- The tags that no column has written and the drop filter spares.
  unfoldable pub kept : List Bytes → List Tag → List Tag
  kept written [] = []
  kept written (t ∷ tags) =
      if has_tag written t.key || table.drops t then kept written tags else t ∷ kept written tags

  tag_text :
      (t : Tag) (q : Bytes)
      → escape4hstore t.value (escape4hstore t.key q ++ codes "=>") ≡ q ++ raw_pair t
  unfolding raw_pair
  tag_text t q = simp (escape4hstore-escaped, append_assoc)

  -- The tag is written.
  tags_loop_kept :
      (written : List Bytes) (t : Tag) (tags ks : List Tag) (first : Bool) (q : Bytes)
      → ((q' : Bytes) → Row.tags_loop table written tags false q' ≡ (false, q' ++ raw_later ks))
      → Row.tags_loop table written tags false (
          escape4hstore t.value
            (escape4hstore t.key (if first then q else q ++ b',' ∷ []) ++ codes "=>"))
        ≡ (false, q ++ raw_tags first (t ∷ ks))
  unfolding raw_tags raw_later
  tags_loop_kept written t tags ks true q ih =
      rw (tag_text t q, ih (q ++ raw_pair t)) (simp append_assoc)
  tags_loop_kept written t tags ks false q ih =
      rw (tag_text t (q ++ b',' ∷ []), ih ((q ++ b',' ∷ []) ++ raw_pair t)) (simp append_assoc)

  pub tags_loop-raw_tags :
      (written : List Bytes) (tags : List Tag) (first : Bool) (q : Bytes)
      → Row.tags_loop table written tags first q
        ≡ (first && is_empty (kept written tags), q ++ raw_tags first (kept written tags))
  unfolding Row.tags_loop kept raw_tags raw_later
  tags_loop-raw_tags written [] true q = ground (arith, append-nil q)
  tags_loop-raw_tags written [] false q = ground (arith, append-nil q)
  tags_loop-raw_tags written (t ∷ tags) first q =
      elim (Bool-cases (has_tag written t.key || table.drops t)) [
        | inl skip ↦ rw skip (tags_loop-raw_tags written tags first q)
        | inr keep ↦ rw keep (
            tags_loop_kept written t tags (kept written tags) first q
              (λ q'. tags_loop-raw_tags written tags false q')
            ∙ ground arith)
      ]
