-- ===== src/Streets/Members.antt =====
-- The members of relations, and those that are tracked.
use cerepso.Base.{
  ℕ, zero, suc, ◌+◌, Bool, true, false, ◌&&◌, ◌||◌, List, [], ◌∷◌, ◌++◌, Option, none, some,
  if◌then◌else◌, ◌==◌, get_elem?, length, ◌≡◌, refl, ap, ◌∙◌, arith, Bool-cases, inl, inr,
}
use cerepso.Base.Int.{ℤ, eq_ℤ}
use cerepso.Osm.{ItemType, Member, OsmObject}
use cerepso.Handler.Members.{same_type}
use cerepso.Streets.{new_relation}

-- A tracked member: the position of its relation, its id and its number in the relation.
pub record Tracked : Type 0 where
  pub at : ℕ
  pub ref : ℤ
  pub num : ℕ

unfoldable pub is_tracked : ℕ → ℤ → List Tracked → Bool
is_tracked at id [] = false
is_tracked at id (e ∷ es) = (at == e.at && eq_ℤ id e.ref) || is_tracked at id es

unfoldable pub has_member : ItemType → ℤ → List Member → Bool
has_member type id [] = false
has_member type id (m ∷ members) =
    (same_type m.type type && eq_ℤ id m.ref) || has_member type id members

-- The associated streets among the relations.
unfoldable pub streets : List OsmObject → List OsmObject
streets [] = []
streets (r ∷ relations) =
    let later = streets relations in if new_relation r then r ∷ later else later

abbrev pub has_member_of : ItemType → ℤ → Option OsmObject → Bool
has_member_of type id none = false
has_member_of type id (some r) = has_member type id r.members

-- The relation at a position has the member.
unfoldable pub is_member_at : ItemType → ℕ → ℤ → List OsmObject → Bool
is_member_at type at id relations = has_member_of type id (get_elem? relations at)

unfoldable pub pushed : ItemType → ℕ → List Member → ℕ → List Tracked → List Tracked
pushed type at [] n es = es
pushed type at (m ∷ members) n es =
    pushed type at members (n + 1)
      (if same_type m.type type then record { at = at; ref = m.ref; num = n } ∷ es else es)

is_tracked-if :
    (a : ℕ) (id : ℤ) (es : List Tracked) (e : Tracked) (s : Bool)
    → is_tracked a id (if s then e ∷ es else es)
      ≡ ((s && (a == e.at && eq_ℤ id e.ref)) || is_tracked a id es)
unfolding is_tracked
is_tracked-if a id es e true = refl
is_tracked-if a id es e false = refl

nothing_new : (a t : Bool) → t ≡ ((a && false) || t)
nothing_new true t = refl
nothing_new false t = refl

nothing_old : (h : Bool) → h ≡ (h || false)
nothing_old true = refl
nothing_old false = refl

one_more : (a s e h t : Bool) → ((a && h) || ((s && (a && e)) || t)) ≡ ((a && ((s && e) || h)) || t)
one_more false true e h t = refl
one_more false false e h t = refl
one_more true false e h t = refl
one_more true true true true t = refl
one_more true true true false t = refl
one_more true true false h t = refl

pub is_tracked-pushed :
    (type : ItemType) (a : ℕ) (id : ℤ) (at : ℕ) (members : List Member) (n : ℕ) (es : List Tracked)
    → is_tracked a id (pushed type at members n es)
      ≡ ((a == at && has_member type id members) || is_tracked a id es)
unfolding pushed is_tracked has_member
is_tracked-pushed type a id at [] n es = nothing_new (a == at) (is_tracked a id es)
is_tracked-pushed type a id at (m ∷ members) n es =
    is_tracked-pushed type a id at members (n + 1) _
    ∙ ap (λ b. (a == at && has_member type id members) || b)
        (is_tracked-if a id es (record { at = at; ref = m.ref; num = n }) (same_type m.type type))
    ∙ one_more (a == at) (same_type m.type type) (eq_ℤ id m.ref) (has_member type id members)
        (is_tracked a id es)

suc_zero : (a : ℕ) → (suc a == 0) ≡ false
suc_zero a = ground arith

zero_suc : (n : ℕ) → (0 == suc n) ≡ false
zero_suc n = ground arith

equal_later : (a n : ℕ) → (a == n) ≡ (suc a == suc n)
equal_later a n = elim (Bool-cases (a == n)) [
  | inl h ↦ ground (arith, h)
  | inr h ↦ ground (arith, h)
]

pub get_elem-last :
    (relations : List OsmObject) (r : OsmObject) (type : ItemType) (a : ℕ) (id : ℤ)
    → is_member_at type a id (relations ++ r ∷ []) ≡ (
        (a == length relations && has_member type id r.members) || is_member_at type a id relations)
unfolding is_member_at
get_elem-last [] r type zero id = nothing_old (has_member type id r.members)
get_elem-last [] r type (suc a) id = rw (suc_zero a) refl
get_elem-last (x ∷ relations) r type zero id = rw (zero_suc (length relations)) refl
get_elem-last (x ∷ relations) r type (suc a) id =
    get_elem-last relations r type a id
    ∙ ap (λ b. (b && has_member type id r.members) || is_member_at type a id relations)
        (equal_later a (length relations))
