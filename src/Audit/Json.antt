-- ===== src/Audit/Json.antt =====
-- src/audit/audit-hash.ts: the details of an entry and their canonical text. `quote` is what
-- `JSON.stringify` makes of a text. A number stands by what it makes of that, or is not finite.
use boilerplate_nestjs_api.Prelude.{
  Bool, true, false, ◌&&◌, ◌||◌, List, [], ◌∷◌, ◌++◌, Option, none, some, ltb, ◌==◌, Utf16, utf16,
  if◌then◌else◌,
}

-- `other`: undefined, a function, a bigint, or an object with a prototype of its own.
mutual
  pub data Json : Type 0 where
    null : Json
    boolean : (value : Bool) → Json
    number : (text : Option Utf16) → Json
    string : (value : Utf16) → Json
    array : (items : Elements) → Json
    object : (members : Members) → Json
    other : Json

  pub data Elements : Type 0 where
    no_items : Elements
    item : (value : Json) → (rest : Elements) → Elements

  pub data Members : Type 0 where
    no_members : Members
    member : (key : Utf16) → (value : Json) → (rest : Members) → Members

-- The order of `sort` on texts, by code unit.
pub text_leb : Utf16 → Utf16 → Bool
text_leb [] t = true
text_leb (c ∷ s) [] = false
text_leb (c ∷ s) (d ∷ t) = ltb c d || (c == d && text_leb s t)

pub insert_by_key : Utf16 × Utf16 → List (Utf16 × Utf16) → List (Utf16 × Utf16)
unfolding text_leb
insert_by_key entry [] = entry ∷ []
insert_by_key entry (first ∷ rest) =
    if text_leb entry.0 first.0 then entry ∷ first ∷ rest else first ∷ insert_by_key entry rest

pub sort_by_key : List (Utf16 × Utf16) → List (Utf16 × Utf16)
unfolding insert_by_key
sort_by_key [] = []
sort_by_key (entry ∷ entries) = insert_by_key entry (sort_by_key entries)

pub join_with_commas : List Utf16 → Utf16
join_with_commas [] = []
join_with_commas (text ∷ []) = text
join_with_commas (text ∷ next ∷ texts) = text ++ b',' ∷ join_with_commas (next ∷ texts)

abbrev pub both {ℓ} : {A B C : Type ℓ} → (A → B → C) → Option A → Option B → Option C
both f none b = none
both f (some a) none = none
both f (some a) (some b) = some (f a b)

module _ (quote : Utf16 → Utf16) where
  pub member_texts : List (Utf16 × Utf16) → List Utf16
  member_texts [] = []
  member_texts (entry ∷ entries) = (quote entry.0 ++ b':' ∷ entry.1) ∷ member_texts entries

  abbrev pub array_text : Option (List Utf16) → Option Utf16
  array_text none = none
  array_text (some texts) = some (b'[' ∷ join_with_commas texts ++ b']' ∷ [])

  abbrev pub object_text : Option (List (Utf16 × Utf16)) → Option Utf16
  object_text none = none
  object_text (some entries) =
      some (b'{' ∷ join_with_commas (member_texts (sort_by_key entries)) ++ b'}' ∷ [])

  -- `none`: `AuditEncodingError`.
  unfoldable mutual
    unfolding join_with_commas member_texts sort_by_key

    pub canonical_json : Json → Option Utf16
    canonical_json null = some (utf16 "null")
    canonical_json (boolean value) = some (if value then utf16 "true" else utf16 "false")
    canonical_json (number text) = text
    canonical_json (string value) = some (quote value)
    canonical_json (array items) = array_text (canonical_items items)
    canonical_json (object members) = object_text (canonical_members members)
    canonical_json other = none

    pub canonical_items : Elements → Option (List Utf16)
    canonical_items no_items = some []
    canonical_items (item value rest) =
        both (λ text texts. text ∷ texts) (canonical_json value) (canonical_items rest)

    pub canonical_members : Members → Option (List (Utf16 × Utf16))
    canonical_members no_members = some []
    canonical_members (member key value rest) =
        both (λ text entries. (key, text) ∷ entries) (canonical_json value) (canonical_members rest)
