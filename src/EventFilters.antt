-- ===== src/EventFilters.antt =====
-- The stored event rules of backend/app/event_filters.py. A number here is an integer that is not
-- negative. `str.strip`, `str` of a number and `len` are the outside's.
pub mod Stable
use worshiptool_churchtools.Prelude.{
  ℕ, ◌≡◌, refl, sym, ap, ◌∙◌, String, Bool, true, false, not, Option, none, some, List, [], ◌∷◌,
  ◌++◌, if◌then◌else◌, ◌||◌, ◌==◌, leb, is_nil, member, arith, Bool-cases, inl, inr, All, map,
}
use worshiptool_churchtools.Sync.Serialization.Json.{
  Json, Items, Fields, null, truth, number, text, array, object, nil, cons, end, field, lookup,
  items_of,
}

pub record Texts : Type 0 where
  pub strip : String → String
  pub show : ℕ → String
  pub text_length : String → ℕ

pub record Rule : Type 0 where
  pub campus_ids : List String
  pub calendar_ids : List String
  pub name_contains : Option String
  pub name_regex : Option String

module _ (t : Texts) where
  abbrev pub within_limit : String → Option String
  within_limit normalized =
      if normalized == "" || not (leb (t.text_length normalized) 100) then none else some normalized

  -- `_canonical_id`
  unfoldable pub canonical_id : Json → Option String
  canonical_id (text s) = within_limit (t.strip s)
  canonical_id (number n) = within_limit (t.strip (t.show n))
  canonical_id null = none
  canonical_id (truth b) = none
  canonical_id (array items) = none
  canonical_id (object fs) = none

  abbrev pub add_id : Option String → List String → (List String → List String) → List String
  add_id none seen k = k seen
  add_id (some id) seen k = if member id seen then k seen else id ∷ k (id ∷ seen)

  -- The loop of `_canonical_ids`, with the ids that were seen.
  unfoldable pub collect_ids : Items → List String → List String
  unfolding canonical_id
  collect_ids nil seen = []
  collect_ids (cons item items) seen = add_id (canonical_id item) seen (collect_ids items)

  -- `_canonical_ids`
  abbrev pub canonical_ids : Option Json → List String
  canonical_ids (some (array items)) = collect_ids items []
  canonical_ids _ = []

  abbrev pub legacy_id : Option Json → List String
  legacy_id none = []
  legacy_id (some v) = elim (canonical_id v) [ none ↦ [] | some id ↦ id ∷ [] ]

  -- The name fields: a text that is not empty.
  abbrev pub name_in : Option Json → Option String
  name_in (some (text s)) = if s == "" then none else some s
  name_in _ = none

  unfoldable pub canonical_rule : Fields → Rule
  unfolding collect_ids
  canonical_rule raw =
      let calendar_ids = canonical_ids (lookup "calendar_ids" raw) in
      record {
        campus_ids = canonical_ids (lookup "campus_ids" raw);
        calendar_ids =
            if is_nil calendar_ids then legacy_id (lookup "calendar_id" raw) else calendar_ids;
        name_contains = name_in (lookup "name_contains" raw);
        name_regex = name_in (lookup "name_regex" raw);
      }

  unfoldable pub canonical_rules : Items → List Rule
  unfolding canonical_rule
  canonical_rules nil = []
  canonical_rules (cons (object raw) items) = canonical_rule raw ∷ canonical_rules items
  canonical_rules (cons item items) = canonical_rules items

  -- `canonicalize_persisted_event_rules`
  unfoldable pub canonicalize_persisted_event_rules : Json → List Rule
  unfolding canonical_rules
  canonicalize_persisted_event_rules (array items) = canonical_rules items
  canonicalize_persisted_event_rules _ = []

-- The dictionary of a rule, as it is returned and stored.
abbrev pub name_field : String → Option String → Fields → Fields
name_field key none fs = fs
name_field key (some s) fs = field key (text s) fs

abbrev pub name_fields : Option String → Option String → Fields
name_fields contains regex = name_field "name_contains" contains (name_field "name_regex" regex end)

abbrev pub rule_json : Rule → Json
rule_json rule = object (
    field "campus_ids" (array (items_of text rule.campus_ids)) (
      field "calendar_ids" (array (items_of text rule.calendar_ids))
        (name_fields rule.name_contains rule.name_regex)))

abbrev pub rules_json : List Rule → Json
rules_json rules = array (items_of rule_json rules)
