-- ===== src/EventFilters/Stable.antt =====
-- Canonical rules stay as they are.
use worshiptool_churchtools.Prelude.{
  ◌≡◌, refl, sym, ap, ◌∙◌, String, Bool, true, false, not, Option, none, some, List, [], ◌∷◌,
  if◌then◌else◌, ◌||◌, ◌==◌, leb, is_nil, member, Bool-cases, inl, inr,
}
use worshiptool_churchtools.Sync.Serialization.Json.{
  Json, Items, Fields, null, truth, number, text, array, object, nil, cons, lookup, items_of,
}
use worshiptool_churchtools.EventFilters.{
  Texts, Rule, within_limit, canonical_id, add_id, collect_ids, canonical_ids, legacy_id, name_in,
  canonical_rule, canonical_rules, canonicalize_persisted_event_rules, name_fields, rule_json,
  rules_json,
}

module _ (t : Texts) (strip_strip : (s : String) → t.strip (t.strip s) ≡ t.strip s) where
  -- Ids that reading leaves as they are.
  IsFresh : List String → List String → Type 0
  IsFresh seen [] = Unit {0}
  IsFresh seen (id ∷ ids) =
      (canonical_id t (text id) ≡ some id) × (member id seen ≡ false) × IsFresh (id ∷ seen) ids

  within_same : (s id : String) → within_limit t s ≡ some id → s ≡ id
  within_same s id h = elim (Bool-cases (s == "" || not (leb (t.text_length s) 100))) [
    | inl e ↦ let none_some : none ≡ some id = rw e at h in cc
    | inr e ↦ let some_some : some s ≡ some id = rw e at h in cc
  ]

  canonical_again :
      (s id : String) → within_limit t (t.strip s) ≡ some id → within_limit t (t.strip id) ≡ some id
  canonical_again s id h =
      ap (λ (i : String). within_limit t (t.strip i)) (sym (within_same (t.strip s) id h))
      ∙ ap (within_limit t) (strip_strip s)
      ∙ h

  canonical_id-text :
      (item : Json) (id : String)
      → canonical_id t item ≡ some id
      → canonical_id t (text id) ≡ some id
  unfolding canonical_id
  canonical_id-text (text s) id h = canonical_again s id h
  canonical_id-text (number n) id h = canonical_again (t.show n) id h
  canonical_id-text null id h = cc
  canonical_id-text (truth b) id h = cc
  canonical_id-text (array items) id h = cc
  canonical_id-text (object fs) id h = cc

  add_id-IsFresh :
      (found : Option String) (seen : List String) (k : List String → List String)
      → ((id : String) → found ≡ some id → canonical_id t (text id) ≡ some id)
      → ((seen : List String) → IsFresh seen (k seen))
      → IsFresh seen (add_id t found seen k)
  unfolding IsFresh
  add_id-IsFresh none seen k h ih = ih seen
  add_id-IsFresh (some id) seen k h ih = elim (Bool-cases (member id seen)) [
    | inl e ↦ rw e (ih seen)
    | inr e ↦ rw e (h id refl, e, ih (id ∷ seen))
  ]

  collect_ids-IsFresh :
      (items : Items) (seen : List String) → IsFresh seen (collect_ids t items seen)
  unfolding collect_ids IsFresh
  collect_ids-IsFresh nil seen = tt
  collect_ids-IsFresh (cons item items) seen =
      add_id-IsFresh (canonical_id t item) seen (collect_ids t items) (canonical_id-text item)
        (collect_ids-IsFresh items)

  collect_ids-items_of :
      (ids seen : List String) → IsFresh seen ids → collect_ids t (items_of text ids) seen ≡ ids
  unfolding collect_ids items_of IsFresh
  collect_ids-items_of [] seen h = refl
  collect_ids-items_of (id ∷ ids) seen (c, m, h) =
      rw (c, m, collect_ids-items_of ids (id ∷ seen) h) refl

  legacy_id-IsFresh : (found : Option Json) → IsFresh [] (legacy_id t found)
  unfolding IsFresh
  legacy_id-IsFresh none = tt
  legacy_id-IsFresh (some v) = legacy_by (canonical_id t v) (canonical_id-text v)
    where
      legacy_by :
          (found : Option String)
          → ((id : String) → found ≡ some id → canonical_id t (text id) ≡ some id)
          → IsFresh [] (elim found [ none ↦ [] | some id ↦ id ∷ [] ])
      legacy_by none h = tt
      legacy_by (some id) h = (h id refl, refl, tt)

  -- A name field that is kept.
  abbrev IsKept : Option String → Type 0
  IsKept none = Unit {0}
  IsKept (some s) = (s == "") ≡ false

  record IsCanonical (rule : Rule) : Type 0 where
    campus : IsFresh [] rule.campus_ids
    calendar : IsFresh [] rule.calendar_ids
    contains : IsKept rule.name_contains
    regex : IsKept rule.name_regex

  IsKept-name_in : (found : Option Json) → IsKept (name_in t found)
  IsKept-name_in none = tt
  IsKept-name_in (some null) = tt
  IsKept-name_in (some (truth b)) = tt
  IsKept-name_in (some (number n)) = tt
  IsKept-name_in (some (array items)) = tt
  IsKept-name_in (some (object fs)) = tt
  IsKept-name_in (some (text s)) = elim (Bool-cases (s == "")) [ inl e ↦ rw e tt | inr e ↦ rw e e ]

  canonical_ids-IsFresh : (found : Option Json) → IsFresh [] (canonical_ids t found)
  unfolding IsFresh
  canonical_ids-IsFresh none = tt
  canonical_ids-IsFresh (some null) = tt
  canonical_ids-IsFresh (some (truth b)) = tt
  canonical_ids-IsFresh (some (number n)) = tt
  canonical_ids-IsFresh (some (text s)) = tt
  canonical_ids-IsFresh (some (object fs)) = tt
  canonical_ids-IsFresh (some (array items)) = collect_ids-IsFresh items []

  if-IsFresh :
      (test : Bool) (a b : List String)
      → IsFresh [] a
      → IsFresh [] b
      → IsFresh [] (if test then a else b)
  if-IsFresh true a b h k = h
  if-IsFresh false a b h k = k

  canonical_rule-IsCanonical : (raw : Fields) → IsCanonical (canonical_rule t raw)
  unfolding canonical_rule
  canonical_rule-IsCanonical raw = record {
    campus = canonical_ids-IsFresh (lookup "campus_ids" raw);
    calendar =
        if-IsFresh (is_nil (canonical_ids t (lookup "calendar_ids" raw)))
          (legacy_id t (lookup "calendar_id" raw)) (canonical_ids t (lookup "calendar_ids" raw))
          (legacy_id-IsFresh (lookup "calendar_id" raw))
          (canonical_ids-IsFresh (lookup "calendar_ids" raw));
    contains = IsKept-name_in (lookup "name_contains" raw);
    regex = IsKept-name_in (lookup "name_regex" raw);
  }

  contains-again :
      (contains regex : Option String)
      → IsKept contains
      → name_in t (lookup "name_contains" (name_fields contains regex)) ≡ contains
  contains-again none none h = refl
  contains-again none (some r) h = refl
  contains-again (some c) none h = rw h refl
  contains-again (some c) (some r) h = rw h refl

  regex-again :
      (contains regex : Option String)
      → IsKept regex
      → name_in t (lookup "name_regex" (name_fields contains regex)) ≡ regex
  regex-again none none h = refl
  regex-again none (some r) h = rw h refl
  regex-again (some c) none h = refl
  regex-again (some c) (some r) h = rw h refl

  no_legacy :
      (contains regex : Option String) → lookup "calendar_id" (name_fields contains regex) ≡ none
  no_legacy none none = refl
  no_legacy none (some r) = refl
  no_legacy (some c) none = refl
  no_legacy (some c) (some r) = refl

  if_nil-none : (ids : List String) → (if is_nil ids then [] else ids) ≡ ids
  if_nil-none [] = refl
  if_nil-none (id ∷ ids) = refl

  canonical_rules-rule_json :
      (rule : Rule) (items : Items)
      → IsCanonical rule
      → canonical_rules t (cons (rule_json rule) items) ≡ rule ∷ canonical_rules t items
  unfolding canonical_rules canonical_rule
  canonical_rules-rule_json rule items h =
      rw
        (
          collect_ids-items_of rule.campus_ids [] h.campus,
          collect_ids-items_of rule.calendar_ids [] h.calendar,
          contains-again rule.name_contains rule.name_regex h.contains,
          regex-again rule.name_contains rule.name_regex h.regex,
          no_legacy rule.name_contains rule.name_regex,
          if_nil-none rule.calendar_ids,
        )
        refl

  canonical_again_rules :
      (items : Items)
      → canonical_rules t (items_of rule_json (canonical_rules t items)) ≡ canonical_rules t items
  unfolding canonical_rules items_of
  canonical_again_rules nil = refl
  canonical_again_rules (cons (object raw) items) =
      canonical_rules-rule_json (canonical_rule t raw)
        (items_of rule_json (canonical_rules t items)) (canonical_rule-IsCanonical raw)
      ∙ ap (λ (rules : List Rule). canonical_rule t raw ∷ rules) (canonical_again_rules items)
  canonical_again_rules (cons null items) = canonical_again_rules items
  canonical_again_rules (cons (truth b) items) = canonical_again_rules items
  canonical_again_rules (cons (number n) items) = canonical_again_rules items
  canonical_again_rules (cons (text s) items) = canonical_again_rules items
  canonical_again_rules (cons (array more) items) = canonical_again_rules items

  -- Canonical rules are stable: what the canonicalization of stored rules returns is, stored again,
  -- canonicalized to itself, whatever was stored first, legacy fields, duplicates and values of other
  -- types included, where stripping a text twice is stripping it once.
  pub canonicalize_idempotent :
      (value : Json)
      → canonicalize_persisted_event_rules t
          (rules_json (canonicalize_persisted_event_rules t value))
        ≡ canonicalize_persisted_event_rules t value
  unfolding canonicalize_persisted_event_rules items_of canonical_rules
  canonicalize_idempotent (array items) = canonical_again_rules items
  canonicalize_idempotent null = refl
  canonicalize_idempotent (truth b) = refl
  canonicalize_idempotent (number n) = refl
  canonicalize_idempotent (text s) = refl
  canonicalize_idempotent (object fs) = refl
