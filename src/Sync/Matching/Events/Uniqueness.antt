-- ===== src/Sync/Matching/Events/Uniqueness.antt =====
-- No target event is matched twice, and no source event is lost.
use worshiptool_churchtools.Prelude.{
  ℕ, ◌+◌, ◌≤◌, String, ◌≡◌, refl, Bool, false, Option, none, some, List, [], ◌∷◌, map, ◌==◌,
  if◌then◌else◌, is_nil, count_if, Dict, get, put, get-put, arith, eq_iff, ltb, Bool-cases, inl,
  inr, Option-cases, sort, ◌∙◌,
}
use worshiptool_churchtools.Sync.Models.{SourceEvent, TargetEvent, ProfileConfig, EventPlanStatus}
use worshiptool_churchtools.Sync.Platform.{Platform}
use worshiptool_churchtools.Sync.Matching.Table.{Table}
use worshiptool_churchtools.Sync.Matching.Events.{
  EventMatch, unmatched, count_of, target_counts, withdraw, withdraw_reused, match_source,
  index_target_events, match_events, selector_errors, matched_sources, decide, verdict, target_leb,
}

-- The match writes to the target event of this id.
abbrev pub targets_id : String → EventMatch → Bool
targets_id id m = elim m.target [ none ↦ false | some target ↦ target.id == id ]

target_counts-get :
    (id : String) (ms : List EventMatch) (counts : Dict ℕ)
    → count_of (get id (target_counts ms counts))
      ≡ count_of (get id counts) + count_if (targets_id id) ms
unfolding target_counts
target_counts-get id [] counts = omega arith
target_counts-get id (m ∷ ms) counts = elim (Option-cases m.target) [
  | inl e ↦ ground (arith, target_counts-get id ms counts)
  | inr (target, e) ↦
      let seen = count_of (get target.id counts) in
      ground (
        arith,
        target_counts-get id ms (put target.id (seen + 1) counts),
        get-put target.id id (seen + 1) counts,
        eq_iff target.id id,
      )
]

-- What is withdrawn for an id whose count is known.
withdraw-count :
    (id : String) (counts : Dict ℕ) (ms : List EventMatch)
    → count_if (targets_id id) (map (withdraw counts) ms)
      ≡ (if ltb 1 (count_of (get id counts)) then 0 else count_if (targets_id id) ms)
unfolding withdraw
withdraw-count id counts [] = ground arith
withdraw-count id counts (m ∷ ms) = elim (Option-cases m.target) [
  | inl e ↦ ground (arith, withdraw-count id counts ms)
  | inr (target, e) ↦ ground (arith, withdraw-count id counts ms, eq_iff target.id id)
]

withdraw_reused_unique :
    (id : String) (ms : List EventMatch) → count_if (targets_id id) (withdraw_reused ms) ≤ 1
unfolding withdraw_reused
withdraw_reused_unique id ms =
    ground (arith, withdraw-count id (target_counts ms []) ms, target_counts-get id ms [])

unmatched-untargeted :
    (id : String) (m : SourceEvent → EventMatch) (sources : List SourceEvent)
    → ((source : SourceEvent) → (m source).target ≡ none)
    → count_if (targets_id id) (map m sources) ≡ 0
unmatched-untargeted id m [] h = refl
unmatched-untargeted id m (source ∷ sources) h =
    ground (arith, h source, unmatched-untargeted id m sources h)

-- A target event is matched by at most one source event, whatever the events and the profile are.
pub match_events_unique :
    (p : Platform) (profile : ProfileConfig) (sources : List SourceEvent)
    (targets : List TargetEvent) (id : String)
    → count_if (targets_id id) (match_events p profile sources targets) ≤ 1
unfolding match_events
match_events_unique p profile sources targets id =
    let errors = selector_errors p profile.selectors in
    elim (Bool-cases (is_nil errors)) [
      | inl none_found ↦ rw none_found (
          withdraw_reused_unique id (
            map (match_source p profile (index_target_events p profile targets []))
              (matched_sources sources)))
      | inr found ↦ rw found (
          omega (
            arith,
            unmatched-untargeted id (unmatched EventPlanStatus.failed errors)
                (matched_sources sources) (λ s. refl),
          ))
    ]

map-map-source :
    (f : EventMatch → EventMatch)
    → ((m : EventMatch) → (f m).source ≡ m.source)
    → (ms : List EventMatch)
    → map (λ (m : EventMatch). m.source) (map f ms) ≡ map (λ (m : EventMatch). m.source) ms
map-map-source f h [] = refl
map-map-source f h (m ∷ ms) = rw (h m, map-map-source f h ms)

map-source :
    (m : SourceEvent → EventMatch)
    → ((source : SourceEvent) → (m source).source ≡ source)
    → (sources : List SourceEvent) → map (λ (x : EventMatch). x.source) (map m sources) ≡ sources
map-source m h [] = refl
map-source m h (source ∷ sources) = rw (h source, map-source m h sources)

withdraw-source : (counts : Dict ℕ) (m : EventMatch) → (withdraw counts m).source ≡ m.source
unfolding withdraw
withdraw-source counts m = ground arith

decide-source :
    (source : SourceEvent) (targets : List TargetEvent) → (decide source targets).source ≡ source
unfolding decide
decide-source source [] = refl
decide-source source (t ∷ []) = refl
decide-source source (t ∷ u ∷ ts) = refl

verdict-source :
    (source : SourceEvent) (o : Option (List TargetEvent)) → (verdict source o).source ≡ source
unfolding verdict
verdict-source source none = refl
verdict-source source (some events) = decide-source source (sort target_leb events)

match_source-source :
    (p : Platform) (profile : ProfileConfig) (index : Table ℕ TargetEvent) (source : SourceEvent)
    → (match_source p profile index source).source ≡ source
unfolding match_source
match_source-source p profile index source = verdict-source source _

-- Every source event that has songs gets exactly one match, in the order of the sorted events, on
-- every branch: no event is dropped by an invalid selector, a timeout or an ambiguity.
pub match_events-sources :
    (p : Platform) (profile : ProfileConfig) (sources : List SourceEvent)
    (targets : List TargetEvent)
    → map (λ (m : EventMatch). m.source) (match_events p profile sources targets)
      ≡ matched_sources sources
unfolding match_events withdraw_reused
match_events-sources p profile sources targets =
    let errors = selector_errors p profile.selectors in
    elim (Bool-cases (is_nil errors)) [
      | inl none_found ↦
          let matched = match_source p profile (index_target_events p profile targets []) in
          let ms = map matched (matched_sources sources) in
          rw none_found (
            map-map-source (withdraw (target_counts ms [])) (withdraw-source (target_counts ms []))
              ms
            ∙ map-source matched
                (match_source-source p profile (index_target_events p profile targets []))
                (matched_sources sources))
      | inr found ↦ rw found (
          map-source (unmatched EventPlanStatus.failed errors) (λ s. refl)
            (matched_sources sources))
    ]
