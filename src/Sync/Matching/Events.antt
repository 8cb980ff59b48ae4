-- ===== src/Sync/Matching/Events.antt =====
-- `match_events` and its helpers.
pub mod Uniqueness
pub mod Verdicts
use Prim.Native.String
use text.Mathlib.Text.{find?}
use worshiptool_churchtools.Prelude.{
  ℕ, zero, suc, ◌+◌, String, Bool, true, false, not, Option, none, some, List, [], ◌∷◌, map, ◌==◌,
  ◌&&◌, ◌||◌, if◌then◌else◌, truthy, member, any, is_nil, is_some, select, sort, nat_eq, leb, ltb,
  str_leb, min, Dict, get, put,
}
use worshiptool_churchtools.Sync.Models.{
  SourceEvent, TargetEvent, EventSelector, ProfileConfig, MatchMode, EventPlanStatus, IssueCode,
  PlanIssue, error_issue,
}
use worshiptool_churchtools.Sync.Platform.{Platform}
use worshiptool_churchtools.Sync.Matching.Table.{Table, append_to, values_at}
use worshiptool_churchtools.Sync.Matching.Text.{normalize_text}

pub record EventMatch : Type 0 where
  pub source : SourceEvent
  pub target : Option TargetEvent
  pub status : EventPlanStatus
  pub issues : List PlanIssue

-- `event.campus_id not in selector.campus_ids`, negated
abbrev pub among : Option String → List String → Bool
among none ids = false
among (some id) ids = member id ids

abbrev pub earliest : List ℕ → ℕ
earliest [] = 0
earliest (t ∷ []) = t
earliest (t ∷ u ∷ ts) = min t (earliest (u ∷ ts))

-- `_source_sort_key`
abbrev pub source_leb : SourceEvent → SourceEvent → Bool
source_leb a b =
    if ltb (earliest a.starts_at) (earliest b.starts_at)
    then true
    else if nat_eq (earliest a.starts_at) (earliest b.starts_at)
    then str_leb a.id b.id
    else false

abbrev pub target_leb : TargetEvent → TargetEvent → Bool
target_leb a b =
    if ltb a.starts_at b.starts_at
    then true
    else if nat_eq a.starts_at b.starts_at
    then str_leb a.id b.id
    else false

abbrev pub has_songs : SourceEvent → Bool
has_songs event = not (is_nil event.song_ids)

-- The events in the order in which they are matched.
unfoldable pub matched_sources : List SourceEvent → List SourceEvent
matched_sources events = select has_songs (sort source_leb events)

abbrev pub unmatched : EventPlanStatus → List PlanIssue → SourceEvent → EventMatch
unmatched status issues source = record {
  source = source;
  target = none;
  status = status;
  issues = issues;
}

-- `target_counts`
abbrev pub count_of : Option ℕ → ℕ
count_of none = 0
count_of (some n) = n

unfoldable pub target_counts : List EventMatch → Dict ℕ → Dict ℕ
target_counts [] counts = counts
target_counts (m ∷ ms) counts = target_counts ms (elim m.target [
  | none ↦ counts
  | some target ↦ put target.id (count_of (get target.id counts) + 1) counts
])

-- The last loop of `match_events`, on one match.
unfoldable pub withdraw : Dict ℕ → EventMatch → EventMatch
withdraw counts m = elim m.target [
  | none ↦ m
  | some target ↦
      if ltb 1 (count_of (get target.id counts))
      then unmatched EventPlanStatus.ambiguous (error_issue IssueCode.target_event_reused ∷ [])
          m.source
      else m
]

unfoldable pub withdraw_reused : List EventMatch → List EventMatch
withdraw_reused ms = map (withdraw (target_counts ms [])) ms

-- The verdict on the candidates of one source event, sorted.
unfoldable pub decide : SourceEvent → List TargetEvent → EventMatch
decide source [] =
    unmatched EventPlanStatus.skipped (error_issue IssueCode.event_not_found ∷ []) source
decide source (target ∷ []) = record {
  source = source;
  target = some target;
  status = EventPlanStatus.ready;
  issues = [];
}
decide source (target ∷ other ∷ targets) =
    unmatched EventPlanStatus.ambiguous (error_issue IssueCode.event_ambiguous ∷ []) source

-- The verdict on the candidates of one source event that pass, or on a timeout.
unfoldable pub verdict : SourceEvent → Option (List TargetEvent) → EventMatch
unfolding decide
verdict source none =
    unmatched EventPlanStatus.failed (error_issue IssueCode.regex_timeout ∷ []) source
verdict source (some candidates) = decide source (sort target_leb candidates)

-- One more candidate in front of those that pass.
unfoldable pub keep :
    Option Bool → TargetEvent → Option (List TargetEvent) → Option (List TargetEvent)
keep none target more = none
keep (some passes) target none = none
keep (some passes) target (some more) = some (if passes then target ∷ more else more)

module _ (p : Platform) where
  -- `_validate_selector`
  unfoldable pub validate_selector : EventSelector → Option PlanIssue
  validate_selector selector = elim selector.name_regex [
    | none ↦ none
    | some pattern_text ↦
        if pattern_text == ""
        then none
        else if not p.has_regex
        then some (error_issue IssueCode.regex_engine_unavailable)
        else if ltb 256 (p.text_length pattern_text)
        then some (error_issue IssueCode.invalid_regex)
        else if p.regex_compiles pattern_text
        then none
        else some (error_issue IssueCode.invalid_regex)
  ]

  unfoldable pub selector_errors : List EventSelector → List PlanIssue
  selector_errors [] = []
  selector_errors (selector ∷ selectors) =
      let rest = selector_errors selectors in
      elim (validate_selector selector) [ none ↦ rest | some issue ↦ issue ∷ rest ]

  -- The part of a selector behind its regular expression.
  abbrev pub name_matches : EventSelector → TargetEvent → Bool
  name_matches selector event = elim selector.name_contains [
    | none ↦ true
    | some text ↦
        if text == ""
        then true
        else is_some (find? (normalize_text p event.name) (normalize_text p text))
  ]

  -- `selector_matches`; `none` is `_RegexTimedOut`
  unfoldable pub selector_matches : EventSelector → TargetEvent → Option Bool
  selector_matches selector event =
      if not (is_nil selector.campus_ids) && not (among event.campus_id selector.campus_ids)
      then some false
      else if not (is_nil selector.calendar_ids)
          && not (among event.calendar_id selector.calendar_ids)
      then some false
      else elim selector.name_regex [
        | none ↦ some (name_matches selector event)
        | some pattern_text ↦
            if pattern_text == ""
            then some (name_matches selector event)
            else elim (p.regex_search pattern_text event.name) [
              | none ↦ none
              | some found ↦ if found then some (name_matches selector event) else some false
            ]
      ]

  -- `any(selector_matches(selector, target) for selector in profile.selectors)`
  unfoldable pub any_selector : List EventSelector → TargetEvent → Option Bool
  any_selector [] event = some false
  any_selector (selector ∷ selectors) event =
      let rest = any_selector selectors event in
      elim (selector_matches selector event) [
        | none ↦ none
        | some found ↦ if found then some true else rest
      ]

  module _ (profile : ProfileConfig) where
    -- The keys of the target index, for a target and for a start of a source.
    abbrev pub target_key : ℕ → ℕ
    target_key at = elim profile.match_mode [
      | MatchMode.exact_time ↦ at
      | MatchMode.date_only ↦ p.local_date profile.target_timezone at
    ]

    abbrev pub source_key : ℕ → ℕ
    source_key at = elim profile.match_mode [
      | MatchMode.exact_time ↦ at
      | MatchMode.date_only ↦ p.local_date profile.source_timezone at
    ]

    -- `_event_time_matches`
    unfoldable pub event_time_matches : SourceEvent → TargetEvent → Bool
    event_time_matches source target =
        any source.starts_at (λ start. nat_eq (source_key start) (target_key target.starts_at))

    -- `_index_target_events`
    unfoldable pub index_target_events :
        List TargetEvent → Table ℕ TargetEvent → Table ℕ TargetEvent
    index_target_events [] table = table
    index_target_events (event ∷ events) table =
        index_target_events events (append_to nat_eq (target_key event.starts_at) event table)

    -- `candidates[event.id] = event` for the events of one key
    unfoldable pub add_candidates : List TargetEvent → Dict TargetEvent → Dict TargetEvent
    add_candidates [] candidates = candidates
    add_candidates (event ∷ events) candidates =
        add_candidates events (put event.id event candidates)

    -- The loop of `_candidate_events`, and its result.
    unfoldable pub collect : List ℕ → Table ℕ TargetEvent → Dict TargetEvent → Dict TargetEvent
    unfolding add_candidates
    collect [] index candidates = candidates
    collect (start ∷ starts) index candidates =
        collect starts index (add_candidates (values_at nat_eq (source_key start) index) candidates)

    unfoldable pub candidate_events : SourceEvent → Table ℕ TargetEvent → List TargetEvent
    unfolding collect
    candidate_events source index =
        map (λ (entry : String × TargetEvent). entry.1) (collect source.starts_at index [])

    -- The condition of the comprehension in `match_events`.
    unfoldable pub accepts : SourceEvent → TargetEvent → Option Bool
    accepts source target =
        if event_time_matches source target
        then (if is_nil profile.selectors then some true else any_selector profile.selectors target)
        else some false

    unfoldable pub accepted : SourceEvent → List TargetEvent → Option (List TargetEvent)
    accepted source [] = some []
    accepted source (target ∷ targets) =
        keep (accepts source target) target (accepted source targets)

    -- The body of the loop over the sources.
    unfoldable pub match_source : Table ℕ TargetEvent → SourceEvent → EventMatch
    match_source index source = verdict source (accepted source (candidate_events source index))

    unfoldable pub match_events : List SourceEvent → List TargetEvent → List EventMatch
    match_events source_events target_events =
        let errors = selector_errors profile.selectors in
        if is_nil errors
        then withdraw_reused (
            map (match_source (index_target_events target_events []))
              (matched_sources source_events))
        else map (unmatched EventPlanStatus.failed errors) (matched_sources source_events)
