-- ===== src/Sync/Planner/Events.antt =====
-- `_plan_event` and `SyncPlanner.plan`.
pub mod Verdicts
pub mod Writes
use worshiptool_churchtools.Prelude.{
  ℕ, String, Bool, true, false, not, Option, none, some, List, [], ◌∷◌, ◌++◌, map, ◌==◌, ◌&&◌,
  if◌then◌else◌, any, is_nil, select, member, Dict, get, has_key,
}
use worshiptool_churchtools.Sync.Errors.{Result, ok, raise}
use worshiptool_churchtools.Sync.Models.{
  SourceEvent, TargetEvent, SourceSong, TargetSong, Agenda, Ownership, ProfileConfig, EventPlan,
  EventPlanStatus, IssueCode, IssueSeverity, PlanIssue, PlannedAction, SyncPlan, error_issue,
  is_error, is_ready, sorted_items,
}
use worshiptool_churchtools.Sync.Platform.{Platform}
use worshiptool_churchtools.Sync.Matching.Events.{EventMatch, match_events}
use worshiptool_churchtools.Sync.Planner.Factory.{SongResource, produced_resource_keys}
use worshiptool_churchtools.Sync.Planner.Songs.{SongPlan, distinct, plan_song_resources}
use worshiptool_churchtools.Sync.Planner.Placements.{Draft, Setting, warning}
use worshiptool_churchtools.Sync.Planner.Agenda.{plan_placements}

-- The inputs of `SyncPlanner.plan` that do not change while it runs.
pub record PlanInput : Type 0 where
  pub run_id : String
  pub profile : ProfileConfig
  pub created_at : ℕ
  pub source_events : List SourceEvent
  pub target_events : List TargetEvent
  pub source_songs : List SourceSong
  pub target_songs : List TargetSong
  pub agendas : Dict Agenda
  pub ownerships : Dict (List Ownership)
  pub event_fingerprints : List ((String × String) × String)
  pub config_fingerprint : Option String
  pub unchanged_event_keys : List (String × String)

abbrev pub same_key : String × String → String × String → Bool
same_key (a, b) (c, d) = a == c && b == d

-- `event_fingerprints.get(key)`
unfoldable pub fingerprint_at : String × String → List ((String × String) × String) → Option String
fingerprint_at key [] = none
fingerprint_at key ((k, fingerprint) ∷ entries) =
    let rest = fingerprint_at key entries in if same_key k key then some fingerprint else rest

unfoldable pub agenda_fingerprint : Platform → Agenda → String
agenda_fingerprint p agenda = p.agenda_digest (sorted_items agenda)

-- `tuple(song_issues[id] for id in dict.fromkeys(song_ids) if id in song_issues)`: the first
-- occurrences, in order.
unfoldable pub issues_of : List String → List String → Dict PlanIssue → List PlanIssue
issues_of seen [] issues = []
issues_of seen (id ∷ ids) issues =
    let rest = issues_of (id ∷ seen) ids issues in
    if member id seen
    then rest
    else elim (get id issues) [ none ↦ rest | some issue ↦ issue ∷ rest ]

-- `issue.code.endswith("ambiguous")`
abbrev pub is_ambiguous : PlanIssue → Bool
is_ambiguous issue = elim issue.code [
  | IssueCode.source_song_ambiguous ↦ true
  | IssueCode.target_song_ambiguous ↦ true
  | IssueCode.event_ambiguous ↦ true
  | _ ↦ false
]

abbrev pub owners_of : Option (List Ownership) → List Ownership
owners_of none = []
owners_of (some owners) = owners

module _ (p : Platform) (input : PlanInput) where
  -- The replacement of the matches that are unchanged since the last sync.
  unfoldable pub skip_unchanged : EventMatch → EventMatch
  skip_unchanged m = elim m.target [
    | none ↦ m
    | some target ↦
        if any input.unchanged_event_keys (λ key. same_key key (m.source.id, target.id))
        then (record m {
          status = EventPlanStatus.skipped;
          issues = record { code = IssueCode.source_unchanged; severity = IssueSeverity.info } ∷ [];
        })
        else m
  ]

  abbrev pub event_plan_id : SourceEvent → String
  event_plan_id source = p.stable_digest (input.run_id ∷ "event" ∷ source.id ∷ [])

  -- The plan of an event with the snapshots that every branch records.
  abbrev pub event_plan :
      SourceEvent
      → Option TargetEvent
      → EventPlanStatus
      → Option String
      → List PlannedAction
      → List PlanIssue
      → EventPlan
  event_plan source target status agenda actions issues = record {
    id = event_plan_id source;
    source_event_id = source.id;
    target_event_id = elim target [ none ↦ none | some t ↦ some t.id ];
    status = status;
    source_event_name = some source.name;
    source_event_starts_at = some source.starts_at;
    target_event_name = elim target [ none ↦ none | some t ↦ some t.name ];
    target_event_starts_at = elim target [ none ↦ none | some t ↦ some t.starts_at ];
    initial_agenda_fingerprint = agenda;
    source_fingerprint = elim target [
      | none ↦ none
      | some t ↦ fingerprint_at (source.id, t.id) input.event_fingerprints
    ];
    config_fingerprint = input.config_fingerprint;
    actions = actions;
    issues = issues;
  }

  module _ (songs : SongPlan) where
    abbrev pub setting : SourceEvent → TargetEvent → Agenda → Setting
    setting source target agenda = record {
      platform = p;
      run_id = input.run_id;
      profile = input.profile;
      source_event = source;
      target_event_id = target.id;
      items = sorted_items agenda;
      owners = owners_of (get target.id input.ownerships);
      resources = songs.resources;
      event_plan_id = event_plan_id source;
    }

    -- The plan of an event from the draft of its placements.
    unfoldable pub of_draft : SourceEvent → TargetEvent → Agenda → Draft → EventPlan
    of_draft source target agenda d =
        if any d.issues is_error
        then event_plan source (some target) EventPlanStatus.failed
            (some (agenda_fingerprint p agenda)) [] d.issues
        else event_plan source (some target) EventPlanStatus.ready
            (some (agenda_fingerprint p agenda)) d.actions d.issues

    abbrev pub drafted : SourceEvent → TargetEvent → Agenda → Result Draft → Result (EventPlan × ℕ)
    drafted source target agenda (raise e) = raise e
    drafted source target agenda (ok d) = ok (of_draft source target agenda d, d.ordinal)

    -- `_plan_event` for a ready match with a target, from its agenda on.
    unfoldable pub plan_agenda :
        SourceEvent → TargetEvent → Option Agenda → ℕ → Result (EventPlan × ℕ)
    unfolding of_draft
    plan_agenda source target none ordinal = ok (
      event_plan source (some target) EventPlanStatus.skipped none []
          (warning IssueCode.agenda_missing ∷ []),
      ordinal,
    )
    plan_agenda source target (some agenda) ordinal =
        if is_nil input.profile.placements
        then ok (
          event_plan source (some target) EventPlanStatus.failed
              (some (agenda_fingerprint p agenda)) []
              (error_issue IssueCode.placements_missing ∷ []),
          ordinal,
        )
        else drafted source target agenda (plan_placements (setting source target agenda) ordinal)

    unfoldable pub plan_ready : SourceEvent → TargetEvent → ℕ → Result (EventPlan × ℕ)
    unfolding plan_agenda
    plan_ready source target ordinal =
        let issues = issues_of [] source.song_ids songs.issues in
        if is_nil issues
        then plan_agenda source target (get target.id input.agendas) ordinal
        else ok (
          event_plan source (some target)
              (if any issues is_ambiguous
                then EventPlanStatus.ambiguous
                else EventPlanStatus.failed)
              none [] issues,
          ordinal,
        )

    -- `_plan_event`, by the target of the match
    unfoldable pub plan_target : EventMatch → Option TargetEvent → ℕ → Result (EventPlan × ℕ)
    unfolding plan_ready
    plan_target m none ordinal = ok (event_plan m.source none m.status none [] m.issues, ordinal)
    plan_target m (some target) ordinal =
        if is_ready m.status
        then plan_ready m.source target ordinal
        else ok (event_plan m.source (some target) m.status none [] m.issues, ordinal)

    unfoldable pub plan_event : EventMatch → ℕ → Result (EventPlan × ℕ)
    unfolding plan_target
    plan_event m ordinal = plan_target m m.target ordinal

    abbrev pub then_events :
        Result (EventPlan × ℕ) → (ℕ → Result (List EventPlan)) → Result (List EventPlan)
    then_events (raise e) k = raise e
    then_events (ok (event, next)) k = elim (k next) [
      | raise e ↦ raise e
      | ok events ↦ ok (event ∷ events)
    ]

    unfoldable pub plan_events : List EventMatch → ℕ → Result (List EventPlan)
    plan_events [] ordinal = ok []
    plan_events (m ∷ ms) ordinal = then_events (plan_event m ordinal) (plan_events ms)

-- The dependencies of the actions of the ready events.
unfoldable pub dependencies_of : List PlannedAction → List String
dependencies_of [] = []
dependencies_of (action ∷ actions) = action.dependencies ++ dependencies_of actions

unfoldable pub needed_resources : List EventPlan → List String
needed_resources [] = []
needed_resources (event ∷ events) =
    let rest = needed_resources events in
    if is_ready event.status then dependencies_of event.actions ++ rest else rest

abbrev pub is_needed : List String → PlannedAction → Bool
is_needed needed action = any (produced_resource_keys action) (λ key. member key needed)

module _ (p : Platform) (input : PlanInput) where
  -- The matches that are planned.
  unfoldable pub planned_matches : List EventMatch
  planned_matches =
      map (skip_unchanged p input)
        (match_events p input.profile input.source_events input.target_events)

  unfoldable pub song_plan : SongPlan
  song_plan =
      plan_song_resources p input.run_id input.profile (planned_matches) input.source_songs
        input.target_songs

  abbrev pub assemble : Result (List EventPlan) → Result SyncPlan
  assemble (raise e) = raise e
  assemble (ok events) = ok (record {
    run_id = input.run_id;
    profile_id = input.profile.id;
    profile_revision = input.profile.revision;
    created_at = input.created_at;
    preparation_actions = select (is_needed (needed_resources events)) song_plan.actions;
    events = events;
  })

  unfoldable pub plan : Result SyncPlan
  plan = assemble (plan_events p input song_plan planned_matches song_plan.ordinal)
