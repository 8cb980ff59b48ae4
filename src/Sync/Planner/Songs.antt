-- ===== src/Sync/Planner/Songs.antt =====
-- `_plan_song_resources` and `_select_arrangement`.
use worshiptool_churchtools.Prelude.{
  ℕ, ◌+◌, String, Bool, false, not, Option, none, some, List, [], ◌∷◌, ◌++◌, ◌==◌, ◌&&◌,
  if◌then◌else◌, member, any, select, find, sort, str_leb, Dict, put, has_key,
}
use worshiptool_churchtools.Sync.Models.{
  SourceSong, TargetSong, Arrangement, ProfileConfig, ActionKind, IssueCode, PlanIssue, Payload,
  PlannedAction, error_issue, empty_payload, is_ready,
}
use worshiptool_churchtools.Sync.Platform.{Platform}
use worshiptool_churchtools.Sync.Matching.Songs.{SongIndex, SongMatch, build_index, match}
use worshiptool_churchtools.Sync.Matching.Events.{EventMatch}
use worshiptool_churchtools.Sync.Planner.Factory.{SongResource, make, keyed}

abbrev pub arrangement_leb : Arrangement → Arrangement → Bool
arrangement_leb a b = str_leb a.id b.id

abbrev pub first_of : List Arrangement → Option Arrangement
first_of [] = none
first_of (a ∷ rest) = some a

-- `_select_arrangement`
unfoldable pub select_arrangement : TargetSong → Option Arrangement
select_arrangement song = elim (find (λ (a : Arrangement). a.is_default) song.arrangements) [
  | some a ↦ some a
  | none ↦ first_of (sort arrangement_leb song.arrangements)
]

-- What the loop over the required songs decides for one of them.
pub data SongOutcome : Type 0 where
  problem : IssueCode → SongOutcome
  reuse : SongResource → SongOutcome
  create : ActionKind → Payload → SongResource → SongOutcome

-- A song whose ChurchTools song is known.
abbrev pub with_target : ProfileConfig → SourceSong → TargetSong → Option Arrangement → SongOutcome
with_target profile source target (some arrangement) = reuse (record {
  source = source;
  song_id = some target.id;
  song_key = none;
  arrangement_id = some arrangement.id;
  arrangement_key = none;
})
with_target profile source target none =
    let key = keyed "arrangement" source.id in
    create ActionKind.create_arrangement
      (record empty_payload {
        source_song_id = some source.id;
        target_song_id = some target.id;
        name = some profile.arrangement_name;
        resource_key = some key;
      })
      (record {
        source = source;
        song_id = some target.id;
        song_key = none;
        arrangement_id = none;
        arrangement_key = some key;
      })

-- A song that ChurchTools does not have.
abbrev pub without_target : ProfileConfig → SourceSong → SongOutcome
without_target profile source =
    if profile.auto_create_songs
    then (let song_key = keyed "song" source.id in
        let arrangement_key = keyed "arrangement" source.id in
        create ActionKind.create_song
          (record empty_payload {
            source_song_id = some source.id;
            name = some source.name;
            author = some source.artist;
            ccli = source.ccli;
            category_id = profile.song_category_id;
            song_resource_key = some song_key;
            arrangement_name = some profile.arrangement_name;
            arrangement_resource_key = some arrangement_key;
          })
          (record {
            source = source;
            song_id = none;
            song_key = some song_key;
            arrangement_id = none;
            arrangement_key = some arrangement_key;
          }))
    else problem IssueCode.target_song_missing

abbrev pub by_match : ProfileConfig → SourceSong → SongMatch → SongOutcome
by_match profile source matched =
    if matched.ambiguous then problem IssueCode.target_song_ambiguous else elim matched.target [
      | some target ↦ with_target profile source target (select_arrangement target)
      | none ↦ without_target profile source
    ]

module _ (p : Platform) (profile : ProfileConfig) where
  -- The songs of one id in the catalogue: none, several, or one to be matched.
  unfoldable pub outcome : SongIndex → List SourceSong → SongOutcome
  unfolding select_arrangement
  outcome index [] = problem IssueCode.source_song_missing
  outcome index (source ∷ []) = by_match profile source (match p index source)
  outcome index (source ∷ other ∷ sources) = problem IssueCode.source_song_ambiguous

pub record SongPlan : Type 0 where
  pub resources : Dict SongResource
  pub issues : Dict PlanIssue
  pub actions : List PlannedAction
  -- the next ordinal of the factory
  pub ordinal : ℕ

abbrev pub no_songs : SongPlan
no_songs = record { resources = []; issues = []; actions = []; ordinal = 0 }

module _ (p : Platform) (run_id : String) where
  -- The body of the loop, for the outcome of the song `id`.
  unfoldable pub add_outcome : String → SongOutcome → SongPlan → SongPlan
  add_outcome id (problem code) plan = record plan {
    issues = put id (error_issue code) plan.issues;
  }
  add_outcome id (reuse resource) plan = record plan { resources = put id resource plan.resources }
  add_outcome id (create kind payload resource) plan = record plan {
    resources = put id resource plan.resources;
    actions = plan.actions ++ make p run_id plan.ordinal kind id payload none [] ∷ [];
    ordinal = plan.ordinal + 1;
  }

  module _ (profile : ProfileConfig) (index : SongIndex) (source_songs : List SourceSong) where
    unfoldable pub plan_songs : List String → SongPlan → SongPlan
    plan_songs [] plan = plan
    plan_songs (id ∷ ids) plan = plan_songs ids (
        add_outcome id
          (outcome p profile index (select (λ (song : SourceSong). song.id == id) source_songs))
          plan)

-- The songs of the matches that are ready.
unfoldable pub ready_song_ids : List EventMatch → List String
ready_song_ids [] = []
ready_song_ids (m ∷ ms) =
    let rest = ready_song_ids ms in if is_ready m.status then m.source.song_ids ++ rest else rest

-- The elements of a list as a set.
unfoldable pub distinct : List String → List String
distinct [] = []
distinct (x ∷ xs) = let rest = distinct xs in if member x rest then rest else x ∷ rest

unfoldable pub required_ids : List EventMatch → List String
required_ids matches = sort str_leb (distinct (ready_song_ids matches))

-- The songs of the ready matches none of whose songs has an issue.
unfoldable pub viable_song_ids : Dict PlanIssue → List EventMatch → List String
viable_song_ids issues [] = []
viable_song_ids issues (m ∷ ms) =
    let rest = viable_song_ids issues ms in
    if is_ready m.status && not (any m.source.song_ids (λ id. has_key id issues))
    then m.source.song_ids ++ rest
    else rest

abbrev pub prepares_one_of : List String → PlannedAction → Bool
prepares_one_of ids action = elim action.payload.source_song_id [
  | none ↦ false
  | some id ↦ member id ids
]

unfoldable pub plan_song_resources :
    Platform
    → String
    → ProfileConfig
    → List EventMatch
    → List SourceSong
    → List TargetSong
    → SongPlan
plan_song_resources p run_id profile matches source_songs target_songs =
    let plan =
      plan_songs p run_id profile (build_index p target_songs) source_songs (required_ids matches)
        no_songs in
    record plan {
      actions = select (prepares_one_of (viable_song_ids plan.issues matches)) plan.actions;
    }
