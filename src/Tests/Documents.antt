-- ===== src/Tests/Documents.antt =====
-- A document format in which every instant that is written is read again, and a plan.
use worshiptool_churchtools.Prelude.{
  ℕ, zero, suc, ◌≡◌, refl, ap, String, Option, none, some, [], ◌∷◌,
}
use worshiptool_churchtools.Sync.Models.{ActionKind, EventPlanStatus, IssueSeverity}
use worshiptool_churchtools.Sync.Serialization.Json.{number, text, array, nil, cons, end, field}
use worshiptool_churchtools.Sync.Serialization.Plans.{
  StoredIssue, StoredAction, StoredEvent, StoredPlan,
}
use worshiptool_churchtools.Sync.Serialization.Write.{Format}

-- An instant as so many strokes.
abbrev pub iso : ℕ → String
iso zero = ""
iso (suc n) = String.◌∷◌ "i" (iso n)

abbrev pub strokes : String → ℕ
strokes String.[] = 0
strokes (String.◌∷◌ c s) = suc (strokes s)

abbrev pub from_iso : String → Option ℕ
from_iso s = some (strokes s)

strokes-iso : (t : ℕ) → strokes (iso t) ≡ t
strokes-iso zero = refl
strokes-iso (suc t) = ap suc (strokes-iso t)

pub from_iso-iso : (t : ℕ) → from_iso (iso t) ≡ some t
from_iso-iso t = ap some (strokes-iso t)

abbrev pub format : Format
format = record { iso = iso; from_iso = from_iso; str_of = λ v. "None"; int_of = λ v. none }

abbrev action : StoredAction
action = record {
  id = "a1";
  ordinal = 0;
  kind = ActionKind.insert_item;
  payload = field "source_song_id" (text "s1") (
      field "initial_agenda_item_ids" (array (cons (text "i1") nil))
        (field "category_id" (number 3) end));
  event_plan_id = some "e1";
  dependencies = [];
}

abbrev issue : StoredIssue
issue = record {
  code = "placement_overlap";
  message = "Song-Platzierungen";
  severity = IssueSeverity.warning;
  details = field "placement_id" (text "pl1") end;
}

abbrev event : StoredEvent
event = record {
  id = "e1";
  source_event_id = "w1";
  target_event_id = some "t1";
  status = EventPlanStatus.ready;
  source_event_name = some "Gottesdienst";
  source_event_starts_at = some (3 ∷ []);
  target_event_name = none;
  target_event_starts_at = some 3;
  initial_agenda_fingerprint = some "f1";
  source_fingerprint = none;
  config_fingerprint = some "c1";
  actions = action ∷ [];
  issues = issue ∷ [];
}

abbrev pub stored_plan : StoredPlan
stored_plan = record {
  run_id = "r1";
  profile_id = "p1";
  profile_revision = 1;
  created_at = 2;
  preparation_actions = [];
  events = event ∷ [];
}
