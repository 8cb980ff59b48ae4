-- ===== src/Sync/Models/Events.antt =====
-- Events, songs and agendas.
use worshiptool_churchtools.Prelude.{
  ℕ, String, Bool, true, false, Option, List, nat_eq, str_leb, ltb, if◌then◌else◌, sort,
}

pub record SourceEvent : Type 0 where
  pub id : String
  pub name : String
  pub starts_at : List ℕ
  pub song_ids : List String

pub record TargetEvent : Type 0 where
  pub id : String
  pub name : String
  pub starts_at : ℕ
  pub campus_name : Option String
  pub campus_id : Option String
  pub calendar_id : Option String

pub record SourceSong : Type 0 where
  pub id : String
  pub name : String
  pub artist : String
  pub ccli : Option String

pub record Arrangement : Type 0 where
  pub id : String
  pub name : String
  pub is_default : Bool

pub record TargetSong : Type 0 where
  pub id : String
  pub name : String
  pub author : String
  pub ccli : Option String
  pub arrangements : List Arrangement

pub record AgendaItem : Type 0 where
  pub id : String
  pub position : ℕ
  pub type : String
  pub title : Option String
  pub song_id : Option String
  pub arrangement_id : Option String

pub record Agenda : Type 0 where
  pub event_id : String
  pub items : List AgendaItem

-- `key=lambda item: (item.position, item.id)`
abbrev pub item_leb : AgendaItem → AgendaItem → Bool
item_leb a b =
    if ltb a.position b.position
    then true
    else if nat_eq a.position b.position
    then str_leb a.id b.id
    else false

-- `tuple(sorted(agenda.items, key=lambda item: (item.position, item.id)))`
unfoldable pub sorted_items : Agenda → List AgendaItem
sorted_items agenda = sort item_leb agenda.items
