-- ===== src/Sync/Matching/Events/Verdicts.antt =====
-- What a match that is ready guarantees.
use mathlib.Core.List.{append-nil, append_assoc}
use worshiptool_churchtools.Prelude.{
  ℕ, String, ◌≡◌, ◌↔◌, refl, Bool, true, false, Option, none, some, List, [], ◌∷◌, ◌++◌, map, ◌==◌,
  is_nil, select, sort, nat_eq, Dict, put, arith, Bool-cases, inl, inr, ◌⊎◌, All, All-intro, In,
  All-select, All-sort, All-map,
}
use worshiptool_churchtools.Sync.Models.{
  SourceEvent, TargetEvent, ProfileConfig, EventPlanStatus, IssueCode, error_issue,
}
use worshiptool_churchtools.Sync.Platform.{Platform}
use worshiptool_churchtools.Sync.Matching.Table.{Table, append_to, values_at, values_at-append_to}
use worshiptool_churchtools.Sync.Matching.Events.{
  EventMatch, unmatched, target_counts, withdraw, withdraw_reused, match_source, target_key,
  accepts, index_target_events, match_events, selector_errors, matched_sources, decide, accepted,
  verdict, keep, candidate_events, collect, add_candidates, target_leb, source_key,
}

nat_eq_iff : (a b : ℕ) → (nat_eq a b ≡ true) ↔ (a ≡ b)
nat_eq_iff a b = ground arith

module _ (p : Platform) (profile : ProfileConfig) (targets : List TargetEvent) where
  abbrev Known : TargetEvent → Type 0
  Known target = In target targets

  -- A match with a target is ready, the target is one of the events, and it passes the time test
  -- and the selectors; a match that is ready has a target.
  pub record IsSound (m : EventMatch) : Type 0 where
    pub of_target :
        (target : TargetEvent)
        → m.target ≡ some target
        → (m.status ≡ EventPlanStatus.ready)
          × In target targets
          × (accepts p profile m.source target ≡ some true)
    pub of_ready :
        m.status ≡ EventPlanStatus.ready → (target : TargetEvent) × (m.target ≡ some target)

  abbrev keyed : ℕ → TargetEvent → Bool
  keyed key event = nat_eq (target_key p profile event.starts_at) key

  index-values_at :
      (key : ℕ) (events : List TargetEvent) (table : Table ℕ TargetEvent)
      → values_at nat_eq key (index_target_events p profile events table)
        ≡ values_at nat_eq key table ++ select (keyed key) events
  unfolding index_target_events
  index-values_at key [] table = rw append-nil
  index-values_at key (event ∷ events) table =
      let own = target_key p profile event.starts_at in
      ground (
        arith,
        index-values_at key events (append_to nat_eq own event table),
        values_at-append_to nat_eq nat_eq_iff own key event table,
        append_assoc (values_at nat_eq key table) (event ∷ []) (select (keyed key) events),
        append-nil (values_at nat_eq key table),
      )

  abbrev index : Table ℕ TargetEvent
  index = index_target_events p profile targets []

  Known-index : (key : ℕ) → All Known (values_at nat_eq key index)
  unfolding values_at
  Known-index key =
      rw index-values_at
        (All-select Known (keyed key) targets (All-intro _ targets (λ event m e. m)))

  abbrev KnownEntry : String × TargetEvent → Type 0
  KnownEntry entry = Known entry.1

  Known-put :
      (id : String) (event : TargetEvent) (d : Dict TargetEvent)
      → Known event
      → All KnownEntry d
      → All KnownEntry (put id event d)
  Known-put id event [] k h = (k, tt)
  Known-put id event ((j, old) ∷ d) k h = elim (Bool-cases (j == id)) [
    | inl e ↦ rw e (k, h.1)
    | inr e ↦ rw e (h.0, Known-put id event d k h.1)
  ]

  Known-add_candidates :
      (events : List TargetEvent) (d : Dict TargetEvent)
      → All Known events
      → All KnownEntry d
      → All KnownEntry (add_candidates p profile events d)
  unfolding add_candidates
  Known-add_candidates [] d k h = h
  Known-add_candidates (event ∷ events) d k h =
      Known-add_candidates events (put event.id event d) k.1 (Known-put event.id event d k.0 h)

  Known-collect :
      (starts : List ℕ) (d : Dict TargetEvent)
      → All KnownEntry d
      → All KnownEntry (collect p profile starts index d)
  unfolding collect
  Known-collect [] d h = h
  Known-collect (start ∷ starts) d h =
      let key = source_key p profile start in
      Known-collect starts _
        (Known-add_candidates (values_at nat_eq key index) d (Known-index key) h)

  Known-entries : (d : Dict TargetEvent) → All KnownEntry d → All Known (map (λ e. e.1) d)
  Known-entries [] h = tt
  Known-entries (entry ∷ d) h = (h.0, Known-entries d h.1)

  Known-candidate_events :
      (source : SourceEvent) → All Known (candidate_events p profile source index)
  unfolding candidate_events
  Known-candidate_events source = Known-entries _ (Known-collect source.starts_at [] tt)

  abbrev Fit : SourceEvent → TargetEvent → Type 0
  Fit source target = In target targets × (accepts p profile source target ≡ some true)

  abbrev AllFit : SourceEvent → Option (List TargetEvent) → Type 0
  AllFit source none = Unit
  AllFit source (some events) = All (Fit source) events

  Fit-keep :
      (source : SourceEvent) (event : TargetEvent) (o : Option Bool)
      (more : Option (List TargetEvent))
      → accepts p profile source event ≡ o
      → Known event
      → AllFit source more
      → AllFit source (keep o event more)
  unfolding keep
  Fit-keep source event none more e k h = tt
  Fit-keep source event (some passes) none e k h = tt
  Fit-keep source event (some true) (some more) e k h = ((k, e), h)
  Fit-keep source event (some false) (some more) e k h = h

  Fit-accepted :
      (source : SourceEvent) (events : List TargetEvent)
      → All Known events
      → AllFit source (accepted p profile source events)
  unfolding accepted
  Fit-accepted source [] k = tt
  Fit-accepted source (event ∷ events) k =
      Fit-keep source event _ _ refl k.0 (Fit-accepted source events k.1)

  IsSound-decide :
      (source : SourceEvent) (events : List TargetEvent)
      → All (Fit source) events
      → IsSound (decide source events)
  unfolding decide
  IsSound-decide source [] h = record { of_target = λ t e. cc; of_ready = λ e. cc }
  IsSound-decide source (event ∷ []) h = record {
    of_target = λ t e. let q : event ≡ t = cc in (refl, rw (← q) h.0.0, rw (← q) h.0.1);
    of_ready = λ e. (event, refl);
  }
  IsSound-decide source (event ∷ other ∷ events) h = record {
    of_target = λ t e. cc;
    of_ready = λ e. cc;
  }

  IsSound-verdict :
      (source : SourceEvent) (o : Option (List TargetEvent))
      → AllFit source o
      → IsSound (verdict source o)
  unfolding verdict
  IsSound-verdict source none h = record { of_target = λ t q. cc; of_ready = λ q. cc }
  IsSound-verdict source (some events) h =
      IsSound-decide source (sort target_leb events) (All-sort (Fit source) target_leb events h)

  IsSound-match_source : (source : SourceEvent) → IsSound (match_source p profile index source)
  unfolding match_source
  IsSound-match_source source = IsSound-verdict source _ (
      Fit-accepted source (candidate_events p profile source index) (Known-candidate_events source))

  withdraw-cases :
      (counts : Dict ℕ) (m : EventMatch)
      → (withdraw counts m ≡ m)
        ⊎ (withdraw counts m
            ≡ unmatched EventPlanStatus.ambiguous
                (error_issue IssueCode.target_event_reused ∷ [])
                m.source)
  unfolding withdraw
  withdraw-cases counts m = ground arith

  IsSound-withdraw : (counts : Dict ℕ) (m : EventMatch) → IsSound m → IsSound (withdraw counts m)
  IsSound-withdraw counts m h = elim (withdraw-cases counts m) [
    | inl e ↦ rw e h
    | inr e ↦ rw e (record { of_target = λ t q. cc; of_ready = λ q. cc })
  ]

  IsSound-map :
      (f : EventMatch → EventMatch)
      → ((m : EventMatch) → IsSound m → IsSound (f m))
      → (ms : List EventMatch) → All IsSound ms
      → All IsSound (map f ms)
  IsSound-map f h [] k = tt
  IsSound-map f h (m ∷ ms) k = (h m k.0, IsSound-map f h ms k.1)

  pub match_events-IsSound :
      (sources : List SourceEvent) → All IsSound (match_events p profile sources targets)
  unfolding match_events withdraw_reused
  match_events-IsSound sources =
      let errors = selector_errors p profile.selectors in
      let matched = match_source p profile index in
      let ms = map matched (matched_sources sources) in
      elim (Bool-cases (is_nil errors)) [
        | inl e ↦ rw e (
            IsSound-map (withdraw (target_counts ms [])) (IsSound-withdraw (target_counts ms [])) ms
              (All-map IsSound matched (matched_sources sources) IsSound-match_source))
        | inr e ↦ rw e (
            All-map IsSound (unmatched EventPlanStatus.failed errors) (matched_sources sources)
              (λ source. record { of_target = λ t q. cc; of_ready = λ q. cc }))
      ]
