-- ===== src/Sync/Planner/Events/Verdicts.antt =====
-- What the plan of an event promises.
use worshiptool_churchtools.Prelude.{
  ℕ, ◌≤◌, String, ◌≡◌, refl, Bool, true, false, Option, none, some, List, [], ◌∷◌, map, ◌==◌,
  if◌then◌else◌, any, is_nil, count_if, get, arith, All, Bool-cases, inl, inr, ◌⊎◌,
}
use worshiptool_churchtools.Sync.Errors.{Result, ok, raise}
use worshiptool_churchtools.Sync.Models.{
  TargetEvent, Agenda, EventPlan, EventPlanStatus, PlanIssue, is_error, is_ready,
}
use worshiptool_churchtools.Sync.Platform.{Platform}
use worshiptool_churchtools.Sync.Matching.Events.{EventMatch}
use worshiptool_churchtools.Sync.Matching.Events.Uniqueness.{targets_id}
use worshiptool_churchtools.Sync.Matching.Events.Verdicts.{IsSound}
use worshiptool_churchtools.Sync.Planner.Songs.{SongPlan}
use worshiptool_churchtools.Sync.Planner.Placements.{Draft}
use worshiptool_churchtools.Sync.Planner.Agenda.{plan_placements}
use worshiptool_churchtools.Sync.Planner.Events.{
  PlanInput, skip_unchanged, of_draft, plan_agenda, plan_ready, plan_target, plan_event,
  then_events, event_plan, drafted, plan_events, setting, issues_of,
}

-- An event that is not ready writes nothing; one that is has a target and no issue that is an error.
pub record IsSettled (e : EventPlan) : Type 0 where
  pub quiet : is_ready e.status ≡ false → e.actions ≡ []
  pub clean : is_ready e.status ≡ true → any e.issues is_error ≡ false
  pub aimed : is_ready e.status ≡ true → (target : String) × (e.target_event_id ≡ some target)

-- The event is ready and writes to the target event of this id.
abbrev pub writes_to : String → EventPlan → Bool
writes_to id e =
    if is_ready e.status
    then elim e.target_event_id [ none ↦ false | some target ↦ target == id ]
    else false

-- A ready match has a target.
abbrev pub IsAimed : EventMatch → Type 0
IsAimed m = is_ready m.status ≡ true → (target : TargetEvent) × (m.target ≡ some target)

module _ (p : Platform) (input : PlanInput) where
  module _ (songs : SongPlan) where
    -- The plan follows from the match.
    abbrev Fits : EventMatch → Result (EventPlan × ℕ) → Type 0
    Fits m (raise e) = Unit
    Fits m (ok (e, next)) =
        IsSettled e × ((id : String) → writes_to id e ≡ true → targets_id id m ≡ true)

    Fits-unready :
        (m : EventMatch) (target : Option TargetEvent) (status : EventPlanStatus)
        (agenda : Option String) (issues : List PlanIssue) (ordinal : ℕ)
        → is_ready status ≡ false
        → Fits m (ok (event_plan p input m.source target status agenda [] issues, ordinal))
    Fits-unready m target status agenda issues ordinal h =
        (record { quiet = λ q. refl; clean = λ q. cc; aimed = λ q. cc }, λ id q. cc (rw h at q))

    Fits-of_draft :
        (m : EventMatch) (target : TargetEvent) (agenda : Agenda) (d : Draft)
        → m.target ≡ some target
        → Fits m (ok (of_draft p input songs m.source target agenda d, d.ordinal))
    unfolding of_draft
    Fits-of_draft m target agenda d h = elim (Bool-cases (any d.issues is_error)) [
      | inl e ↦ rw e (
        record { quiet = λ q. refl; clean = λ q. cc; aimed = λ q. (target.id, refl) },
        λ id q. cc,
      )
      | inr e ↦ rw e (
        record { quiet = λ q. cc; clean = λ q. e; aimed = λ q. (target.id, refl) },
        λ id q. ground arith,
      )
    ]

    Fits-drafted :
        (m : EventMatch) (target : TargetEvent) (agenda : Agenda) (r : Result Draft)
        → m.target ≡ some target
        → Fits m (drafted p input songs m.source target agenda r)
    Fits-drafted m target agenda (raise e) h = tt
    Fits-drafted m target agenda (ok d) h = Fits-of_draft m target agenda d h

    Fits-plan_agenda :
        (m : EventMatch) (target : TargetEvent) (agenda : Option Agenda) (ordinal : ℕ)
        → m.target ≡ some target
        → Fits m (plan_agenda p input songs m.source target agenda ordinal)
    unfolding plan_agenda
    Fits-plan_agenda m target none ordinal h =
        Fits-unready m (some target) EventPlanStatus.skipped none _ ordinal refl
    Fits-plan_agenda m target (some agenda) ordinal h =
        elim (Bool-cases (is_nil input.profile.placements)) [
          | inl e ↦ rw e (Fits-unready m (some target) EventPlanStatus.failed _ _ ordinal refl)
          | inr e ↦ rw e (
              Fits-drafted m target agenda
                (plan_placements (setting p input songs m.source target agenda) ordinal) h)
        ]

    Fits-plan_ready :
        (m : EventMatch) (target : TargetEvent) (ordinal : ℕ)
        → m.target ≡ some target
        → Fits m (plan_ready p input songs m.source target ordinal)
    unfolding plan_ready
    Fits-plan_ready m target ordinal h =
        let issues = issues_of [] m.source.song_ids songs.issues in
        elim (Bool-cases (is_nil issues)) [
          | inl e ↦ rw e (Fits-plan_agenda m target (get target.id input.agendas) ordinal h)
          | inr e ↦ rw e (Fits-unready m (some target) _ none issues ordinal (ground arith))
        ]

    Fits-plan_target :
        (m : EventMatch) (target : Option TargetEvent) (ordinal : ℕ)
        → m.target ≡ target
        → IsAimed m
        → Fits m (plan_target p input songs m target ordinal)
    unfolding plan_target
    Fits-plan_target m none ordinal e aimed =
        Fits-unready m none m.status none m.issues ordinal (elim (Bool-cases (is_ready m.status)) [
          | inl r ↦ let (target, t) = aimed r in cc
          | inr r ↦ r
        ])
    Fits-plan_target m (some target) ordinal e aimed = elim (Bool-cases (is_ready m.status)) [
      | inl r ↦ rw r (Fits-plan_ready m target ordinal e)
      | inr r ↦ rw r (Fits-unready m (some target) m.status none m.issues ordinal r)
    ]

    Fits-plan_event :
        (m : EventMatch) (ordinal : ℕ) → IsAimed m → Fits m (plan_event p input songs m ordinal)
    unfolding plan_event
    Fits-plan_event m ordinal aimed = Fits-plan_target m m.target ordinal refl aimed

    -- The plans of a list of matches.
    abbrev pub FitAll : List EventMatch → Result (List EventPlan) → Type 0
    FitAll ms (raise e) = Unit
    FitAll ms (ok events) =
        All IsSettled events
        × ((id : String) → count_if (writes_to id) events ≤ count_if (targets_id id) ms)

    FitAll-then_events :
        (m : EventMatch) (ms : List EventMatch) (r : Result (EventPlan × ℕ))
        (k : ℕ → Result (List EventPlan))
        → Fits m r
        → ((n : ℕ) → FitAll ms (k n))
        → FitAll (m ∷ ms) (then_events p input songs r k)
    FitAll-then_events m ms (raise e) k f h = tt
    FitAll-then_events m ms (ok (event, next)) k f h = FitAll-cons (k next) (h next)
      where
        FitAll-cons :
            (r : Result (List EventPlan))
            → FitAll ms r
            → FitAll (m ∷ ms) (elim r [ raise e ↦ raise e | ok events ↦ ok (event ∷ events) ])
        FitAll-cons (raise e) g = tt
        FitAll-cons (ok events) g = ((f.0, g.0), λ id. ground (arith, g.1 id, f.1 id))

    pub FitAll-plan_events :
        (ms : List EventMatch) (ordinal : ℕ)
        → All IsAimed ms
        → FitAll ms (plan_events p input songs ms ordinal)
    unfolding plan_events
    FitAll-plan_events [] ordinal h = (tt, λ id. omega arith)
    FitAll-plan_events (m ∷ ms) ordinal h =
        FitAll-then_events m ms (plan_event p input songs m ordinal) (plan_events p input songs ms)
          (Fits-plan_event m ordinal h.0) (λ n. FitAll-plan_events ms n h.1)

  skip_unchanged-cases :
      (m : EventMatch)
      → (skip_unchanged p input m ≡ m)
        ⊎ ((is_ready (skip_unchanged p input m).status ≡ false)
            × ((skip_unchanged p input m).target ≡ m.target))
  unfolding skip_unchanged
  skip_unchanged-cases m = ground arith

  IsAimed-skip_unchanged : (m : EventMatch) → IsAimed m → IsAimed (skip_unchanged p input m)
  IsAimed-skip_unchanged m h = elim (skip_unchanged-cases m) [
    | inl e ↦ rw e h
    | inr e ↦ λ q. cc (rw e.0 at q)
  ]

  pub IsAimed-skipped :
      (ms : List EventMatch) → All IsAimed ms → All IsAimed (map (skip_unchanged p input) ms)
  IsAimed-skipped [] h = tt
  IsAimed-skipped (m ∷ ms) h = (IsAimed-skip_unchanged m h.0, IsAimed-skipped ms h.1)

  pub targets-skipped :
      (id : String) (ms : List EventMatch)
      → count_if (targets_id id) (map (skip_unchanged p input) ms) ≡ count_if (targets_id id) ms
  targets-skipped id [] = refl
  targets-skipped id (m ∷ ms) = elim (skip_unchanged-cases m) [
    | inl e ↦ rw (e, targets-skipped id ms)
    | inr e ↦ rw (e.1, targets-skipped id ms)
  ]

  is_ready-eq : (status : EventPlanStatus) → is_ready status ≡ true → status ≡ EventPlanStatus.ready
  is_ready-eq status h = ground arith

  pub IsAimed-of_IsSound :
      (ms : List EventMatch) → All (IsSound p input.profile input.target_events) ms → All IsAimed ms
  IsAimed-of_IsSound [] h = tt
  IsAimed-of_IsSound (m ∷ ms) h =
      (λ q. h.0.of_ready (is_ready-eq m.status q), IsAimed-of_IsSound ms h.1)
