-- ===== src/Fields/Readiness/Synced.antt =====
-- internal/field/service.go, `syncFieldState`: the gaps and the status of a field.
use pfas_load_control.Base.{
  ◌≡◌, refl, ◌∙◌, ap, subst, inl, inr, ◌↔◌, Bool, true, false, ◌||◌, any, change, Text,
  if◌then◌else◌, Option-cases, ok, ok-injective, >>=-eq-ok, arith,
}
use pfas_load_control.Workspace.{Time}
use pfas_load_control.Fields.Model.{
  FieldStatus, needs_location, needs_geometry, needs_details, ready, GapCode, location_unresolved,
  location_ambiguous, outside_michigan, geometry_unconfirmed, rmp_approval_missing,
  usable_acres_missing, agronomic_rate_missing, prior_loading_missing, CandidateField, Store,
}
use pfas_load_control.Fields.Readiness.{
  FieldFacts, is_some, gap_codes_of_fields, opens, field_status, facts_with, approval_of,
  confirmed_geometry, is_field, with_status, sync_field_state,
}
use pfas_load_control.Fields.Readiness.Gaps.{has_open, same_code, sync_gaps_here}

-- The status from the tests.
abbrev status_with : Bool → Bool → Bool → FieldStatus
status_with location geometry details =
    if location
    then needs_location
    else if geometry
    then needs_geometry
    else if details
    then needs_details
    else ready

status_with_ready :
    (a b c : Bool) → status_with a b c ≡ ready → (a ≡ false) × (b ≡ false) × (c ≡ false)
status_with_ready true b c h = cc
status_with_ready false true c h = cc
status_with_ready false false true h = cc
status_with_ready false false false h = (refl, refl, refl)

ready_status_with : (a b c : Bool) → a ≡ false → b ≡ false → c ≡ false → status_with a b c ≡ ready
ready_status_with a b c ea eb ec = rw (ea, eb, ec) refl

no_more :
    (a b c d e f g h : Bool)
    → (a || (b || (c || (d || (e || (f || (g || (h || false)))))))) ≡ false
    → ((a || b || c) ≡ false) × (d ≡ false)
no_more a b c d e f g h k = (ground arith, ground arith)

-- A field is ready exactly where it opens no gap.
pub field_status_ready :
    (to_lower : Text → Text) (f : FieldFacts)
    → (field_status to_lower f ≡ ready) ↔ (any (opens to_lower f) gap_codes_of_fields ≡ false)
unfolding field_status
field_status_ready to_lower f =
    let o = opens to_lower f in
    (
      λ h.
          let (a, b, c) =
            status_with_ready (o location_unresolved || o location_ambiguous || o outside_michigan)
              (o geometry_unconfirmed) (any o gap_codes_of_fields) h in
          c,
      λ h.
          let (a, b) =
            no_more (o location_unresolved) (o location_ambiguous) (o outside_michigan)
              (o geometry_unconfirmed) (o rmp_approval_missing) (o usable_acres_missing)
              (o agronomic_rate_missing) (o prior_loading_missing) h in
          ready_status_with (o location_unresolved || o location_ambiguous || o outside_michigan)
            (o geometry_unconfirmed) (any o gap_codes_of_fields) a b h,
    )

-- The boundary is confirmed, the approval is given, and so are the three quantities.
abbrev pub IsComplete : CandidateField → Bool → Type 0
IsComplete r confirmed =
    (confirmed ≡ true)
    × (approval_of r.rmp_approved ≡ true)
    × (is_some r.usable_acres ≡ true)
    × (is_some r.agronomic_rate ≡ true)
    × (is_some r.prior_loading ≡ true)

confirmed_has_geometry :
    (r : CandidateField) (s : Store)
    → confirmed_geometry r s ≡ ok true
    → is_some r.current_geometry_id ≡ true
unfolding confirmed_geometry
confirmed_has_geometry r s h = elim (Option-cases r.current_geometry_id) [
  | inl missing ↦
      let absurd : ◌≡◌ {A = Bool} false true =
        ok-injective true (rw (confirmed_geometry, missing) at h) in
      cc
  | inr (geometry, found) ↦ rw found refl
]

opens_nothing :
    (to_lower : Text → Text) (f : FieldFacts)
    → any (opens to_lower f) gap_codes_of_fields ≡ false
    → (f.has_confirmed_geometry ≡ true)
      × (f.approved ≡ true)
      × (f.has_acres ≡ true)
      × (f.has_rate ≡ true)
      × (f.has_loading ≡ true)
unfolding opens
opens_nothing to_lower f h = (ground arith, ground arith, ground arith, ground arith, ground arith)

complete_opens_nothing :
    (to_lower : Text → Text) (f : FieldFacts)
    → f.has_geometry ≡ true
    → f.has_confirmed_geometry ≡ true
    → f.approved ≡ true
    → f.has_acres ≡ true
    → f.has_rate ≡ true
    → f.has_loading ≡ true
    → any (opens to_lower f) gap_codes_of_fields ≡ false
unfolding opens
complete_opens_nothing to_lower f g c a b d e = rw (g, c, a, b, d, e) refl

-- The gaps of the field are those that its facts open, and its status is that of its facts.
abbrev pub IsSynced : (Text → Text) → CandidateField → Bool → Store → Store → Type 0
IsSynced to_lower r confirmed s after =
    ((c : GapCode)
      → has_open r.id c after.gaps
        ≡ opens to_lower (facts_with (s.latest_lookup r.id) confirmed r) c)
    × ((status : FieldStatus) × (after.fields
          ≡ change (is_field r.id r.workspace_id) (with_status status) s.fields)
        × ((status ≡ ready) ↔ IsComplete r confirmed))

every_code : (c : GapCode) → any (same_code c) gap_codes_of_fields ≡ true
every_code location_unresolved = refl
every_code location_ambiguous = refl
every_code outside_michigan = refl
every_code geometry_unconfirmed = refl
every_code rmp_approval_missing = refl
every_code usable_acres_missing = refl
every_code agronomic_rate_missing = refl
every_code prior_loading_missing = refl

-- After a field is brought up to date, whatever gaps were stored before, its open gaps are
-- exactly those that its record, its boundary and its latest lookup give; and its row has a
-- status that is READY exactly where the boundary is confirmed, the approval is given, and the
-- acres, the agronomic rate and the prior loading are stored.
pub sync_field_state-IsSynced :
    (to_lower : Text → Text) (r : CandidateField) (now : Time) (s : Store) {after : Store}
    → sync_field_state to_lower r now s ≡ ok after
    → (confirmed : Bool) × (confirmed_geometry r s ≡ ok confirmed)
      × IsSynced to_lower r confirmed s after
unfolding sync_field_state
sync_field_state-IsSynced to_lower r now s {after} h =
    let (confirmed, boundary, stored) = >>=-eq-ok (confirmed_geometry r s) _ h in
    let facts = facts_with (s.latest_lookup r.id) confirmed r in
    let (to_open, to_ready) = field_status_ready to_lower facts in
    (
      confirmed,
      boundary,
      subst (IsSynced to_lower r confirmed s) (ok-injective after stored) (
        λ c.
            sync_gaps_here (opens to_lower facts) r.id now c gap_codes_of_fields s.gaps
            ∙ rw (every_code c) refl,
        (
          field_status to_lower facts,
          refl,
          (
            λ is_ready. opens_nothing to_lower facts (to_open is_ready),
            λ (c, a, b, d, e). to_ready (
                complete_opens_nothing to_lower facts
                  (confirmed_has_geometry r s (boundary ∙ ap (λ (x : Bool). ok x) c)) c a b d e),
          ),
        ),
      ),
    )
