-- ===== src/Policy/SubjectGroup.antt =====
-- internal/policy/subjectgroup.go: the subject groups that an actor answers for, and the filing of
-- modules into them.
use tallox_go.Prelude.{
  String, List, [], Bool, true, false, ◌&&◌, ◌||◌, not, if◌then◌else◌, ◌==◌, nat_comparable,
}
use tallox_go.Principal.{Actor, Uuid, nil_uuid}
use tallox_go.Policy.Role.{deans_office, subject_group_lead, admin, roles_of, has}
use tallox_go.Policy.IdScope.{id_scope_allows, id_scope_empty, scoped_ids}
use tallox_go.Policy.Onlooker.{may_act_with_full_reach}

abbrev pub subject_group_scope_missing_reason : String
subject_group_scope_missing_reason =
    "Deine Fachgruppenleitung ist noch keiner Fachgruppe zugeordnet. Bitte in der Verwaltung eintragen lassen."

abbrev pub assignment_reason : String
assignment_reason =
    "Diese Instanz kann nur die Leitung ihrer Fachgruppe, die Leitung ihres Studiengangs oder das Dekanat besetzen."

abbrev pub module_filing_reason : String
module_filing_reason =
    "Module lassen sich nur in eine Fachgruppe einsortieren, die Du leitest — und nur, solange sie in keiner anderen Fachgruppe stehen."

pub record SubjectGroupScope : Type 0 where
  pub all : Bool
  pub ids : List Uuid

-- `SubjectGroupScope.Allows` and `SubjectGroupScope.Empty`.
unfoldable pub allows : SubjectGroupScope → Uuid → Bool
allows s subject_group_id = id_scope_allows s.all s.ids subject_group_id

unfoldable pub empty : SubjectGroupScope → Bool
empty s = id_scope_empty s.all s.ids

unfoldable pub assignment_scope : Actor → SubjectGroupScope
assignment_scope a =
    let roles = roles_of a in
    if has roles deans_office
    then record { all = true; ids = [] }
    else if not (has roles subject_group_lead)
    then record { all = false; ids = [] }
    else record { all = false; ids = scoped_ids a subject_group_lead (λ s. s.subject_group_id) }

unfoldable pub may_act_in_subject_group : Actor → Uuid → Bool
may_act_in_subject_group a subject_group_id = allows (assignment_scope a) subject_group_id

unfoldable pub holds_subject_group_lead_without_scope : Actor → Bool
holds_subject_group_lead_without_scope a =
    let roles = roles_of a in
    if has roles deans_office || not (has roles subject_group_lead)
    then false
    else empty (assignment_scope a)

unfoldable pub assignment_refusal : Actor → String
assignment_refusal a =
    if holds_subject_group_lead_without_scope a
    then subject_group_scope_missing_reason
    else assignment_reason

unfoldable pub filing_scope : Actor → SubjectGroupScope
filing_scope a =
    if not (may_act_with_full_reach a)
    then record { all = false; ids = [] }
    else if has (roles_of a) admin
    then record { all = true; ids = [] }
    else assignment_scope a

unfoldable pub may_file_module : Actor → Uuid → Uuid → Bool
may_file_module a from to =
    let scope = filing_scope a in
    if empty scope
    then false
    else (from == nil_uuid || allows scope from) && (to == nil_uuid || allows scope to)

unfoldable pub module_filing_refusal : Actor → String
module_filing_refusal a =
    if holds_subject_group_lead_without_scope a
    then subject_group_scope_missing_reason
    else module_filing_reason
