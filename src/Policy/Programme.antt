-- ===== src/Policy/Programme.antt =====
-- internal/policy/programme.go, and `DemandReadScope` of partner.go: the study programmes that an
-- actor plans and reads.
use tallox_go.Prelude.{String, List, [], Bool, true, false, ◌||◌, not, if◌then◌else◌}
use tallox_go.Principal.{Actor, Uuid}
use tallox_go.Policy.Role.{deans_office, programme_lead, partner_reader, roles_of, has}
use tallox_go.Policy.IdScope.{id_scope_allows, id_scope_empty, scoped_ids}
use tallox_go.Policy.Onlooker.{partner_only}

abbrev pub programme_scope_missing_reason : String
programme_scope_missing_reason =
    "Deine Studiengangsleitung ist noch keinem Studiengang zugeordnet. Bitte in der Verwaltung eintragen lassen."

abbrev pub planning_reason : String
planning_reason =
    "Nur die Studiengangsleitung dieses Studiengangs und das Dekanat können den Bedarf festlegen."

pub record ProgrammeScope : Type 0 where
  pub all : Bool
  pub ids : List Uuid

-- `ProgrammeScope.Allows` and `ProgrammeScope.Empty`.
unfoldable pub allows : ProgrammeScope → Uuid → Bool
allows s programme_id = id_scope_allows s.all s.ids programme_id

unfoldable pub empty : ProgrammeScope → Bool
empty s = id_scope_empty s.all s.ids

unfoldable pub planning_scope : Actor → ProgrammeScope
planning_scope a =
    let roles = roles_of a in
    if has roles deans_office
    then record { all = true; ids = [] }
    else if not (has roles programme_lead)
    then record { all = false; ids = [] }
    else record { all = false; ids = scoped_ids a programme_lead (λ s. s.programme_id) }

unfoldable pub may_plan_programme : Actor → Uuid → Bool
may_plan_programme a programme_id = allows (planning_scope a) programme_id

unfoldable pub holds_programme_lead_without_scope : Actor → Bool
holds_programme_lead_without_scope a =
    let roles = roles_of a in
    if has roles deans_office || not (has roles programme_lead)
    then false
    else empty (planning_scope a)

unfoldable pub planning_refusal : Actor → String
planning_refusal a =
    if holds_programme_lead_without_scope a then programme_scope_missing_reason else planning_reason

unfoldable pub demand_read_scope : Actor → ProgrammeScope
demand_read_scope a =
    if not (partner_only a)
    then record { all = true; ids = [] }
    else record { all = false; ids = scoped_ids a partner_reader (λ s. s.programme_id) }
