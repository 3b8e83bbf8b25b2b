-- ===== src/Management/Tests.antt =====
-- The theorems on the management endpoints at concrete inputs.
use cohort_switch.Prelude.{◌≡◌, refl, true, Option, none, some, List, [], ◌∷◌}
use cohort_switch.Prelude.Sort.{sorted}
use cohort_switch.Errors.{Result, key_error, ok, err, Raises, Ensures, value_error}
use cohort_switch.Schemas.{FlagResponse}
use cohort_switch.Permissions.{flag_write}
use cohort_switch.Database.{Environment, Project}
use cohort_switch.Access.{ApiKey, Membership, get_principal, authorize_organization}
use cohort_switch.Flags.Tables.{or_raise}
use cohort_switch.Flags.Lookup.{flag_not_found}
use cohort_switch.Cache.{answered, refused}
use cohort_switch.Management.{Service, tenants}
use cohort_switch.Management.Flags.{
  ScheduledChangeCreate, get_flag, flag_versions, schedule_change, RuleCreate, RollbackRequest,
  create_feature_flag, replace_flag_configuration, add_targeting_rule, rollback_feature_flag,
  archive_flag,
}
use cohort_switch.Management.Keys.{
  ApiKeyCreate, ApiKeyCreated, flags_write, audit_reads, create_api_key,
}
use cohort_switch.Management.Export.{etag_of, export_configuration}
use cohort_switch.Management.Archive.{archive_flag-hidden}
use cohort_switch.Management.Binding.{bound_key_refused, add_targeting_rule_unbound}
use cohort_switch.Management.Revisions.{environment_at, replaced}
use cohort_switch.Management.Etags.{IsFull, export_configuration-after}
use cohort_switch.Management.Credentials.{principal_of, create_api_key-get_principal}
use cohort_switch.Management.Scopes.{is_limited, create_api_key_limited}
use cohort_switch.Samples.{stand_in, creation, change, run_create, kz_rule}
use cohort_switch.Samples.Shop.{service, by_alice, by_key}

archived : (s : Service) × (archive_flag stand_in answered refused by_alice 5 service ≡ ok s)
unfolding archive_flag run_create
archived = (_, refl)

abbrev read_row : Option Project → Result Project
read_row row = or_raise row key_error

abbrev late_rule : RuleCreate
late_rule = record { environment_id = 4; expected_version = 1; rule = kz_rule }

abbrev new_change : ScheduledChangeCreate
new_change = record {
  environment_id = 4;
  expected_version = 1;
  change_type = "enable_flag";
  payload = [];
  activate_at = 900;
}

archive_flag-hidden_example :
    (get_flag stand_in (λ k. 0) by_alice 5 4 archived.0 ≡ err flag_not_found)
    × (flag_versions stand_in (λ k. 0) by_alice 5 4 archived.0 ≡ err flag_not_found)
    × (add_targeting_rule stand_in answered answered by_alice 5 late_rule archived.0
        ≡ err flag_not_found)
    × (schedule_change stand_in answered answered by_alice
          (λ t. "t")
          read_row
          5
          new_change
          archived.0
        ≡ err flag_not_found)
archive_flag-hidden_example =
    archive_flag-hidden stand_in answered refused by_alice 5 service archived.1 (λ k. 0) (λ t. "t")
      read_row answered answered by_alice 4 late_rule new_change

abbrev back : RollbackRequest
back = record { environment_id = 4; expected_version = 1 }

bound_key_refused_example :
    Raises (create_feature_flag stand_in answered answered by_key "s" 2 creation service)
    × Raises (replace_flag_configuration stand_in answered answered by_key 5 change service)
    × Raises (rollback_feature_flag stand_in answered answered by_key 5 1 back service)
bound_key_refused_example =
    bound_key_refused stand_in answered answered by_key "s" 2 5 1 creation change back service refl
      refl refl

abbrev new_rule : RuleCreate
new_rule = record {
  environment_id = 4;
  expected_version = 1;
  rule = record kz_rule { name = "kz2"; priority = 2 };
}

-- the key of another environment does add the rule
rule_added :
    (answer : FlagResponse) × (s : Service) × (add_targeting_rule stand_in answered answered by_key
        5 new_rule service
      ≡ ok (answer, s))
unfolding add_targeting_rule run_create sorted
rule_added = (_, _, refl)

add_targeting_rule_unbound_example :
    add_targeting_rule stand_in answered answered
      (record by_key { principal = record by_key.principal { environment_id = some 4 } })
      5
      new_rule
      service
    ≡ add_targeting_rule stand_in answered answered by_key 5 new_rule service
add_targeting_rule_unbound_example =
    add_targeting_rule_unbound stand_in answered answered by_key 5 new_rule service (some 4)

replacement :
    (answer : FlagResponse) × (s : Service) × (replace_flag_configuration stand_in answered answered
        by_alice 5 change service
      ≡ ok (answer, s))
unfolding replace_flag_configuration run_create
replacement = (_, _, refl)

there : (e : Environment) × (environment_at 4 service.db ≡ some e)
unfolding run_create
there = (_, refl)

export_configuration-after_example : Ensures IsFull (
    export_configuration stand_in
      (λ k. 0)
      by_alice
      (some (etag_of there.0.revision))
      2
      4
      replacement.1)
export_configuration-after_example =
    export_configuration-after stand_in 4 service replacement.1 there.0
      (replaced answered answered by_alice 5 change replacement.0 refl replacement.2) there.1
      (λ k. 0) by_alice 2

abbrev key_payload : ApiKeyCreate
key_payload = record {
  name = "ci";
  organization_id = 1;
  project_id = none;
  environment_id = none;
  scopes = flags_write ∷ audit_reads ∷ flags_write ∷ [];
}

key_created :
    (created : ApiKeyCreated) × (s : Service) × (create_api_key
        (λ t. t)
        "abcdef"
        by_alice
        key_payload
        "MANAGEMENT"
        service
      ≡ ok (created, s))
unfolding create_api_key
key_created = (_, _, refl)

create_api_key-get_principal_example :
    (keys : List ApiKey) × (get_principal
        (λ t. t)
        (λ t. err value_error)
        500
        (tenants key_created.1)
        (some key_created.0.key)
        none
      ≡ ok (principal_of (λ t. t) "abcdef" by_alice key_payload "MANAGEMENT" key_created.0, keys))
create_api_key-get_principal_example =
    create_api_key-get_principal (λ t. t) "abcdef" by_alice key_payload "MANAGEMENT" service
      key_created.0 key_created.1 key_created.2 (λ t. err value_error) 500 none

key_writes :
    (m : Membership) × (authorize_organization
        (tenants service)
        (principal_of (λ t. t) "abcdef" by_alice key_payload "MANAGEMENT" key_created.0)
        1
        flag_write
      ≡ ok m)
unfolding authorize_organization key_created create_api_key
key_writes = (_, refl)

create_api_key_limited_example : is_limited flag_write ≡ true
create_api_key_limited_example =
    create_api_key_limited (λ t. t) "abcdef" by_alice key_payload "MANAGEMENT" service key_created.0
      key_created.1 key_created.2 (tenants service) 1 flag_write key_writes.1
