-- ===== src/Tests/Hosts.antt =====
-- The host and a stage that asks it.
use rust_sdk_mongodb_extensi.Prelude.{ℕ, ◌≡◌, ◌↔◌, true, false, none, some, List, [], ◌∷◌}
use rust_sdk_mongodb_extensi.Prelude.Int.{pos}
use rust_sdk_mongodb_extensi.Errors.{ok}
use rust_sdk_mongodb_extensi.Bson.{int64, end, field, get}
use rust_sdk_mongodb_extensi.Source.Ops.{Codec}
use rust_sdk_mongodb_extensi.Source.Entry.{Version}
use rust_sdk_mongodb_extensi.Host.Services.{
  HostServices, Process, HasMade, code_of, create_id_lookup_ast, create_id_lookup_ast_iff,
}
use rust_sdk_mongodb_extensi.Host.Context.{
  QueryContext, new_status, check_interrupt, deadline_timestamp_ms, Settles, interrupt_message,
  IsDeadline, check_interrupt-code_of,
}
use rust_sdk_mongodb_extensi.Host.Versions.{
  HasVersion, host_supports_extension, host_supports_extension_iff,
}
use rust_sdk_mongodb_extensi.Host.Metrics.{
  Update, add, time, patch, apply_all, follow_all, get-apply_all,
}

abbrev codec : Codec
codec = record {
  access_error = λ v. [];
  from_reader = λ b. ok (field "rows" (int64 (pos 9)) end);
  to_writer = λ d. ok (7 ∷ []);
}

abbrev services : HostServices
services = record {
  create_id_lookup = λ b. (some (record { get_code = pos 0; get_reason = none }), some 12);
  create_host_agg_stage_parse_node = λ b. (none, none);
}

abbrev process : Process
process = record { host_services = some services; options_snapshot = none }

create_id_lookup_ast_iff_example : (create_id_lookup_ast codec process end ≡ ok 12) ↔ (
    (s : HostServices) × (raw : List ℕ) × (some services ≡ some s)
    × (codec.to_writer end ≡ ok raw)
    × HasMade (s.create_id_lookup raw) 12)
create_id_lookup_ast_iff_example = create_id_lookup_ast_iff codec process end 12

-- A host that interrupts with 11601 once it has been asked.
abbrev killing : QueryContext
killing = record {
  World = ℕ;
  check_for_interrupt = λ st w. (record { get_code = pos 11601; get_reason = none }, w);
  get_deadline_timestamp_ms = λ w. ((none, pos 500), w);
}

check_interrupt-code_of_example :
    (code_of (check_interrupt killing (some tt) 3).0 ≡ pos 11601)
    × Settles
        (Unit {0})
        tt
        interrupt_message
        (killing.check_for_interrupt new_status 3).0
        (check_interrupt killing (some tt) 3).0
    × IsDeadline none (pos 500) (deadline_timestamp_ms killing (some tt) 3).0
    × (check_interrupt killing none 3 ≡ (ok tt, 3))
    × (deadline_timestamp_ms killing none 3 ≡ (ok none, 3))
check_interrupt-code_of_example = check_interrupt-code_of killing 3

abbrev api : Version
api = record { major = 1; minor = 2 }

abbrev newer : Version
newer = record { major = 1; minor = 4 }

host_supports_extension_iff_example :
    ((host_supports_extension (some (newer ∷ [])) api ≡ true) ↔ HasVersion api (newer ∷ []))
    × (host_supports_extension none api ≡ false)
host_supports_extension_iff_example = host_supports_extension_iff (newer ∷ []) api

abbrev updates : List Update
updates =
    add "rows" (pos 2)
    ∷ time "ns" 5
    ∷ patch (some [])
    ∷ patch (some (7 ∷ []))
    ∷ add "rows" (pos 1)
    ∷ []

get-apply_all_example :
    get "rows" (apply_all codec updates end) ≡ follow_all codec "rows" updates (get "rows" end)
get-apply_all_example = get-apply_all codec "rows" updates end
