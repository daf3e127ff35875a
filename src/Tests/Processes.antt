-- ===== src/Tests/Processes.antt =====
-- The entry point of a map-transform extension, called twice.
use rust_sdk_mongodb_extensi.Prelude.{
  ◌≡◌, true, false, none, some, List, [], ◌∷◌, ℕ, ◌+◌, refl, suc,
}
use rust_sdk_mongodb_extensi.Prelude.Int.{pos}
use rust_sdk_mongodb_extensi.Errors.{ok}
use rust_sdk_mongodb_extensi.Bson.{end}
use rust_sdk_mongodb_extensi.Source.Entry.{Version}
use rust_sdk_mongodb_extensi.Host.Services.{HostServices}
use rust_sdk_mongodb_extensi.Mapping.Ops.{MapStageGlobals}
use rust_sdk_mongodb_extensi.Mapping.Entry.{
  EntryCall, Portal, new_process, call_all, first_accepted, ext_init,
}
use rust_sdk_mongodb_extensi.Mapping.Entry.Initialized.{Initializes}
use rust_sdk_mongodb_extensi.Mapping.Entry.First.{ProcessOf, globals_of, call_all-ext_init}

abbrev globals : MapStageGlobals
globals = record {
  name = "$m";
  expect_empty = true;
  transform = λ r a. some (ok r);
  on_eof_no_rows = none;
  static_properties_doc = end;
  expand_from_args_doc = none;
}

abbrev services : HostServices
services = record {
  create_id_lookup = λ b. (none, none);
  create_host_agg_stage_parse_node = λ b. (none, none);
}

abbrev api : Version
api = record { major = 1; minor = 0 }

abbrev call_with : Version → EntryCall
call_with version = record {
  globals = globals;
  version = version;
  services = some services;
  out_null = false;
}

-- The first call has another version.
abbrev calls : List EntryCall
calls = call_with (record { major = 2; minor = 0 }) ∷ call_with api ∷ []

abbrev portal : Portal
portal = record {
  World = ℕ;
  get_extension_options = 4 ∷ [];
  on_extension_initialized = λ g. some (λ w. (some (ok tt), 10 + w));
  register_stage_descriptor = λ w. (some (pos 0), suc w);
}

call_all-ext_init_example :
    ProcessOf (first_accepted api calls) (call_all api calls new_process)
    × Initializes portal 0
        (globals_of (first_accepted api calls))
        (ext_init portal (call_all api calls new_process) 0).0
    × ((ext_init portal (call_all api calls new_process) 0).1.host.options_snapshot ≡ some (4 ∷ []))
call_all-ext_init_example = call_all-ext_init portal api calls 0

-- The hook ran before the descriptor was registered.
registered_once :
    (ext_init portal (record new_process { active = some globals; installed = true }) 0).0
    ≡ (ok tt, 11)
unfolding ext_init
registered_once = refl
