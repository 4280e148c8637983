-- ===== src/Tests/Edit.antt =====
-- An edited profile that is saved unchanged.
use proxer.Base.{List, [], ◌∷◌, map, All, true, ◌≡◌, refl, none, some, inl, first}
use proxer.Number.{Num, int}
use proxer.Text.{trim}
use proxer.Effect.{send}
use proxer.Effect.Run.{run}
use proxer.Agent.Types.{AgentProfile, RuntimeOptions}
use proxer.Agent.Actions
use proxer.Agent.Actions.Edit.{stored_body, submit-edit_profile, Mapping, config_of, IsClean}
use proxer.Agent.Actions.Edit.Mapping.{mapping}
use proxer.Tests.Desk.{desk, plain, page, typed, home}

abbrev options : RuntimeOptions
options = record {
  request_timeout = some "30s";
  poll_wait = none;
  heartbeat_interval = none;
  max_response_body_bytes = some (int 20971520);
  proxy_url = none;
  no_proxy = none;
  tls_skip_verify = some true;
  ca_file = none;
  log_level = some "debug";
}

abbrev tunnels : List Mapping
tunnels = mapping "a" (some "secret") "http://a" ∷ mapping "b" none "http://b" ∷ []

tunnels-IsClean : All IsClean tunnels
unfolding trim
tunnels-IsClean = (((refl, refl), (refl, refl), (refl, refl)), (((refl, refl), (refl, refl)), tt))

abbrev office : AgentProfile
office = record home {
  name = "office";
  mode = "connector";
  runtime = some options;
  legacy_tunnels = some (map config_of tunnels);
}

submit-edit_profile_example :
    (let filled = (run desk (Actions.handle_edit_profile plain office) (page typed "") 0).state in
      first (run desk (Actions.handle_profile_submit plain filled) filled 0).sent
      ≡ some (send "PUT" (Actions.profile_path "p2") (stored_body office tunnels options 20971520)))
unfolding trim Actions.max_bytes_of proxer.Number.Parse.parse_int
submit-edit_profile_example =
    submit-edit_profile desk plain office tunnels options 20971520 (page typed "") 0 refl refl
      (inl refl) refl tunnels-IsClean refl refl refl
