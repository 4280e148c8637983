-- ===== src/Tests/Config.antt =====
-- The tenant configuration against the gateways in `Site`, with a JSON codec of the variables that
-- the tests use.
use proxer.Base.{String, ◌≡◌, refl, [], ◌∷◌, ◌++◌, ◌==◌, if◌then◌else◌}
use proxer.Number.{int}
use proxer.Json.{Json, object}
use proxer.Effect.{ok, fail, error, done}
use proxer.Effect.Run.{run}
use proxer.Effect.Pool.{Machine, Step, advance}
use proxer.Effect.Ends.{NoStarts}
use proxer.Web.Types.{TenantEnvironment, Shape, Of}
use proxer.Web.Page.{Page}
use proxer.Web.Pages.Config
use proxer.Web.Pages.Config.{Codec, ConfigData}
use proxer.Web.Pages.Config.Laws
use proxer.Web.Pages.Config.Races
use proxer.Tests.Site.{staging, site, refusing, denied}

-- knows the texts that the tests parse and print
abbrev codec : Codec
codec = record {
  parse = λ line.
      if line == "region"
      then ok (object (("REGION", Json.text "eu") ∷ []))
      else if line == "1"
      then ok (Json.num (int 1))
      else if line == "{}"
      then ok (object [])
      else fail (error "Unexpected token");
  print = λ vars. elim vars [ [] ↦ "{}" | _ ∷ _ ↦ "region" ];
  show_value = λ v. elim v [ Json.text line ↦ line | _ ↦ "1" ];
}

abbrev selected : Page ConfigData
selected = Config.select_tenant "acme" Config.initial

abbrev numbered : ConfigData
numbered = record selected.content { variables_text = "1" }

save_unreadable_example : run site (Config.save_environment codec numbered) selected 0 ≡ record {
  result = ok tt;
  state = record selected { error = "Variables must be a JSON object." };
  world = 0;
  sent = [];
}
save_unreadable_example =
    Laws.save_unreadable codec site (ok (Json.num (int 1))) numbered selected 0 refl refl tt

show_text : (line : String) → codec.show_value (Json.text line) ≡ line
show_text line = refl

save_after_failed_load_example :
    (let after =
        run refusing
          (Config.load_environment codec "beta")
          (Config.select_tenant "beta" selected)
          0 in
      (run refusing
        (Config.save_environment codec after.state.content)
        after.state
        after.world).sent
      ≡ Laws.put_environment "beta" "http" "127.0.0.1" (int 3000) [] ∷ [])
save_after_failed_load_example =
    Laws.save_after_failed_load codec refusing "beta" denied [] selected 0 1 refl refl refl tt
      show_text

save_after_load_example :
    (let after =
        run site
          (Config.load_environment codec "acme")
          (Config.select_tenant "acme" Config.initial)
          0 in
      (run site (Config.save_environment codec after.state.content) after.state after.world).sent
      ≡ Laws.put_environment "acme" "https" "10.0.0.7" (int 8443) (("REGION", "eu") ∷ []) ∷ [])
save_after_load_example =
    Laws.save_after_load codec site "acme" staging (("REGION", "eu") ∷ []) Config.initial 0 1 refl
      refl (refl, tt) refl refl show_text

-- each path has an environment of its own
abbrev stored : String → TenantEnvironment
stored path = record staging { host = path }

late_environment_example :
    (mid late : Machine Shape Of (Page ConfigData)) × Step NoStarts
      (Races.Right stored)
      (Races.chosen codec "acme" "beta" Config.initial)
      mid
    × (mid.state.content.environment ≡ stored (Races.path_of "beta"))
    × (mid.tasks ≡ (advance (Races.choose codec "acme") Config.initial).1 ++ done tt ∷ [])
    × Step NoStarts (Races.Right stored) mid late
    × (late.state.content.selected_tenant ≡ "beta")
    × (late.state.content.environment ≡ stored (Races.path_of "acme"))
    × (late.tasks ≡ done tt ∷ done tt ∷ [])
late_environment_example =
    Races.late_environment_stays codec stored "acme" "beta" Config.initial refl refl
