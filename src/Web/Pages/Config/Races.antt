-- ===== src/Web/Pages/Config/Races.antt =====
-- The tenant configuration when requests overlap: a super admin selects tenants faster than the
-- server answers.
use proxer.Base.{String, false, ◌≡◌, refl, [], ◌∷◌, ◌++◌, ◌==◌, ◌<>◌}
use proxer.Text.Uri.{encode_uri_component}
use proxer.Effect.{ok, fail, done, ◌>>◌, modify}
use proxer.Effect.Safe.{Answers}
use proxer.Effect.Ends.{NoStarts}
use proxer.Effect.Settle.Laws.{opened}
use proxer.Effect.Pool.{Machine, Step, reply, advance}
use proxer.Web.Types
use proxer.Web.Types.{TenantEnvironment, Shape, Of, Action}
use proxer.Web.Page.{Page}
use proxer.Web.Pages.Config.{Codec, ConfigData, fetch_environment, load_environment, select_tenant}

-- A server that answers each request for an environment, with the environment of that path.
abbrev pub Right : (String → TenantEnvironment) → Answers Shape Of
Right stored ((Types.environment, r) ∷ []) (ok (env, u)) = env ≡ stored r.path
Right stored ((Types.environment, r) ∷ []) (fail e) = ⊥
Right stored _ _ = Unit {0}

abbrev pub path_of : String → String
path_of id = "/api/tenants/" <> encode_uri_component id <> "/environment"

module _ (codec : Codec) where
  -- a choice in the select, with the effect that its render runs
  abbrev pub choose : String → Action (Page ConfigData)
  choose id = modify (select_tenant id) >> load_environment codec id

  -- the page behind the choice of `a` and then of `b`, before any reply
  abbrev pub chosen : String → String → Page ConfigData → Machine Shape Of (Page ConfigData)
  chosen a b s =
      let first = opened s (choose a) in
      record {
        state = (advance (choose b) first.state).0;
        tasks = first.tasks ++ (advance (choose b) first.state).1;
      }

  -- Selecting one tenant and then another, on a server whose replies are all right: first the reply
  -- for the second comes and its environment is in the form, while the request for the first is still
  -- open; then the reply for the first comes, and leaves its environment in the form, with the second
  -- tenant selected and nothing left to run that would mend it.
  pub late_environment_stays :
      (stored : String → TenantEnvironment) (a b : String) (s : Page ConfigData)
      → (a == "") ≡ false
      → (b == "") ≡ false
      → (mid late : Machine Shape Of (Page ConfigData)) × Step NoStarts
          (Right stored)
          (chosen a b s)
          mid
        × (mid.state.content.environment ≡ stored (path_of b))
        × (mid.tasks ≡ (advance (choose a) s).1 ++ done tt ∷ [])
        × Step NoStarts (Right stored) mid late
        × (late.state.content.selected_tenant ≡ b)
        × (late.state.content.environment ≡ stored (path_of a))
        × (late.tasks ≡ done tt ∷ done tt ∷ [])
  unfolding load_environment fetch_environment
  late_environment_stays stored a b s h k =
      rw (h, k)
        (
          _,
          _,
          reply _ (_ ∷ []) [] _ _ (ok (stored (path_of b), tt)) refl,
          refl,
          refl,
          reply _ [] (done tt ∷ []) _ _ (ok (stored (path_of a), tt)) refl,
          refl,
          refl,
          refl,
        )
