-- ===== src/Tests/Store.antt =====
-- A local agent that stores its settings and profiles, and a user who edits them.
use Prim.Native.String.append
use proxer.Base.{
  String, Bool, false, true, ◌||◌, ◌≡◌, refl, Option, none, some, List, [], ◌∷◌, ◌++◌, ◌<>◌, ◌==◌,
  map, if◌then◌else◌, get_or, ℕ, zero, suc,
}
use proxer.Json.{Json, member}
use proxer.Effect.{Request, Result, ok, fail}
use proxer.Effect.Run.{Server, run_all}
use proxer.Text.Uri.{encode_uri_component}
use proxer.Text.{trim}
use proxer.Number.Parse.{parse_int}
use proxer.Agent.Form.{profile_payload}
use proxer.Agent.Types
use proxer.Agent.Types.{AgentSettings, AgentProfile, Shape, Of}
use proxer.Agent.State.{AgentState}
use proxer.Agent.Actions.{profile_path, max_bytes_of}
use proxer.Agent.Actions.Store.{Store}
use proxer.Agent.Actions.Store.Drafts.{limit_of}
use proxer.Agent.Actions.Store.Refines.{Move, submits, uses, deletes, handler, meant, agent_refines}
use proxer.Tests.Desk.{answer, home, page, typed, plain, refused}

abbrev Disk : Type 0
Disk = AgentSettings × List AgentProfile

abbrev text_at : String → Json → String
text_at key (Json.obj body) = elim (member key body) [ some (Json.text s) ↦ s | _ ↦ "" ]
text_at key _ = ""

abbrev has : String → List AgentProfile → Bool
has id [] = false
has id (p ∷ ps) = p.id == id || has id ps

abbrev created : String → AgentProfile
created name = record home { id = name; name = name }

-- the name is the id, and is taken once
abbrev create : String → Disk → Result AgentProfile × Disk
create name (t, ps) =
    if has name ps
    then (fail refused, (t, ps))
    else (ok (created name), (t, ps ++ created name ∷ []))

-- the profile at this path, with what is behind its id
abbrev find_at : String → String → List AgentProfile → Option AgentProfile
find_at path behind [] = none
find_at path behind (p ∷ ps) =
    let rest = find_at path behind ps in
    if profile_path p.id <> behind == path then some p else rest

abbrev replaced : AgentProfile → List AgentProfile → List AgentProfile
replaced q [] = []
replaced q (p ∷ ps) = (if p.id == q.id then q else p) ∷ replaced q ps

abbrev without : String → List AgentProfile → List AgentProfile
without path [] = []
without path (p ∷ ps) =
    let rest = without path ps in if profile_path p.id == path then rest else p ∷ rest

abbrev stored : AgentProfile → Disk → Disk
stored q (t, ps) = (t, replaced q ps)

-- the profile is saved first; there is no keychain for its secret
abbrev update_at : String → String → String → Disk → Result AgentProfile × Disk
update_at path name secret (t, ps) = elim (find_at path "" ps) [
  | none ↦ (fail refused, (t, ps))
  | some p ↦
      let q = record p { name = name } in
      (if secret == "" then ok q else fail refused, stored q (t, ps))
]

abbrev use_at : String → Disk → Result AgentProfile × Disk
use_at path (t, ps) = elim (find_at path "/use" ps) [
  | none ↦ (fail refused, (t, ps))
  | some p ↦ (ok p, (record t { active_profile_id = some p.id }, ps))
]

abbrev pair_at : String → String → Disk → Result AgentProfile × Disk
pair_at path token (t, ps) = elim (find_at path "/pair" ps) [
  | none ↦ (fail refused, (t, ps))
  | some p ↦ let q = record p { connector_id = some token } in (ok q, stored q (t, ps))
]

-- the profile that is active cannot be deleted
abbrev delete_at : String → Disk → Result (Unit {0}) × Disk
delete_at path (t, ps) =
    if profile_path (get_or t.active_profile_id "") == path
    then (fail refused, (t, ps))
    else (ok tt, (t, without path ps))

-- whether a text is longer than this
abbrev longer : ℕ → String → Bool
longer n String.[] = false
longer zero (String.◌∷◌ c s) = true
longer (suc n) (String.◌∷◌ c s) = longer n s

longer_append : (n : ℕ) (s t : String) → longer n s ≡ true → longer n (s <> t) ≡ true
longer_append n String.[] t h = cc
longer_append zero (String.◌∷◌ c s) t h = rw (append.cons c s t) refl
longer_append (suc n) (String.◌∷◌ c s) t h = rw (append.cons c s t) (longer_append n s t h)

longer_path : (id behind : String) → longer 13 (profile_path id <> behind) ≡ true
longer_path id behind =
    longer_append 13 (profile_path id) behind
      (longer_append 13 "/api/profiles/" (encode_uri_component id) refl)

abbrev changed : Request → Disk → Result AgentProfile × Disk
changed r w =
    let body = get_or r.body Json.null in
    if r.method == "PUT"
    then update_at r.path (text_at "name" body) (text_at "connector_secret" body) w
    else if longer 13 r.path
    then elim r.body [ none ↦ use_at r.path w | some b ↦ pair_at r.path (text_at "pair_token" b) w ]
    else create (text_at "name" body) w

abbrev agent : Server Shape Of Disk
agent Types.settings r (t, ps) = (ok t, (t, ps))
agent Types.profiles r (t, ps) = (ok ps, (t, ps))
agent Types.profile r w = changed r w
agent Types.deleted r w = delete_at r.path w
agent t r w = (fail refused, w)

abbrev store : Store Disk
store = record {
  server = agent;
  settings_in = λ w. w.0;
  profiles_in = λ w. w.1;
  create = λ draft w. create draft.name w;
  update = λ id draft w. update_at (profile_path id) draft.name draft.connector_secret w;
  delete = λ id w. delete_at (profile_path id) w;
  use_profile = λ id w. use_at (profile_path id <> "/use") w;
  pair = λ id token w. pair_at (profile_path id <> "/pair") token w;
  reads_settings = λ w. refl;
  reads_profiles = λ w. refl;
  creates = λ draft w. refl;
  updates = λ id draft w. refl;
  deletes = λ id w. refl;
  uses = λ id w. rw (longer_path id "/use") refl;
  pairs = λ id token w. rw (longer_path id "/pair") refl;
}

abbrev begun : Disk
begun = (record (answer Types.settings) { active_profile_id = none }, [])

-- the page that shows it
abbrev shown : AgentState
shown = record (page typed "") { settings = some begun.0; profiles = begun.1 }

-- the profile "home" is edited, with a new name and a secret
abbrev renaming : AgentState
renaming = record shown {
  editing_profile_id = "home";
  form = record typed { name = "house"; connector_secret = "s3cret" };
}

-- creates "home" twice, uses it, tries to delete it, and renames it, which is saved in spite of the
-- error
abbrev moves : List Move
moves =
    submits shown
    ∷ submits shown
    ∷ uses shown "home"
    ∷ deletes shown true "home"
    ∷ submits renaming
    ∷ []

abbrev used : AgentSettings
used = record begun.0 { active_profile_id = some "home" }

agent_refines_example :
    let after = run_all agent (map (handler plain) moves) shown begun in
    (after.1 ≡ (used, record (created "home") { name = "house" } ∷ []))
    × (after.0.settings ≡ some used)
    × (after.0.profiles ≡ created "home" ∷ [])
unfolding meant limit_of encode_uri_component trim max_bytes_of parse_int profile_payload
agent_refines_example = agent_refines store plain moves shown begun begun refl refl
