-- ===== src/Agent/Form/Laws.antt =====
-- The text of the tunnels in the profile form.
use proxer.Base.{
  String, ◌≡◌, refl, ap, none, some, List, [], ◌∷◌, ◌==◌, All, get_or, inl, inr, Bool-cases,
}
use proxer.Number.{Num}
use proxer.Text.{trim}
use proxer.Agent.Types.{TunnelConfig, AgentProfile}
use proxer.Agent.Form.{tunnel_entry, tunnels_to_string, non_empty, entries, join, profile_to_form}

-- a tunnel without a target has no entry
entry_untargeted : (t : TunnelConfig) → t.target_url ≡ none → tunnel_entry t ≡ ""
unfolding tunnel_entry
entry_untargeted t h = elim (Bool-cases (trim (get_or t.id "") == "")) [
  | inl e ↦ rw (e) refl
  | inr e ↦ rw (e, h) refl
]

non_empty_untargeted :
    (ts : List TunnelConfig) → All (λ t. t.target_url ≡ none) ts → non_empty (entries ts) ≡ []
non_empty_untargeted [] h = refl
non_empty_untargeted (t ∷ ts) (h, hs) = rw (entry_untargeted t h) (non_empty_untargeted ts hs)

-- A profile whose tunnels are all without `target_url` has the empty text for them in the edit
-- form, however many they are and whatever ids and tokens they have.
pub form_untargeted :
    (show_number : Num → String) (p : AgentProfile) (ts : List TunnelConfig)
    → p.legacy_tunnels ≡ some ts
    → All (λ t. t.target_url ≡ none) ts
    → (profile_to_form show_number p).legacy_tunnels ≡ ""
unfolding profile_to_form tunnels_to_string
form_untargeted show_number p ts e h = rw e (ap join (non_empty_untargeted ts h))

-- The edit form starts with no secret and no token, whatever the profile holds.
pub form_secrets :
    (show_number : Num → String) (p : AgentProfile)
    → ((profile_to_form show_number p).connector_secret ≡ "")
      × ((profile_to_form show_number p).agent_token ≡ "")
unfolding profile_to_form
form_secrets show_number p = (refl, refl)
