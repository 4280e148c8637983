-- ===== src/Agent/Actions/Store/Refines.antt =====
-- The agent's page as a view of what the local agent stores.
use proxer.Base.{
  ℕ, ◌∙◌, ap, String, Bool, Bool-cases, true, false, ◌≡◌, refl, Option, none, some, List, [], ◌∷◌,
  ◌==◌, if◌then◌else◌, map, subst, sym, inl, inr,
}
use proxer.Number.{Num}
use proxer.Text.{trim}
use proxer.Effect.{Thrown, Result, ok, fail, send}
use proxer.Effect.Run.{run, run_all}
use proxer.Agent.Types
use proxer.Agent.Types.{ProfileFormState, Mode}
use proxer.Agent.State.{AgentState, Action}
use proxer.Agent.Actions
use proxer.Agent.Actions.{max_bytes_of}
use proxer.Agent.Actions.Store.{Store, path_of}
use proxer.Agent.Actions.Store.Drafts.{drafted, limit_of, max_bytes_of-limit, payload-drafted}
use proxer.Agent.Actions.Store.Runs

-- what the user does with the profiles, in the page as it was rendered, `r`
pub data Move : Type 0 where
  submits : (r : AgentState) → Move
  uses : (r : AgentState) (id : String) → Move
  deletes : (r : AgentState) (confirmed : Bool) (id : String) → Move
  pairs : (r : AgentState) → Move

-- the handler that the page runs for it
unfoldable pub handler : (Num → String) → Move → Action
handler show_number (submits r) = Actions.handle_profile_submit show_number r
handler show_number (uses r id) = Actions.handle_use_profile r id
handler show_number (deletes r confirmed id) =
    Actions.handle_delete_profile show_number r confirmed id
handler show_number (pairs r) = Actions.handle_pair r

-- the store behind a reply, and the store that the page shows, which showed `v` before
abbrev pub settled : {W A : Type 0} → Result A × W → W → W × W
settled (ok a, w) v = (w, w)
settled (fail e, w) v = (w, v)

module _ {W : Type 0} (d : Store W) where
  abbrev submitted : AgentState → Option ℕ → W → W → W × W
  submitted r none w v = (w, v)
  submitted r (some n) w v =
      if r.editing_profile_id == ""
      then settled (d.create (drafted r.form n) w) v
      else settled (d.update r.editing_profile_id (drafted r.form n) w) v

  -- What it does to the store `w`, and which store the page shows then, which shows `v` now: nothing
  -- where the form is not complete or the deletion is not confirmed.
  unfoldable pub meant : Move → W → W → W × W
  meant (submits r) w v =
      if trim r.form.name == ""
      then (w, v)
      else submitted r (limit_of r.form.max_response_body_bytes) w v
  meant (uses r id) w v = settled (d.use_profile id w) v
  meant (deletes r confirmed id) w v = if confirmed then settled (d.delete id w) v else (w, v)
  meant (pairs r) w v =
      if trim r.pair_profile == ""
      then (w, v)
      else if trim r.pair_token == ""
      then (w, v)
      else settled (d.pair (trim r.pair_profile) (trim r.pair_token) w) v

  abbrev pub meant_all : List Move → W → W → W × W
  meant_all [] w v = (w, v)
  meant_all (c ∷ cs) w v = let next = meant c w v in meant_all cs next.0 next.1

  -- the page shows this store
  abbrev pub InSync : W → AgentState → Type 0
  InSync v s = (s.settings ≡ some (d.settings_in v)) × (s.profiles ≡ d.profiles_in v)

  -- the run of a program on the store `w` leaves the first store, and a page that shows the second
  abbrev Shows : W → Action → AgentState → W × W → Type 0
  Shows w p s (w', v') = Runs.Leaves d.server w w' (d.settings_in v') (d.profiles_in v') p s

  reply_cases :
      {A : Type 0} (T : W × W → Type 0) (q x : Result A × W) (v : W)
      → q ≡ x
      → ((a : A) (w' : W) → q ≡ (ok a, w') → T (w', w'))
      → ((e : Thrown) (w' : W) → q ≡ (fail e, w') → T (w', v))
      → T (settled x v)
  reply_cases T q (ok a, w') v e f g = f a w' e
  reply_cases T q (fail d, w') v e f g = g d w' e

  module _ (show_number : Num → String) (r s : AgentState) (w v : W) (h : InSync v s) where
    submit-Shows :
        (o : Option ℕ)
        → max_bytes_of r.form.max_response_body_bytes ≡ o
        → (trim r.form.name == "") ≡ false
        → Shows w (Actions.handle_profile_submit show_number r) s (submitted r o w v)
    unfolding Actions.handle_profile_submit
    submit-Shows none e n = rw (n, e) (refl, h.0, h.1)
    submit-Shows (some k) e n = elim (Bool-cases (r.editing_profile_id == "")) [
      | inl b ↦ rw b (
          reply_cases (Shows w (Actions.handle_profile_submit show_number r) s) _ _ v
            (ap (λ b. d.server Types.profile (send "POST" "/api/profiles" b) w)
                (payload-drafted r.form k)
              ∙ d.creates (drafted r.form k) w)
            (λ x w' q.
              Runs.create_accepted d.server w w' _ _ (d.reads_settings w') (d.reads_profiles w') r s
                show_number k x n e b q)
            (λ z w' q. Runs.create_refused d.server w w' _ _ r s h.0 h.1 z show_number k n e b q))
      | inr b ↦ rw b (
          reply_cases (Shows w (Actions.handle_profile_submit show_number r) s) _ _ v
            (ap (λ b. d.server Types.profile (send "PUT" (path_of r.editing_profile_id) b) w)
                (payload-drafted r.form k)
              ∙ d.updates r.editing_profile_id (drafted r.form k) w)
            (λ x w' q.
              Runs.update_accepted d.server w w' _ _ (d.reads_settings w') (d.reads_profiles w') r s
                show_number k x n e b q)
            (λ z w' q. Runs.update_refused d.server w w' _ _ r s h.0 h.1 z show_number k n e b q))
    ]

    pair-Shows :
        (trim r.pair_profile == "") ≡ false
        → (trim r.pair_token == "") ≡ false
        → Shows w
            (Actions.handle_pair r)
            s
            (settled (d.pair (trim r.pair_profile) (trim r.pair_token) w) v)
    pair-Shows a b =
        reply_cases (Shows w (Actions.handle_pair r) s) _ _ v
          (d.pairs (trim r.pair_profile) (trim r.pair_token) w)
          (λ x w' q.
            Runs.pair_accepted d.server w w' _ _ (d.reads_settings w') (d.reads_profiles w') r s x a
              b q)
          (λ z w' q. Runs.pair_refused d.server w w' _ _ r s h.0 h.1 z a b q)

    delete-Shows :
        (id : String)
        → Shows w
            (Actions.handle_delete_profile show_number r true id)
            s
            (settled (d.delete id w) v)
    delete-Shows id =
        reply_cases (Shows w (Actions.handle_delete_profile show_number r true id) s) _ _ v
          (d.deletes id w)
          (λ x w' q.
            Runs.delete_accepted d.server w w' _ _ (d.reads_settings w') (d.reads_profiles w') r s
              show_number id x q)
          (λ z w' q. Runs.delete_refused d.server w w' _ _ r s h.0 h.1 z show_number id q)

    use-Shows :
        (id : String) → Shows w (Actions.handle_use_profile r id) s (settled (d.use_profile id w) v)
    use-Shows id =
        reply_cases (Shows w (Actions.handle_use_profile r id) s) _ _ v (d.uses id w)
          (λ x w' q.
            Runs.use_accepted d.server w w' _ _ (d.reads_settings w') (d.reads_profiles w') r s id x
              q)
          (λ z w' q. Runs.use_refused d.server w w' _ _ r s h.0 h.1 z id q)

    submit_blank :
        (trim r.form.name == "") ≡ true
        → Shows w (Actions.handle_profile_submit show_number r) s (w, v)
    unfolding Actions.handle_profile_submit
    submit_blank e = rw e (refl, h.0, h.1)

    pair_blank : (trim r.pair_profile == "") ≡ true → Shows w (Actions.handle_pair r) s (w, v)
    unfolding Actions.handle_pair
    pair_blank e = rw e (refl, h.0, h.1)

    pair_tokenless :
        (trim r.pair_profile == "") ≡ false
        → (trim r.pair_token == "") ≡ true
        → Shows w (Actions.handle_pair r) s (w, v)
    unfolding Actions.handle_pair
    pair_tokenless e f = rw (e, f) (refl, h.0, h.1)

    submits-Shows : Shows w (Actions.handle_profile_submit show_number r) s (meant (submits r) w v)
    unfolding meant
    submits-Shows =
        let T : W × W → Type 0 = Shows w (Actions.handle_profile_submit show_number r) s in
        elim (Bool-cases (trim r.form.name == "")) [
          | inl e ↦ subst T (rw e refl) (submit_blank e)
          | inr e ↦ subst T (rw e refl) (
              submit-Shows (limit_of r.form.max_response_body_bytes)
                (max_bytes_of-limit r.form.max_response_body_bytes) e)
        ]

    pairs-Shows : Shows w (Actions.handle_pair r) s (meant (pairs r) w v)
    unfolding meant
    pairs-Shows =
        let T : W × W → Type 0 = Shows w (Actions.handle_pair r) s in
        elim (Bool-cases (trim r.pair_profile == "")) [
          | inl e ↦ subst T (rw e refl) (pair_blank e)
          | inr e ↦ elim (Bool-cases (trim r.pair_token == "")) [
            | inl f ↦ subst T (rw (e, f) refl) (pair_tokenless e f)
            | inr f ↦ subst T (rw (e, f) refl) (pair-Shows e f)
          ]
        ]

  module _ (show_number : Num → String) where
    shows :
        (c : Move) (s : AgentState) (w v : W)
        → InSync v s
        → Shows w (handler show_number c) s (meant c w v)
    unfolding handler meant Actions.handle_delete_profile
    shows (submits r) s w v h = submits-Shows show_number r s w v h
    shows (uses r id) s w v h = use-Shows show_number r s w v h id
    shows (deletes r true id) s w v h = delete-Shows show_number r s w v h id
    shows (deletes r false id) s w v h = (refl, h.0, h.1)
    shows (pairs r) s w v h = pairs-Shows show_number r s w v h

    -- Over a local agent that keeps a `Store`, the page shows the store as of the last change that was
    -- accepted: if it shows the settings and profiles of the store `v` while the store is `w`, and the
    -- user then submits the profile form, uses, deletes and pairs profiles in any order, each handler
    -- run to its end, then the store is the one that was meant, and the page shows the settings and
    -- profiles of the store that the last accepted change left. A change that is answered by an error
    -- may have changed the store, and leaves what the page shows; an incomplete form and a deletion
    -- that is not confirmed leave both.
    pub agent_refines :
        (moves : List Move) (s : AgentState) (w v : W)
        → s.settings ≡ some (d.settings_in v)
        → s.profiles ≡ d.profiles_in v
        → let after = run_all d.server (map (handler show_number) moves) s w in
          (after.1 ≡ (meant_all moves w v).0)
          × (after.0.settings ≡ some (d.settings_in (meant_all moves w v).1))
          × (after.0.profiles ≡ d.profiles_in (meant_all moves w v).1)
    agent_refines [] s w v h k = (refl, h, k)
    agent_refines (c ∷ cs) s w v h k =
        let o = run d.server (handler show_number c) s w in
        let next = meant c w v in
        let (e, l, m) = shows c s w v (h, k) in
        let goal = meant_all cs next.0 next.1 in
        subst
          (λ u.
            let after = run_all d.server (map (handler show_number) cs) o.state u in
            (after.1 ≡ goal.0)
            × (after.0.settings ≡ some (d.settings_in goal.1))
            × (after.0.profiles ≡ d.profiles_in goal.1))
          (sym e) (agent_refines cs o.state next.0 next.1 l m)
