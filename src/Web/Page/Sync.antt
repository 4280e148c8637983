-- ===== src/Web/Page/Sync.antt =====
-- Pages whose handlers reload, against a server that keeps what they show: each handler is run to its
-- end before the next one.
use proxer.Base.{false, ◌≡◌, refl, subst, sym, ◌∙◌, ap, ◌⊎◌, inl, inr, map, List, [], ◌∷◌}
use proxer.Effect.{Thrown, done, Result, ok, fail, Ask, Replies}
use proxer.Effect.Run.{Server, serve_all, run, run_all}
use proxer.Web.Types.{Shape, Of, Action}
use proxer.Web.Page.{Page, load_page, mutate}
use proxer.Web.Page.Laws.{load_page_lem, mutate_refused, mutate_accepted}

-- A handler's request, and what it sets when the request has succeeded.
pub record Change (D : Type 0) : Type 0 where
  pub ask : Ask Shape
  pub then_set : Of ask.0 → Page D → Page D

-- A server whose state `w` holds what the page of these requests shows, `shown w`: reading changes
-- nothing, and a change that is refused changes nothing either.
pub record Backing (W D C : Type 0) (change : C → Change D) (asks : List (Ask Shape))
    (refill : Replies Shape Of asks → D → D) : Type 0 where
  pub server : Server Shape Of W
  pub shown : W → D
  pub replies : W → Replies Shape Of asks
  pub fetched : (w : W) → serve_all server asks w ≡ (ok (replies w), w)
  pub stored : (w : W) (d : D) → refill (replies w) d ≡ shown w
  pub refused :
      (c : C) (w : W) (e : Thrown)
      → (server (change c).ask.0 (change c).ask.1 w).0 ≡ fail e
      → (server (change c).ask.0 (change c).ask.1 w).1 ≡ w

result_cases : {A : Type 0} (x : Result A) → ((a : A) × (x ≡ ok a)) ⊎ ((e : Thrown) × (x ≡ fail e))
result_cases (ok a) = inl (a, refl)
result_cases (fail e) = inr (e, refl)

module _ {W D C : Type 0} {change : C → Change D} {asks : List (Ask Shape)}
    {refill : Replies Shape Of asks → D → D} (b : Backing W D C change asks refill) where
  abbrev pub InSync : W → Page D → Type 0
  InSync w s = (s.loading ≡ false) × (s.error ≡ "") × (s.content ≡ b.shown w)

  abbrev pub perform : C → Action (Page D)
  perform c = mutate (change c).ask (change c).then_set (load_page asks refill)

  -- the abstract view of a change: what the server makes of its request
  abbrev pub apply : C → W → W
  apply c w = (b.server (change c).ask.0 (change c).ask.1 w).1

  load-InSync :
      (s : Page D) (w : W)
      → ((run b.server (load_page asks refill) s w).world ≡ w)
        × InSync w (run b.server (load_page asks refill) s w).state
  load-InSync s w =
      rw (load_page_lem b.server asks refill s w)
        (rw (b.fetched w) (refl, (refl, refl, b.stored w s.content)))

  module _ (c : C) (s : Page D) (w : W) where
    abbrev after : Page D × W
    after = let o = run b.server (perform c) s w in (o.state, o.world)

    abbrev Done : Type 0
    Done = (after.1 ≡ apply c w) × InSync (apply c w) after.0

    accepted-InSync :
        (x : Of (change c).ask.0) → (b.server (change c).ask.0 (change c).ask.1 w).0 ≡ ok x → Done
    accepted-InSync x h =
        rw
          (mutate_accepted b.server (change c).ask (change c).then_set (done tt) s w (apply c w)
            asks refill x (ap (λ y. (y, apply c w)) h))
          (rw (b.fetched (apply c w)) (refl, (refl, refl, b.stored (apply c w) _)))

    refused-InSync :
        (e : Thrown) → InSync w s → (b.server (change c).ask.0 (change c).ask.1 w).0 ≡ fail e → Done
    refused-InSync e (l, m, n) h =
        rw
          (mutate_refused b.server (change c).ask (change c).then_set (load_page asks refill) s w
            (apply c w) e (ap (λ y. (y, apply c w)) h))
          (refl, (l, m, rw (b.refused c w e h) n))

    perform-InSync : InSync w s → Done
    perform-InSync h = elim (result_cases (b.server (change c).ask.0 (change c).ask.1 w).0) [
      | inl (x, e) ↦ accepted-InSync x e
      | inr (x, e) ↦ refused-InSync x h e
    ]

  abbrev pub apply_all : List C → W → W
  apply_all [] w = w
  apply_all (c ∷ cs) w = apply_all cs (apply c w)

  run_all-InSync :
      (cs : List C) (s : Page D) (w : W)
      → InSync w s
      → let after = run_all b.server (map perform cs) s w in
        (after.1 ≡ apply_all cs w) × InSync after.1 after.0
  run_all-InSync [] s w h = (refl, h)
  run_all-InSync (c ∷ cs) s w h =
      let o = run b.server (perform c) s w in
      let (e, k) = perform-InSync c s w h in
      let (f, l) = run_all-InSync cs o.state o.world (subst (λ v. InSync v o.state) (sym e) k) in
      (f ∙ ap (apply_all cs) e, l)

  -- After its load and any handlers the page shows what the server has made of their requests.
  pub load-run_all :
      (cs : List C) (s : Page D) (w : W)
      → let after = run_all b.server (load_page asks refill ∷ map perform cs) s w in
        (after.1 ≡ apply_all cs w) × InSync (apply_all cs w) after.0
  load-run_all cs s w =
      let o = run b.server (load_page asks refill) s w in
      let (e, k) = load-InSync s w in
      let (f, l) = run_all-InSync cs o.state o.world (subst (λ v. InSync v o.state) (sym e) k) in
      let g = f ∙ ap (apply_all cs) e in
      (g, subst (λ v. InSync v (run_all b.server (map perform cs) o.state o.world).0) g l)
