-- ===== src/Web/Page/Settled.antt =====
-- A page's `loading` when its handlers overlap.
use proxer.Base.{false, ◌≡◌, refl, List, All}
use proxer.Effect.{Ask, Replies, done, modify}
use proxer.Effect.Safe.{Answers, returns, sets, awaits}
use proxer.Effect.Settle.{
  Clears, later, Settles, keeps, clears, behind, replied, finally-Clears, try_catch-Clears,
}
use proxer.Effect.Settle.Laws.{IsOver, opened, Reach-settled}
use proxer.Effect.Pool.{Machine, Reach}
use proxer.Web.Types.{Shape, Of, Action}
use proxer.Web.Page.{Page, load_page, mutate}

module _ (D : Type 0) where
  -- What a page can start: its `load`, a handler that reloads, a handler that does not, and a change
  -- of its inputs.
  pub data Starts (s : Page D) : Action (Page D) → Type 0 where
    loads :
        (asks : List (Ask Shape)) (store : Replies Shape Of asks → D → D)
        → Starts s (load_page asks store)
    reloads :
        (ask : Ask Shape) (store : Of ask.0 → Page D → Page D) (asks : List (Ask Shape))
        (refill : Replies Shape Of asks → D → D)
        → ((x : Of ask.0) (t : Page D) → (store x t).loading ≡ t.loading)
        → Starts s (mutate ask store (load_page asks refill))
    sends :
        (ask : Ask Shape) (store : Of ask.0 → Page D → Page D)
        → ((x : Of ask.0) (t : Page D) → (store x t).loading ≡ t.loading)
        → Starts s (mutate ask store (done tt))
    edits : (g : Page D → Page D) → ((t : Page D) → (g t).loading ≡ t.loading) → Starts s (modify g)

  abbrev pub Loaded : Page D → Type 0
  Loaded s = s.loading ≡ false

  abbrev pub AnyReply : Answers Shape Of
  AnyReply asks x = Unit {0}

  load_page-Clears :
      (asks : List (Ask Shape)) (store : Replies Shape Of asks → D → D)
      → Clears Loaded AnyReply (load_page asks store)
  unfolding load_page
  load_page-Clears asks store = later _ _ (
      finally-Clears _ _
        (awaits asks _ (λ x y. sets _ _ (λ s h. h) (returns tt))
          (λ e. sets _ _ (λ s h. h) (returns tt)))
        (λ s. refl))

  keeps_loading :
      (store : Page D → Page D)
      → ((t : Page D) → (store t).loading ≡ t.loading)
      → (s : Page D) → Loaded s
      → Loaded (store s)
  keeps_loading store same s h = cc (same s)

  Starts-Settles : (s : Page D) (p : Action (Page D)) → Starts s p → Settles Loaded AnyReply p
  unfolding mutate
  Starts-Settles s p (loads asks store) = clears _ (load_page-Clears asks store)
  Starts-Settles s p (reloads ask store asks refill same) =
      behind _ _ (λ t h. h)
        (replied _ _
          (λ x y. behind _ _ (keeps_loading (store x.0) (same x.0)) (
            clears _ (
              try_catch-Clears _ _ (load_page-Clears asks refill)
                (λ e. sets _ _ (λ t h. h) (returns tt)))))
          (λ e. keeps _ (sets _ _ (λ t h. h) (returns tt))))
  Starts-Settles s p (sends ask store same) = keeps _ (
      sets _ _ (λ t h. h)
        (awaits _ _ (λ x y. sets _ _ (keeps_loading (store x.0) (same x.0)) (returns tt))
          (λ e. sets _ _ (λ t h. h) (returns tt))))
  Starts-Settles s p (edits g same) = keeps _ (sets _ _ (keeps_loading g same) (returns tt))

  -- A page that opens with `load` is never left loading: whatever handlers the user starts meanwhile,
  -- if what they store on success leaves `loading` alone, and whatever the server answers and in
  -- whatever order, the page is not loading once all of them have ended.
  pub page_settles :
      (s : Page D) (asks : List (Ask Shape)) (store : Replies Shape Of asks → D → D)
      (m : Machine Shape Of (Page D))
      → Reach Starts AnyReply (opened s (load_page asks store)) m
      → All IsOver m.tasks
      → m.state.loading ≡ false
  page_settles s asks store m r o =
      Reach-settled Loaded AnyReply Starts Starts-Settles s (load_page asks store) m
        (load_page-Clears asks store) r o
