-- ===== src/Web/Page/Laws.antt =====
-- What a page's `load` and its other handlers leave behind, for every page at once.
use proxer.Base.{false, ◌≡◌, List, [], ◌∷◌, ◌++◌, arith}
use proxer.Effect.{Thrown, ok, fail, Ask, Replies}
use proxer.Effect.Run.{Server, serve_all, requests, run}
use proxer.Web.Types.{Shape, Of, Action}
use proxer.Web.Format.{to_error_message}
use proxer.Web.Page.{Page, load_page, mutate, set_message}

module _ {W D : Type 0} (server : Server Shape Of W) where
  -- Once `load` has ended the page is not loading; either all replies came, they are stored and no
  -- error is shown, or one failed, its text is shown and the content is what it was. It throws
  -- nothing, and sends each request once.
  pub load_page_lem :
      (asks : List (Ask Shape)) (store : Replies Shape Of asks → D → D) (s : Page D) (w : W)
      → run server (load_page asks store) s w ≡ record {
        result = ok tt;
        state = record s {
          loading = false;
          error = elim (serve_all server asks w).0 [ ok x ↦ "" | fail e ↦ to_error_message e ];
          content = elim (serve_all server asks w).0 [
            | ok x ↦ store x s.content
            | fail e ↦ s.content
          ];
        };
        world = (serve_all server asks w).1;
        sent = requests asks ++ [];
      }
  unfolding load_page
  load_page_lem asks store s w = ground arith

  module _ (ask : Ask Shape) (store : Of ask.0 → Page D → Page D) (after : Action (Page D))
      (s : Page D) (w w' : W) where
    -- A request that fails changes the message of the page and nothing else, and `after` is not run.
    pub mutate_refused :
        (e : Thrown)
        → server ask.0 ask.1 w ≡ (fail e, w')
        → run server (mutate ask store after) s w ≡ record {
          result = ok tt;
          state = set_message (to_error_message e) s;
          world = w';
          sent = ask.1 ∷ [];
        }
    unfolding mutate
    mutate_refused e h = ground arith

    -- A request that succeeds is stored and followed by a load: the message is what `store` leaves,
    -- the content is what the load stores, or what `store` left if the load fails, and an error of
    -- the load is shown as the page's error.
    pub mutate_accepted :
        (asks : List (Ask Shape)) (refill : Replies Shape Of asks → D → D) (x : Of ask.0)
        → server ask.0 ask.1 w ≡ (ok x, w')
        → run server (mutate ask store (load_page asks refill)) s w ≡ (
            let stored : Page D = store x (set_message "" s) in
            record {
              result = ok tt;
              state = record stored {
                loading = false;
                error = elim (serve_all server asks w').0 [
                  | ok y ↦ ""
                  | fail e ↦ to_error_message e
                ];
                content = elim (serve_all server asks w').0 [
                  | ok y ↦ refill y stored.content
                  | fail e ↦ stored.content
                ];
              };
              world = (serve_all server asks w').1;
              sent = ask.1 ∷ requests asks ++ [];
            })
    unfolding mutate load_page
    mutate_accepted asks refill x h = ground arith
