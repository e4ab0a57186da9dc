-- ===== src/LiveServer/Server.antt =====
-- The wrappers and the routes of extension/tools/cmd/live-server/main.go.
use mindorr.Prelude.{not, ◌&&◌, [], ◌==◌, none, if◌then◌else◌}
use mindorr.Text.{is_empty}
use mindorr.LiveServer.Handlers.{handle_health, handle_onboard, handle_allocate, handle_withdraw}
use mindorr.LiveServer.Requests.{Config, Request, Writer, Service, set_header, write_err}

-- The response before a handler has written anything.
abbrev pub fresh : Writer
fresh = record { headers = []; code = 200; body = none }

module _ (cfg : Config) (s : Service) where
  open s use {proxy}
  open proxy use {World}

  abbrev pub Handler : Type 0
  Handler = Writer → Request → World → Writer × World

  -- `requireAuth`: an empty token in the configuration lets everybody pass.
  unfoldable pub require_auth : Handler → Handler
  require_auth next w r world =
      if not (is_empty cfg.auth_token) && not (r.token == cfg.auth_token)
      then (write_err 401 "unauthorized" w, world)
      else next w r world

  -- `withCORS`.
  unfoldable pub with_cors : Handler → Handler
  with_cors next w r world =
      let w' = record w {
        headers = set_header "Access-Control-Allow-Methods" "POST, GET, OPTIONS" (
            set_header "Access-Control-Allow-Headers" "Content-Type, X-Mindorr-Token"
              (set_header "Access-Control-Allow-Origin" "*" w.headers));
      } in
      if r.method == "OPTIONS" then (record w' { code = 204 }, world) else next w' r world

  -- The routes of `main`, by the exact path. Other paths get the answer of `http.ServeMux`.
  unfoldable pub serve : Request → World → Writer × World
  serve r world =
      if r.path == "/health"
      then with_cors (handle_health cfg s) fresh r world
      else if r.path == "/onboard"
      then with_cors (require_auth (handle_onboard cfg s)) fresh r world
      else if r.path == "/allocate"
      then with_cors (require_auth (handle_allocate cfg s)) fresh r world
      else if r.path == "/withdraw"
      then with_cors (require_auth (handle_withdraw cfg s)) fresh r world
      else (s.unrouted r, world)
