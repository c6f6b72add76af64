-- ===== src/Http/Routes.antt =====
-- The table of routes of `NewServer` in internal/transport/httpapi/server.go.
use drone_management_system.Auth.{Authenticator, Jwt}
use drone_management_system.Float64.{Float64}
use drone_management_system.Domain.{Time, role_admin, role_end_user, role_drone}
use drone_management_system.Eta.{OrderView, FloatOps}
use drone_management_system.Exec.{State, Env}
use drone_management_system.Http.{
  handle_admin_drone_fixed, handle_admin_drone_broken, handle_admin_list_drones,
  handle_admin_update_order, handle_admin_list_orders, handle_get_order, handle_withdraw_order,
  handle_submit_order, handle_drone_current_order, handle_drone_heartbeat, handle_drone_broken, Web,
  router_body, handle_drone_fail, responded, handle_drone_deliver, HttpReply, handle_drone_pickup,
  HttpHandler, handle_drone_reserve, require_role, HttpRequest, handle_issue_token,
}
use drone_management_system.Base.{ℕ, Bool, Option, List, [], ◌∷◌, String, some, none}

pub data Endpoint : Type 0 where
  issue_token drone_reserve drone_pickup drone_deliver drone_fail drone_broken drone_heartbeat
        drone_current_order submit_order withdraw_order get_order admin_list_orders
        admin_update_order admin_list_drones admin_drone_broken admin_drone_fixed :
      Endpoint

-- A verb, the pattern under the prefixes of its groups, and the handler.
pub record Route : Type 0 where
  pub verb : String
  pub pattern : String
  pub endpoint : Endpoint

abbrev pub routes : List Route
routes =
    record { verb = "POST"; pattern = "/auth/token"; endpoint = issue_token }
    ∷ record { verb = "POST"; pattern = "/drone/jobs/reserve"; endpoint = drone_reserve }
    ∷ record { verb = "POST"; pattern = "/drone/orders/{id}/pickup"; endpoint = drone_pickup }
    ∷ record { verb = "POST"; pattern = "/drone/orders/{id}/deliver"; endpoint = drone_deliver }
    ∷ record { verb = "POST"; pattern = "/drone/orders/{id}/fail"; endpoint = drone_fail }
    ∷ record { verb = "POST"; pattern = "/drone/broken"; endpoint = drone_broken }
    ∷ record { verb = "POST"; pattern = "/drone/heartbeat"; endpoint = drone_heartbeat }
    ∷ record { verb = "GET"; pattern = "/drone/orders/current"; endpoint = drone_current_order }
    ∷ record { verb = "POST"; pattern = "/orders/"; endpoint = submit_order }
    ∷ record { verb = "POST"; pattern = "/orders/{id}/withdraw"; endpoint = withdraw_order }
    ∷ record { verb = "GET"; pattern = "/orders/{id}"; endpoint = get_order }
    ∷ record { verb = "GET"; pattern = "/admin/orders"; endpoint = admin_list_orders }
    ∷ record { verb = "PATCH"; pattern = "/admin/orders/{id}"; endpoint = admin_update_order }
    ∷ record { verb = "GET"; pattern = "/admin/drones"; endpoint = admin_list_drones }
    ∷ record { verb = "POST"; pattern = "/admin/drones/{id}/broken"; endpoint = admin_drone_broken }
    ∷ record { verb = "POST"; pattern = "/admin/drones/{id}/fixed"; endpoint = admin_drone_fixed }
    ∷ []

-- The role that the middleware of the group asks for.
abbrev pub group_role : Endpoint → Option String
group_role issue_token = none
group_role drone_reserve = some role_drone
group_role drone_pickup = some role_drone
group_role drone_deliver = some role_drone
group_role drone_fail = some role_drone
group_role drone_broken = some role_drone
group_role drone_heartbeat = some role_drone
group_role drone_current_order = some role_drone
group_role submit_order = some role_end_user
group_role withdraw_order = some role_end_user
group_role get_order = some role_end_user
group_role admin_list_orders = some role_admin
group_role admin_update_order = some role_admin
group_role admin_list_drones = some role_admin
group_role admin_drone_broken = some role_admin
group_role admin_drone_fixed = some role_admin

-- The server, with what it is built from and the libraries that it calls. `find_route` is the router:
-- the endpoint and the `{id}` for a verb and a path, or none; `not_routed` is its reply then.
pub record HttpServer : Type 0 where
  pub env : Env
  pub ops : FloatOps
  pub speed : Float64
  pub sort_slice : (OrderView → OrderView → Bool) → List OrderView → List OrderView
  pub web : Web
  pub jwt : Jwt
  pub auth : Authenticator
  pub now : Time
  pub find_route : List Route → String → String → Option (Endpoint × String)
  pub not_routed : ℕ

unfoldable pub endpoint_handler : HttpServer → Endpoint → HttpHandler
unfolding handle_issue_token handle_drone_reserve handle_drone_pickup handle_drone_deliver
    handle_drone_fail handle_drone_broken handle_drone_heartbeat handle_drone_current_order
    handle_submit_order handle_withdraw_order handle_get_order handle_admin_list_orders
    handle_admin_update_order handle_admin_list_drones handle_admin_drone_broken
    handle_admin_drone_fixed
endpoint_handler srv issue_token = handle_issue_token srv.jwt srv.auth srv.now srv.web
endpoint_handler srv drone_reserve =
    handle_drone_reserve srv.env srv.ops srv.speed srv.sort_slice srv.web
endpoint_handler srv drone_pickup =
    handle_drone_pickup srv.env srv.ops srv.speed srv.sort_slice srv.web
endpoint_handler srv drone_deliver =
    handle_drone_deliver srv.env srv.ops srv.speed srv.sort_slice srv.web
endpoint_handler srv drone_fail = handle_drone_fail srv.env srv.ops srv.speed srv.sort_slice srv.web
endpoint_handler srv drone_broken =
    handle_drone_broken srv.env srv.ops srv.speed srv.sort_slice srv.web
endpoint_handler srv drone_heartbeat =
    handle_drone_heartbeat srv.env srv.ops srv.speed srv.sort_slice srv.web
endpoint_handler srv drone_current_order =
    handle_drone_current_order srv.env srv.ops srv.speed srv.sort_slice srv.web
endpoint_handler srv submit_order =
    handle_submit_order srv.env srv.ops srv.speed srv.sort_slice srv.web
endpoint_handler srv withdraw_order =
    handle_withdraw_order srv.env srv.ops srv.speed srv.sort_slice srv.web
endpoint_handler srv get_order = handle_get_order srv.env srv.ops srv.speed srv.sort_slice srv.web
endpoint_handler srv admin_list_orders =
    handle_admin_list_orders srv.env srv.ops srv.speed srv.sort_slice srv.web
endpoint_handler srv admin_update_order =
    handle_admin_update_order srv.env srv.ops srv.speed srv.sort_slice srv.web
endpoint_handler srv admin_list_drones =
    handle_admin_list_drones srv.env srv.ops srv.speed srv.sort_slice srv.web
endpoint_handler srv admin_drone_broken =
    handle_admin_drone_broken srv.env srv.ops srv.speed srv.sort_slice srv.web
endpoint_handler srv admin_drone_fixed =
    handle_admin_drone_fixed srv.env srv.ops srv.speed srv.sort_slice srv.web

-- `r.Use(s.requireRole(…))` before the handlers of a group.
abbrev pub behind_role :
    HttpServer → Option String → HttpHandler → HttpRequest → State → HttpReply × State
behind_role srv none handler r s = handler none r s
behind_role srv (some role) handler r s = require_role srv.jwt srv.auth srv.now role handler r s

abbrev pub serve_endpoint : HttpServer → Endpoint → HttpRequest → State → HttpReply × State
serve_endpoint srv e r s = behind_role srv (group_role e) (endpoint_handler srv e) r s

abbrev pub routed :
    HttpServer → Option (Endpoint × String) → HttpRequest → State → HttpReply × State
routed srv none r s = (responded srv.not_routed router_body, s)
routed srv (some (e, id)) r s = serve_endpoint srv e (record r { id = id }) s

unfoldable pub serve_http : HttpServer → String → String → HttpRequest → State → HttpReply × State
unfolding endpoint_handler require_role
serve_http srv verb path r s = routed srv (srv.find_route routes verb path) r s
