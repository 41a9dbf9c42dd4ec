-- ===== src/ControlPlane/Api/Services.antt =====
-- control-plane/internal/api: handlers_proxy.go and service_resolve.go.
use backend_infra_platform.Base.{
  text_append, pos, String, Bool, false, List, [], ◌∷◌, Option, none, some, str_eq, if◌then◌else◌,
  keep, length,
}
use backend_infra_platform.ControlPlane.Model.Deployment.{Time}
use backend_infra_platform.ControlPlane.Model.Node.{Node, NodeStatus, node_status_eq}
use backend_infra_platform.ControlPlane.Model.Service.{Service, BackendSpec, LoadBalanceStrategy}
use backend_infra_platform.ControlPlane.State.{MemoryStore, StoreError, not_found, ok, err}
use backend_infra_platform.ControlPlane.State.Nodes.{list_nodes, list_nodes_by_labels}
use backend_infra_platform.ControlPlane.State.Services.{
  upsert_service, get_service, list_services, delete_service,
}
use backend_infra_platform.ControlPlane.Api.{
  Body, Response, write_json, write_json_error, error_text, body_of,
}

unfoldable pub backend_of : Node → BackendSpec
backend_of n = record { name = n.id; url = n.address; weight = pos 1 }

-- The loop that two handlers share: the healthy nodes, each as a backend.
unfoldable pub healthy_backends : List Node → List BackendSpec
unfolding backend_of node_status_eq
healthy_backends [] = []
healthy_backends (n ∷ ns) =
    let rest = healthy_backends ns in
    if node_status_eq n.status NodeStatus.healthy then backend_of n ∷ rest else rest

unfoldable pub resolve_service_backends : Service → MemoryStore → List BackendSpec
resolve_service_backends svc s = healthy_backends (list_nodes_by_labels svc.selector s)

unfoldable pub list_services_handler : String → MemoryStore → Response
list_services_handler ns s =
    let services = list_services s in
    let shown =
      if str_eq ns "" then services else keep (λ (v : Service). str_eq v.namespace ns) services in
    write_json 200 (Body.all_services shown (some (length shown)))

unfoldable pub is_empty_strategy : LoadBalanceStrategy → Bool
is_empty_strategy (LoadBalanceStrategy.other t) = str_eq t ""
is_empty_strategy _ = false

unfoldable pub service_defaults : Service → Service
unfolding is_empty_strategy
service_defaults svc = record svc {
  strategy =
      if is_empty_strategy svc.strategy then LoadBalanceStrategy.round_robin else svc.strategy;
  namespace = if str_eq svc.namespace "" then "default" else svc.namespace;
}

-- From the defaults on, for a service that has its identifier.
unfoldable pub save_service : Time → Service → MemoryStore → MemoryStore × Response
unfolding service_defaults
save_service now svc s = elim (upsert_service now (service_defaults svc) s) [
  | err e ↦ (s, write_json_error 500 (error_text e))
  | ok s' ↦ (
    s',
    record (write_json 201 (body_of Body.one_service (get_service svc.id s'))) {
      location = text_append "/api/v1/services/" svc.id;
    },
  )
]

-- `drawn` is what `generateID` gives, if it is asked.
unfoldable pub create_service :
    Time → Option String → Option Service → MemoryStore → MemoryStore × Response
unfolding save_service
create_service now drawn none s = (s, write_json_error 400 "invalid JSON body")
create_service now drawn (some svc) s =
    if str_eq svc.path_prefix ""
    then (s, write_json_error 400 "path_prefix is required")
    else if str_eq svc.id ""
    then elim drawn [
      | none ↦ (s, write_json_error 500 "failed to generate service id")
      | some id ↦ save_service now (record svc { id = id }) s
    ]
    else save_service now svc s

unfoldable pub get_service_handler : String → MemoryStore → Response
get_service_handler id s = elim (get_service id s) [
  | err _ ↦ write_json_error 404 "service not found"
  | ok svc ↦ write_json 200 (Body.one_service svc)
]

replace_service : Time → String → Option Service → MemoryStore → MemoryStore × Response
replace_service now id none s = (s, write_json_error 400 "invalid JSON body")
replace_service now id (some svc) s = elim (upsert_service now (record svc { id = id }) s) [
  | err e ↦ (s, write_json_error 500 (error_text e))
  | ok s' ↦ (s', write_json 200 (body_of Body.one_service (get_service id s')))
]

unfoldable pub update_service :
    Time → String → Option Service → MemoryStore → MemoryStore × Response
unfolding replace_service
update_service now id svc s = elim (get_service id s) [
  | err _ ↦ (s, write_json_error 404 "service not found")
  | ok _ ↦ replace_service now id svc s
]

delete_error : StoreError → Response
delete_error not_found = write_json_error 404 "service not found"
delete_error e = write_json_error 500 (error_text e)

unfoldable pub delete_service_handler : String → MemoryStore → MemoryStore × Response
unfolding delete_error write_json
delete_service_handler id s = elim (delete_service id s) [
  | err e ↦ (s, delete_error e)
  | ok s' ↦ (s', write_json 204 Body.no_content)
]

unfoldable pub get_service_backends : String → MemoryStore → Response
get_service_backends id s = elim (get_service id s) [
  | err _ ↦ write_json_error 404 "service not found"
  | ok svc ↦
      let backends = resolve_service_backends svc s in
      write_json 200 (Body.all_backends backends (some (length backends)))
]

unfoldable pub proxy_config : MemoryStore → Response
proxy_config s = write_json 200 (Body.all_services (list_services s) none)

-- `svc_id` is the query's `service`, "" if it has none.
unfoldable pub proxy_backends : String → MemoryStore → Response
proxy_backends svc_id s =
    if str_eq svc_id ""
    then write_json 200 (Body.all_backends (healthy_backends (list_nodes s)) none)
    else elim (get_service svc_id s) [
      | err _ ↦ write_json_error 404 "service not found"
      | ok svc ↦ write_json 200 (Body.all_backends (resolve_service_backends svc s) none)
    ]
