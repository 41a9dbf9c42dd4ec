-- ===== src/ControlPlane/Api/Submit.antt =====
-- A deployment from its submission to its cancellation.
use backend_infra_platform.Base.{
  ℕ, zero, suc, ◌≤◌, ◌<◌, pos, ◌≤ℤ◌, leb_ℤ, ◌&&◌, false, String, true, List, [], ◌∷◌, ◌++◌, map,
  Option, none, some, ◌≡◌, ◌≢◌, refl, arith, str_eq, eq_refl, All, length, if◌then◌else◌,
  text_append,
}
use backend_infra_platform.Base.SyncMap.{load, store, load-store}
use backend_infra_platform.ControlPlane.Model.Deployment.{
  Time, Deployment, DeploymentStatus, DeploymentType, RestartPolicy, can_transition_deployment,
}
use backend_infra_platform.ControlPlane.State.{
  MemoryStore, ok, err, already_exists, invalid_transition,
}
use backend_infra_platform.ControlPlane.State.Deployments.{
  create_deployment, get_deployment, transition_deployment,
}
use backend_infra_platform.ControlPlane.Api.{Body, write_json, write_json_error}
use backend_infra_platform.ControlPlane.Api.Nodes.{Allocation}
use backend_infra_platform.ControlPlane.Api.Deployments.{
  SubmitDeploymentRequest, with_defaults, new_deployment, allocate_deployment, answer_created,
  is_incomplete, is_empty_type, is_empty_policy, create_deployment_handler, cancel_deployment,
  cancel_error,
}

-- Some deployment has the identifier.
abbrev pub IsTaken : MemoryStore → String → Type 0
IsTaken s id = (d : Deployment) × (load id s.deployments ≡ some d)

create_deployment_new :
    (d : Deployment) (s : MemoryStore)
    → load d.id s.deployments ≡ none
    → create_deployment d s ≡ ok (record s { deployments = store d.id d s.deployments })
unfolding create_deployment
create_deployment_new d s h = ground arith

create_deployment_taken :
    (d : Deployment) (s : MemoryStore) → IsTaken s d.id → create_deployment d s ≡ err already_exists
unfolding create_deployment
create_deployment_taken d s (old, h) = ground arith

get_deployment_found :
    (id : String) (s : MemoryStore) (d : Deployment)
    → load id s.deployments ≡ some d
    → get_deployment id s ≡ ok d
unfolding get_deployment
get_deployment_found id s d h = ground arith

module _ (now : Time) (req : SubmitDeploymentRequest) (s : MemoryStore) (id : String) where
  with_new : MemoryStore
  with_new = record s { deployments = store id (new_deployment now req id) s.deployments }

  allocate_deployment-skips :
      (n : ℕ) (taken : List String) (rest : List (Option String))
      → length taken < n
      → All (IsTaken s) taken
      → load id s.deployments ≡ none
      → allocate_deployment now req n (map some taken ++ some id ∷ rest) s
        ≡ Allocation.allocated id with_new
  unfolding allocate_deployment new_deployment with_new
  allocate_deployment-skips zero taken rest le h f = absurd (omega arith)
  allocate_deployment-skips (suc n) [] rest le h f =
      rw (create_deployment_new (new_deployment now req id) s f, allocate_deployment) refl
  allocate_deployment-skips (suc n) (t ∷ taken) rest le h f =
      rw (create_deployment_taken (new_deployment now req t) s h.0, allocate_deployment)
        (allocate_deployment-skips n taken rest (omega arith) h.1 f)

-- What a request asks for, with what stands in for what it leaves out: namespace "default", one
-- replica, type BATCH, restart policy ON_FAILURE.
abbrev pub stands_in : String → String → String
stands_in otherwise given = if str_eq given "" then otherwise else given

abbrev pub type_asked : DeploymentType → DeploymentType
type_asked (DeploymentType.other given) =
    if str_eq given "" then DeploymentType.batch else DeploymentType.other given
type_asked t = t

abbrev pub policy_asked : RestartPolicy → RestartPolicy
policy_asked (RestartPolicy.other given) =
    if str_eq given "" then RestartPolicy.on_failure else RestartPolicy.other given
policy_asked p = p

abbrev pub as_requested : Time → SubmitDeploymentRequest → String → Deployment
as_requested now req id = record {
  id = id;
  name = req.name;
  namespace = stands_in "default" req.namespace;
  labels = req.labels;
  type = type_asked req.type;
  image = req.image;
  command = req.command;
  args = req.args;
  replicas = if leb_ℤ req.replicas (pos 0) then pos 1 else req.replicas;
  max_retries = req.max_retries;
  restart_policy = policy_asked req.restart_policy;
  resources = req.resources;
  status = DeploymentStatus.pending;
  created_at = now;
  updated_at = now;
}

requested_replicas :
    (now : Time) (req : SubmitDeploymentRequest) (id : String)
    → pos 1 ≤ℤ (as_requested now req id).replicas
requested_replicas now req id = ground arith

type_eq :
    (t : DeploymentType) → (if is_empty_type t then DeploymentType.batch else t) ≡ type_asked t
unfolding is_empty_type
type_eq DeploymentType.batch = refl
type_eq DeploymentType.service = refl
type_eq (DeploymentType.other given) = refl

policy_eq :
    (p : RestartPolicy)
    → (if is_empty_policy p then RestartPolicy.on_failure else p) ≡ policy_asked p
unfolding is_empty_policy
policy_eq RestartPolicy.never = refl
policy_eq RestartPolicy.on_failure = refl
policy_eq RestartPolicy.always = refl
policy_eq (RestartPolicy.other given) = refl

created_eq :
    (now : Time) (req : SubmitDeploymentRequest) (id : String)
    → new_deployment now (with_defaults req) id ≡ as_requested now req id
unfolding new_deployment with_defaults
created_eq now req id = rw (type_eq req.type, policy_eq req.restart_policy) refl

-- Let a request give a name, and a command or an image. If at most four of the drawn identifiers are
-- taken before one is drawn that is free and not empty, the request is answered with 201, the
-- location of that identifier and the deployment, and the store has gained exactly that deployment,
-- under that identifier. It has the name, labels, image, command, arguments, retries and resources
-- of the request; the namespace, type and restart policy of the request, or "default", BATCH and
-- ON_FAILURE where those are empty; the replicas of the request, or 1 where those are not positive,
-- so at least one; the status PENDING; and the time of the call as creation and update time.
pub create_deployment_handler-created :
    (now : Time) (req : SubmitDeploymentRequest) (s : MemoryStore) (id : String)
    (taken : List String) (rest : List (Option String))
    → str_eq req.name "" ≡ false
    → (str_eq req.command "" && str_eq req.image "") ≡ false
    → length taken ≤ 4
    → All (IsTaken s) taken
    → load id s.deployments ≡ none
    → str_eq id "" ≡ false
    → let d = as_requested now req id in
      let after = create_deployment_handler now (map some taken ++ some id ∷ rest) (some req) s in
      (after.0 ≡ record s { deployments = store id d s.deployments })
      × (after.1 ≡ record {
        status = 201;
        location = text_append "/api/v1/deployments/" id;
        body = Body.one_deployment d;
      })
      × (pos 1 ≤ℤ d.replicas)
unfolding create_deployment_handler is_incomplete with_new answer_created write_json
create_deployment_handler-created now req s id taken rest has_name has_work few h free named =
    let d = as_requested now req id in
    let s' : MemoryStore = record s { deployments = store id d s.deployments } in
    let there : load id s'.deployments ≡ some d = rw (load-store, eq_refl) refl in
    rw (has_name, has_work)
      (rw
        (
          allocate_deployment-skips now (with_defaults req) s id 5 taken rest (omega arith) h free,
          create_deployment_handler,
        )
        (rw (created_eq now req id, named)
          (
            refl,
            rw (get_deployment_found id s' d there, answer_created) refl,
            requested_replicas now req id,
          )))

transition_deployment_found :
    (now : Time) (id : String) (to : DeploymentStatus) (s : MemoryStore) (d : Deployment)
    → load id s.deployments ≡ some d
    → transition_deployment now id to s ≡ (
        if can_transition_deployment d.status to
        then ok (record s {
          deployments = store id (record d { status = to; updated_at = now }) s.deployments;
        })
        else err invalid_transition)
unfolding transition_deployment
transition_deployment_found now id to s d h = rw (h, transition_deployment) refl

may_cancel :
    (status : DeploymentStatus)
    → status ≢ DeploymentStatus.cancelled
    → can_transition_deployment status DeploymentStatus.cancelled ≡ true
unfolding can_transition_deployment
may_cancel status h = ground arith

abbrev cancelled_at : Time → String → Deployment → MemoryStore → MemoryStore
cancelled_at now id d s = record s {
  deployments =
      store id (record d { status = DeploymentStatus.cancelled; updated_at = now }) s.deployments;
}

cancel_deployment_live :
    (now : Time) (id : String) (d : Deployment) (s : MemoryStore)
    → load id s.deployments ≡ some d
    → d.status ≢ DeploymentStatus.cancelled
    → ((cancel_deployment now id s).0 ≡ cancelled_at now id d s)
      × ((cancel_deployment now id s).1.status ≡ 200)
unfolding cancel_deployment write_json
cancel_deployment_live now id d s found live =
    rw (get_deployment_found id s d found, cancel_deployment)
      (rw
        (transition_deployment_found now id DeploymentStatus.cancelled s d found, cancel_deployment)
        (rw (may_cancel d.status live) (refl, refl)))

cancel_deployment_cancelled :
    (now : Time) (id : String) (d : Deployment) (s : MemoryStore)
    → load id s.deployments ≡ some (record d { status = DeploymentStatus.cancelled })
    → ((cancel_deployment now id s).0 ≡ s) × ((cancel_deployment now id s).1.status ≡ 409)
unfolding cancel_deployment cancel_error write_json write_json_error can_transition_deployment
cancel_deployment_cancelled now id d s found =
    let d' : Deployment = record d { status = DeploymentStatus.cancelled } in
    rw (get_deployment_found id s d' found, cancel_deployment)
      (rw
        (
          transition_deployment_found now id DeploymentStatus.cancelled s d' found,
          cancel_deployment,
        )
        (refl, refl))

-- The first cancellation of a stored deployment that is not cancelled is answered with 200 and
-- leaves it cancelled, with the time of the call. Every cancellation of it from there on, at any
-- time, is answered with 409 and changes nothing.
pub cancel_deployment-once :
    (now later : Time) (id : String) (d : Deployment) (s : MemoryStore)
    → load id s.deployments ≡ some d
    → d.status ≢ DeploymentStatus.cancelled
    → let first = cancel_deployment now id s in
      let second = cancel_deployment later id first.0 in
      (load id first.0.deployments
        ≡ some (record d { status = DeploymentStatus.cancelled; updated_at = now }))
      × (first.1.status ≡ 200)
      × (second.0 ≡ first.0)
      × (second.1.status ≡ 409)
cancel_deployment-once now later id d s found live =
    let (e, ok₁) = cancel_deployment_live now id d s found live in
    let there : load id (cancelled_at now id d s).deployments
        ≡ some (record d { status = DeploymentStatus.cancelled; updated_at = now }) =
      rw (load-store, eq_refl) refl in
    let (e', ok₂) =
      cancel_deployment_cancelled later id (record d { updated_at = now }) (cancelled_at now id d s)
        there in
    rw e (there, ok₁, e', ok₂)
