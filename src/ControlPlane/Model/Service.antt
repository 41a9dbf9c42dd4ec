-- ===== src/ControlPlane/Model/Service.antt =====
-- control-plane/internal/model/service.go.
use backend_infra_platform.Base.{ℤ, String}
use backend_infra_platform.Base.SyncMap.{SyncMap}
use backend_infra_platform.ControlPlane.Model.Deployment.{Time}

pub data LoadBalanceStrategy : Type 0 where
  round_robin least_conn weighted_round_robin : LoadBalanceStrategy
  other : String → LoadBalanceStrategy

pub record RetryPolicy : Type 0 where
  pub max_attempts : ℤ
  pub per_try_timeout_ms : ℤ

pub record HealthCheckConfig : Type 0 where
  pub path : String
  pub interval_seconds : ℤ

pub record BackendSpec : Type 0 where
  pub name : String
  pub url : String
  pub weight : ℤ

pub record Service : Type 0 where
  pub id : String
  pub name : String
  pub namespace : String
  pub path_prefix : String
  pub strategy : LoadBalanceStrategy
  pub selector : SyncMap String
  pub retry_policy : RetryPolicy
  pub health_check : HealthCheckConfig
  pub updated_at : Time
