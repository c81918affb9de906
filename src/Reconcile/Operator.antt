-- ===== src/Reconcile/Operator.antt =====
-- NodeHealthCheckReconciler with what it is built from: the capabilities of the cluster, the state of
-- the MHC checker and the packages that it uses.
use node_healthcheck_operato.Prelude.{String, Bool, false, Option, none, some, str_append}
use node_healthcheck_operato.Api.{Node, NodeHealthCheck}
use node_healthcheck_operato.Conditions.{ConditionMeta}
use node_healthcheck_operato.Threshold.{IntStr}
use node_healthcheck_operato.Mhc.{MhcStatus}
use node_healthcheck_operato.Mhc
use node_healthcheck_operato.Cluster.{Error, Environment}
use node_healthcheck_operato.Manager.{Owner, Manager}
use node_healthcheck_operato.Manager.Healthy.{Rfc3339}
use node_healthcheck_operato.Remediate.Setup.{Reconciler}

-- `checker` is the state of the MHC checker, or `none` for the one that does nothing; it stays as it is
-- during a reconcile. `validity_message` is the text for a template that is not valid.
pub record Operator : Type 0 where
  pub environment : Environment
  pub has_machine_api : Bool
  pub is_on_openshift : Bool
  pub checker : Option MhcStatus
  pub clock : Rfc3339
  pub meta : ConditionMeta
  pub intstr : IntStr
  pub validity_message : String → Option Error → String

-- NeedDisableNHC and NeedIgnoreNode of the checker or of DummyChecker.
abbrev pub need_disable_nhc : Operator → Bool
need_disable_nhc o = elim o.checker [ none ↦ false | some status ↦ Mhc.need_disable_nhc status ]

abbrev pub need_ignore_node : Operator → Node → Bool
need_ignore_node o node = elim o.checker [
  | none ↦ false
  | some status ↦ Mhc.need_ignore_node status node
]

-- NewManager for a NodeHealthCheck, with its lease holder and the healthy delay in its context.
abbrev pub lease_holder_ident : NodeHealthCheck → String
lease_holder_ident nhc = str_append "NodeHealthCheck-" nhc.name

abbrev pub owner_of : Environment → NodeHealthCheck → Owner
owner_of env nhc = record {
  api_version = env.nhc_type.0;
  kind = env.nhc_type.1;
  name = nhc.name;
  uid = nhc.uid;
}

abbrev pub manager_for : Operator → NodeHealthCheck → Manager
manager_for o nhc = record {
  environment = o.environment;
  owner = owner_of o.environment nhc;
  holder_identity = lease_holder_ident nhc;
  healthy_delay = nhc.spec.healthy_delay;
}

abbrev pub reconciler_for : Operator → NodeHealthCheck → Reconciler
reconciler_for o nhc = record {
  manager = manager_for o nhc;
  has_machine_api = o.has_machine_api;
  is_on_openshift = o.is_on_openshift;
  clock = o.clock;
}
