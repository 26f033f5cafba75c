-- ===== src/Objects.antt =====
-- The Kubernetes objects that the operator reads and writes, with the fields that its code uses:
-- `Deployment`, `StatefulSet`, `CronJob`, `ServiceAccount`, `Role`, `RoleBinding`.
use kidle.Prelude.{String, Bool, refl, Option, List}
use kidle.Prelude.Int.{ℤ}
use kidle.Meta.{ObjectMeta, MetaObject}

-- `appsv1.Deployment` and `appsv1.StatefulSet`: `spec.replicas` is a pointer to an `int32`.
pub record Workload : Type 0 where
  pub meta : ObjectMeta
  pub replicas : Option ℤ

-- `corev1.Container`
pub record Container : Type 0 where
  pub name : String
  pub image : String
  pub args : List String

-- `batchv1beta1.CronJob`; the last three fields are those of the pod template.
pub record CronJob : Type 0 where
  pub meta : ObjectMeta
  pub suspend : Option Bool
  pub schedule : String
  pub service_account_name : String
  pub restart_policy : String
  pub containers : List Container

pub record ServiceAccount : Type 0 where
  pub meta : ObjectMeta

-- `rbacv1.PolicyRule`
pub record PolicyRule : Type 0 where
  pub verbs : List String
  pub api_groups : List String
  pub resources : List String
  pub resource_names : List String

pub record Role : Type 0 where
  pub meta : ObjectMeta
  pub rules : List PolicyRule

-- `rbacv1.Subject` and `rbacv1.RoleRef`
pub record Subject : Type 0 where
  pub kind : String
  pub name : String

pub record RoleRef : Type 0 where
  pub api_group : String
  pub kind : String
  pub name : String

pub record RoleBinding : Type 0 where
  pub meta : ObjectMeta
  pub subjects : List Subject
  pub role_ref : RoleRef

abbrev pub workload_object : MetaObject Workload
workload_object = record {
  meta = λ o. o.meta;
  with_meta = λ o m. record o { meta = m };
  meta-with_meta = λ o m. refl;
}

abbrev pub cron_job_object : MetaObject CronJob
cron_job_object = record {
  meta = λ o. o.meta;
  with_meta = λ o m. record o { meta = m };
  meta-with_meta = λ o m. refl;
}

abbrev pub service_account_object : MetaObject ServiceAccount
service_account_object = record {
  meta = λ o. o.meta;
  with_meta = λ o m. record { meta = m };
  meta-with_meta = λ o m. refl;
}

abbrev pub role_object : MetaObject Role
role_object = record {
  meta = λ o. o.meta;
  with_meta = λ o m. record o { meta = m };
  meta-with_meta = λ o m. refl;
}

abbrev pub role_binding_object : MetaObject RoleBinding
role_binding_object = record {
  meta = λ o. o.meta;
  with_meta = λ o m. record o { meta = m };
  meta-with_meta = λ o m. refl;
}
