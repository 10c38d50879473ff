-- ===== src/Objects.antt =====
-- The Kubernetes objects that the operator reads and writes: of each, the fields that the code of
-- internal/usecase and internal/infras names. A Go map is an association list, `[]byte` a text, a
-- pointer an `Option`, a `resource.Quantity` its canonical text. A time is a number of nanoseconds
-- since Go's zero time, so `IsZero` is `== 0`.
use hermes_agent_operator.Prelude.{ℕ, String, StringMap, Bool, Option, List, [], ◌∷◌}
use hermes_agent_operator.PodTemplate.{PodTemplateSpec}

-- `types.NamespacedName`.
pub record NsName : Type 0 where
  pub namespace : String
  pub name : String

-- `metav1.ObjectMeta`.
pub record ObjectMeta : Type 0 where
  pub name : String
  pub namespace : String
  pub labels : StringMap String
  pub annotations : StringMap String
  pub resource_version : String
  pub creation_timestamp : ℕ
  pub deletion_timestamp : Option ℕ

pub data ConditionStatus : Type 0 where
  cond_true cond_false cond_unknown : ConditionStatus

-- `metav1.Condition`, less its transition time.
pub record Condition : Type 0 where
  pub type : String
  pub status : ConditionStatus
  pub observed_generation : ℕ
  pub reason : String
  pub message : String

pub record Secret : Type 0 where
  pub meta : ObjectMeta
  pub contents : StringMap String

pub record ConfigMap : Type 0 where
  pub meta : ObjectMeta
  pub contents : StringMap String

pub data PodPhase : Type 0 where
  pod_pending pod_running pod_succeeded pod_failed pod_unknown : PodPhase

-- `corev1.PodCondition`; `scheduled` is its type being PodScheduled.
pub record PodCondition : Type 0 where
  pub scheduled : Bool
  pub status : ConditionStatus
  pub reason : String
  pub message : String

pub record ContainerStateWaiting : Type 0 where
  pub reason : String
  pub message : String

pub record ContainerStateTerminated : Type 0 where
  pub exit_code : ℕ
  pub reason : String
  pub message : String

pub record ContainerStatus : Type 0 where
  pub name : String
  pub waiting : Option ContainerStateWaiting
  pub terminated : Option ContainerStateTerminated
  pub last_terminated : Option ContainerStateTerminated

pub record Pod : Type 0 where
  pub meta : ObjectMeta
  pub phase : PodPhase
  pub reason : String
  pub conditions : List PodCondition
  pub init_container_statuses : List ContainerStatus
  pub container_statuses : List ContainerStatus

pub data ClaimPhase : Type 0 where
  claim_pending claim_bound claim_lost : ClaimPhase

-- `corev1.TypedLocalObjectReference`.
pub record DataSource : Type 0 where
  pub api_group : String
  pub kind : String
  pub name : String

-- A PersistentVolumeClaim with one access mode, ReadWriteOnce, which is all the operator asks for.
pub record PersistentVolumeClaim : Type 0 where
  pub meta : ObjectMeta
  pub storage : String
  pub storage_class_name : Option String
  pub data_source : Option DataSource
  pub phase : ClaimPhase

-- The names of claims, or of claim templates.
abbrev pub claim_names : List PersistentVolumeClaim → List String
claim_names [] = []
claim_names (c ∷ cs) = c.meta.name ∷ claim_names cs

pub record StatefulSet : Type 0 where
  pub meta : ObjectMeta
  pub replicas : ℕ
  pub selector : StringMap String
  pub max_unavailable : ℕ
  pub template : PodTemplateSpec
  pub volume_claim_templates : List PersistentVolumeClaim

pub record ServiceAccount : Type 0 where
  pub meta : ObjectMeta

pub record PolicyRule : Type 0 where
  pub api_groups : List String
  pub resources : List String
  pub verbs : List String
  pub resource_names : List String
  pub non_resource_urls : List String

pub record Role : Type 0 where
  pub meta : ObjectMeta
  pub rules : List PolicyRule

pub record Subject : Type 0 where
  pub kind : String
  pub name : String
  pub namespace : String

pub record RoleRef : Type 0 where
  pub api_group : String
  pub kind : String
  pub name : String

pub record RoleBinding : Type 0 where
  pub meta : ObjectMeta
  pub subjects : List Subject
  pub role_ref : RoleRef

pub record ServicePort : Type 0 where
  pub name : String
  pub port : ℕ
  pub target_port : ℕ
  pub protocol : String
  pub node_port : ℕ
  pub app_protocol : Option String

pub record Service : Type 0 where
  pub meta : ObjectMeta
  pub type : String
  pub selector : StringMap String
  pub ports : List ServicePort
  pub cluster_ip : String

pub record HttpIngressPath : Type 0 where
  pub path : String
  pub path_type : String
  pub service_name : String
  pub service_port : ℕ

pub record IngressRule : Type 0 where
  pub host : String
  pub paths : List HttpIngressPath

pub record IngressTls : Type 0 where
  pub hosts : List String
  pub secret_name : String

pub record Ingress : Type 0 where
  pub meta : ObjectMeta
  pub ingress_class_name : Option String
  pub rules : List IngressRule
  pub tls : List IngressTls

-- `intstr.IntOrString`.
pub data IntOrString : Type 0 where
  int_port : ℕ → IntOrString
  named_port : String → IntOrString

-- `metav1.LabelSelectorRequirement` and `metav1.LabelSelector`.
pub record LabelSelectorRequirement : Type 0 where
  pub key : String
  pub operator : String
  pub values : List String

pub record LabelSelector : Type 0 where
  pub match_labels : StringMap String
  pub match_expressions : List LabelSelectorRequirement

pub record NetworkPolicyPort : Type 0 where
  pub protocol : Option String
  pub port : Option IntOrString
  pub end_port : Option ℕ

pub record IpBlock : Type 0 where
  pub cidr : String
  pub except : List String

pub record NetworkPolicyPeer : Type 0 where
  pub pod_selector : Option LabelSelector
  pub namespace_selector : Option LabelSelector
  pub ip_block : Option IpBlock

-- An ingress rule or an egress rule: `From` or `To`, and the ports.
pub record NetworkPolicyRule : Type 0 where
  pub peers : List NetworkPolicyPeer
  pub ports : List NetworkPolicyPort

pub record NetworkPolicy : Type 0 where
  pub meta : ObjectMeta
  pub pod_selector : LabelSelector
  pub policy_types : List String
  pub ingress : List NetworkPolicyRule
  pub egress : List NetworkPolicyRule
