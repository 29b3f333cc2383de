-- ===== src/Cluster.antt =====
-- The objects of Kubernetes and LINSTOR that pkg/evacuation and pkg/clusterapi read and write, as far
-- as they look at them, and the calls that they make.
pub mod Effect
pub mod Calls
pub mod Answers
pub mod Trace
pub mod Linstor
use piraeus_operator.Base.{ℕ, String, Bool, false, List, Option, Dict, any, map, join}
use piraeus_operator.Conditions.{ConditionStatus}
use piraeus_operator.StoragePool.{ProviderKind}

-- `metav1.Condition` in the status of an object
pub record StatusCondition : Type 0 where
  pub status : ConditionStatus
  pub reason : String
  pub observed_generation : ℕ
  pub last_transition_time : ℕ

-- `condition` is what `meta.FindStatusCondition` finds for a type.
pub record LinstorSatellite : Type 0 where
  pub name : String
  pub generation : ℕ
  pub is_deleted : Bool
  pub condition : String → Option StatusCondition

pub record CsiSource : Type 0 where
  pub driver : String
  pub volume_handle : String
  pub volume_attributes : Dict String

pub record ObjectReference : Type 0 where
  pub namespace : String
  pub name : String
  pub uid : String

-- The terms of a node affinity. Only `MatchNodeSelectorTerms` looks inside.
pub record NodeSelector : Type 0 where
  pub terms : String

-- `node_affinity` is `.spec.nodeAffinity` with its field `required`.
pub record PersistentVolume : Type 0 where
  pub name : String
  pub uid : String
  pub is_deleted : Bool
  pub annotations : Dict String
  pub csi : Option CsiSource
  pub claim_ref : Option ObjectReference
  pub node_affinity : Option (Option NodeSelector)

pub record VolumeAttachment : Type 0 where
  pub persistent_volume_name : Option String
  pub node_name : String

pub record Node : Type 0 where
  pub name : String
  pub labels : Dict String

pub record ResourceGroup : Type 0 where
  pub name : String
  pub props : Dict String

pub record ResourceDefinition : Type 0 where
  pub name : String
  pub resource_group_name : String
  pub props : Dict String

pub record Resource : Type 0 where
  pub name : String
  pub flags : List String
  pub props : Dict String

-- A node in LINSTOR
pub record LinstorNode : Type 0 where
  pub name : String
  pub flags : List String

-- A ClusterAPI Machine
pub record Machine : Type 0 where
  pub is_deleted : Bool
  pub annotations : Dict String

-- A network interface of a node in LINSTOR
pub record NetInterface : Type 0 where
  pub name : String
  pub address : String
  pub satellite_port : ℕ
  pub satellite_encryption_type : String

-- What LINSTOR tells of a node
pub record NodeInfo : Type 0 where
  pub name : String
  pub flags : List String
  pub props : Dict String
  pub net_interfaces : List NetInterface
  pub connection_status : String

-- A storage pool in LINSTOR
pub record PoolInfo : Type 0 where
  pub storage_pool_name : String
  pub node_name : String
  pub props : Dict String

-- What a storage pool is created from, in LINSTOR and with its backend
pub record PoolCreation : Type 0 where
  pub storage_pool_name : String
  pub kind : ProviderKind
  pub props : Dict String
  pub free_space_mgr_name : String
  pub shared_space : String
  pub external_locking : Bool

pub record DevicePoolCreation : Type 0 where
  pub kind : ProviderKind
  pub backend_name : String
  pub device_paths : List String
  pub pv_create_arguments : List String
  pub vg_create_arguments : List String
  pub lv_create_arguments : List String
  pub zpool_create_arguments : List String
  pub storage_pool_name : String
  pub props : Dict String

pub record ServicePort : Type 0 where
  pub name : String
  pub port : ℕ

pub record Service : Type 0 where
  pub name : String
  pub namespace : String
  pub ports : List ServicePort

-- `conditions` are their types with the status.
pub record Pod : Type 0 where
  pub node_name : String
  pub pod_ips : List String
  pub conditions : Dict String

pub record Secret : Type 0 where
  pub kind : String
  pub entries : Dict String

-- What an event is recorded on.
pub data Subject : Type 0 where
  claim : ObjectReference → Subject
  volume : String → Subject
  machine : Subject

-- A call of the Kubernetes or the LINSTOR API.
pub data Call : Type 0 where
  list_attachments list_nodes list_volumes list_satellites list_groups list_definitions : Call
  view_resources view_snapshots check_sync evacuate : String → Call
  update_volume : PersistentVolume → Call
  delete_claim : ObjectReference → Call
  delete_volume : String → String → Call
  update_machine : Machine → Call
  get_machine : String → String → Call
  event : Subject → String → String → Call
  list_services get_secret get_config_map get_cluster : String → Call
  update_satellite : String → List String → Call
  get_node lost_node delete_node restore_node : String → Call
  create_node : String → Dict String → List NetInterface → Call
  modify_node : String → Dict String → List String → Call
  create_interface modify_interface : String → NetInterface → Call
  delete_interface : String → String → Call
  list_pools : String → Call
  get_pool delete_pool : String → String → Call
  create_pool : String → PoolCreation → Call
  create_device_pool : String → DevicePoolCreation → Call
  modify_pool : String → String → Dict String → List String → Call
  exec : List String → Call
  list_pods : String → Call
  get_version : Call

-- `is_not_found` is what `IsNotFound`, or `errors.Is` with LINSTOR's `NotFoundError`, says.
pub record ApiError : Type 0 where
  pub is_not_found : Bool
  pub text : String

-- An error of the operator's own
abbrev pub plain_error : String → ApiError
plain_error text = record { is_not_found = false; text = text }

-- `errors.Join` of a list with an error in it
abbrev pub join_errors : List ApiError → ApiError
join_errors errs = record {
  is_not_found = any (λ e. e.is_not_found) errs;
  text = join "\n" (map (λ e. e.text) errs);
}
