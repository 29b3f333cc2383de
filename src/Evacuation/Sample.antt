-- ===== src/Evacuation/Sample.antt =====
-- A small cluster with one volume, for the examples of pkg/evacuation and of the satellite controller.
use piraeus_operator.Base.{String, Bool, true, false, [], ◌∷◌, none, some, if◌then◌else◌}
use piraeus_operator.Conditions.{is_true, is_false}
use piraeus_operator.Cluster.{
  evacuate, PersistentVolume, Resource, LinstorNode, LinstorSatellite, Machine,
}
use piraeus_operator.Cluster.Effect.{Api, Names, ok, Log}
use piraeus_operator.Evacuation.Reattach.{EvacuationStrategy}

abbrev pub names : Names
names = record {
  namespc_auxiliary = "Aux";
  csi_driver_name = "linstor.csi.linbit.com";
  override_annotation_prefix = "affinity-override.linstor.csi.linbit.com";
  volume_context_marker = "linstor.csi.linbit.com/uses-volume-context";
  remote_access_policy_opts = "linstor.csi.linbit.com/remote-access-policy";
  key_rsc_migrate_from = "MigrateFrom";
  flag_diskless = "DISKLESS";
  flag_evacuate = "EVACUATE";
  pre_drain_prefix = "pre-drain.delete.hook.machine.cluster.x-k8s.io";
  pre_terminate_prefix = "pre-terminate.delete.hook.machine.cluster.x-k8s.io";
  cluster_namespace_annotation = "cluster.x-k8s.io/cluster-namespace";
  machine_annotation = "cluster.x-k8s.io/machine";
}

-- Whether LINSTOR was told to evacuate.
abbrev pub was_told : Log → Bool
was_told [] = false
was_told (evacuate n ∷ log) = true
was_told (c ∷ log) = was_told log

abbrev pub volume_of : String → String → PersistentVolume
volume_of name handle = record {
  name = name;
  uid = "u";
  is_deleted = false;
  annotations = [];
  csi = some (record {
    driver = "linstor.csi.linbit.com";
    volume_handle = handle;
    volume_attributes = [];
  });
  claim_ref = none;
  node_affinity = none;
}

abbrev pub pv : PersistentVolume
pv = volume_of "pv-1" "r1"

abbrev pub replaced : Resource
replaced = record { name = "r1"; flags = []; props = ("MigrateFrom", "n1") ∷ [] }

abbrev pub sat : String → LinstorSatellite
sat name = record {
  name = name;
  generation = 1;
  is_deleted = false;
  condition = λ t. some (record {
    status = is_true;
    reason = "Configured";
    observed_generation = 1;
    last_transition_time = 0;
  });
}

abbrev pub leaving : LinstorSatellite
leaving = record {
  name = "n1";
  generation = 1;
  is_deleted = true;
  condition = λ t. some (record {
    status = is_false;
    reason = "Waiting";
    observed_generation = 1;
    last_transition_time = 9;
  });
}

abbrev pub busy : LinstorSatellite
busy = record {
  name = "n3";
  generation = 1;
  is_deleted = true;
  condition = λ t. some (record {
    status = is_false;
    reason = "InProgress";
    observed_generation = 1;
    last_transition_time = 3;
  });
}

-- One volume on the node n1, which LINSTOR moves as soon as it is told to.
abbrev pub api : Api
api = record {
  names = names;
  attachments = λ log. ok [];
  nodes = λ log. ok [];
  volumes = λ log. ok (pv ∷ []);
  satellites = λ log. ok (leaving ∷ sat "n2" ∷ busy ∷ []);
  groups = λ log. ok [];
  definitions = λ log. ok [];
  resources = λ node log. (if was_told log then [] else replaced ∷ [], none);
  snapshots = λ node log. ([], none);
  synced_on_all = λ name log. ok false;
  outcome = λ c log. none;
  now = λ log. 20;
  parse_time = λ text. ok 0;
  format_time = λ n. "now";
  format_duration = λ n. "1m";
  matches = λ n s. true;
  machine = λ namespace name log. ok (record { is_deleted = true; annotations = [] });
  is_no_match = λ e. false;
  has_reference = λ m. true;
}

abbrev pub node : LinstorNode
node = record { name = "n1"; flags = "EVACUATE" ∷ [] }

abbrev pub fresh_node : LinstorNode
fresh_node = record { name = "n1"; flags = [] }

abbrev pub strategy : EvacuationStrategy
strategy = record { attached_volume_reattach_timeout = 5; unattached_volume_attach_timeout = 5 }

abbrev pub hooked : Machine
hooked = record {
  is_deleted = true;
  annotations =
      ("pre-drain.delete.hook.machine.cluster.x-k8s.io/linstor-prepare-for-drain", "") ∷ [];
}
