-- ===== src/FieldPath/Sample.antt =====
-- A node with labels, for the examples of pkg/utils/fieldpath/fieldpath.go.
use piraeus_operator.Base.{[], ◌∷◌}
use piraeus_operator.FieldPath.{ObjectMeta, KeyRules}

-- every key is qualified, and in lower case
abbrev pub lax : KeyRules
lax = record { is_qualified_name = λ s. []; to_lower = λ s. s }

abbrev pub node : ObjectMeta
node = record {
  name = "n1";
  namespace = "";
  uid = "u1";
  annotations = [];
  labels = ("site/zone", "z1") ∷ ("os", "linux") ∷ ("site/rack", "r7") ∷ [];
}
