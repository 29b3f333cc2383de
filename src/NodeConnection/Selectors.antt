-- ===== src/NodeConnection/Selectors.antt =====
-- `ValidateNodeConnectionSelectors` of internal/webhook/v1/linstornodeconnection_webhook.go, and how the
-- selectors treat the two nodes of a pair.
use piraeus_operator.Base.{
  ℕ, suc, String, Bool, true, false, List, [], ◌∷◌, ◌++◌, Option, ◌≡◌, refl, ap, is_some, contains,
  ◌&&◌, not, ◌⧺◌, decimal, is_empty, Dict, ==-symm, or_else,
}
use piraeus_operator.StoragePool.Validation.{
  FieldError, field_error, invalid, child, failures, not_supported,
}
use piraeus_operator.NodeConnection.{
  MatchLabelSelectorOperator, exists, does_not_exist, is_in, not_in, same, not_same, unknown,
  MatchLabelSelector, SelectorTerm, evaluate_op, evaluate_exprs, any_term, node_connection_applies,
  label_of,
}

abbrev pub op_name : MatchLabelSelectorOperator → String
op_name exists = "Exists"
op_name does_not_exist = "DoesNotExist"
op_name is_in = "In"
op_name not_in = "NotIn"
op_name same = "Same"
op_name not_same = "NotSame"
op_name (unknown text) = text

abbrev pub no_values : MatchLabelSelectorOperator → List String → String → List FieldError
no_values op values path = failures (
    (
      not (is_empty values),
      field_error invalid (child path "values")
          ("Chosen operator '" ⧺ op_name op ⧺ "' does not expect any values"),
    )
    ∷ [])

-- the switch on the operator
unfoldable pub op_errors : MatchLabelSelectorOperator → List String → String → List FieldError
op_errors exists values path = no_values exists values path
op_errors does_not_exist values path = no_values does_not_exist values path
op_errors same values path = no_values same values path
op_errors not_same values path = no_values not_same values path
op_errors is_in values path = []
op_errors not_in values path = []
op_errors (unknown text) values path = field_error not_supported (child path "op") "" ∷ []

unfoldable pub exprs_errors : ℕ → String → List MatchLabelSelector → List FieldError
exprs_errors j path [] = []
exprs_errors j path (e ∷ es) =
    op_errors e.op e.values (child (child path "matchLabels") (decimal j))
    ++ exprs_errors (suc j) path es

unfoldable pub selectors_errors : ℕ → String → List SelectorTerm → List FieldError
selectors_errors i path [] = []
selectors_errors i path (t ∷ ts) =
    exprs_errors 0 (child path (decimal i)) t.match_labels ++ selectors_errors (suc i) path ts

unfoldable pub validate_node_connection_selectors : List SelectorTerm → String → List FieldError
validate_node_connection_selectors selector path = selectors_errors 0 path selector

and_swap : (x y : Bool) → (x && y) ≡ (y && x)
and_swap true true = refl
and_swap true false = refl
and_swap false true = refl
and_swap false false = refl

evaluate_op_symm :
    (op : MatchLabelSelectorOperator) (values : List String) (a b : Option String)
    → evaluate_op op values a b ≡ evaluate_op op values b a
unfolding evaluate_op
evaluate_op_symm exists values a b = and_swap (is_some a) (is_some b)
evaluate_op_symm does_not_exist values a b = and_swap (not (is_some a)) (not (is_some b))
evaluate_op_symm is_in values a b =
    and_swap (contains values (or_else "" a)) (contains values (or_else "" b))
evaluate_op_symm not_in values a b =
    and_swap (not (contains values (or_else "" a))) (not (contains values (or_else "" b)))
evaluate_op_symm same values a b = ==-symm (or_else "" a) (or_else "" b)
evaluate_op_symm not_same values a b = ap not (==-symm (or_else "" a) (or_else "" b))
evaluate_op_symm (unknown text) values a b = refl

module _ (a b : String) (labels : Dict (Dict String)) where
  evaluate_exprs_symm :
      (es : List MatchLabelSelector) → evaluate_exprs es a b labels ≡ evaluate_exprs es b a labels
  unfolding evaluate_exprs
  evaluate_exprs_symm [] = refl
  evaluate_exprs_symm (e ∷ es) =
      rw
        (
          evaluate_op_symm e.op e.values (label_of labels a e.key) (label_of labels b e.key),
          evaluate_exprs_symm es,
        )
        refl

  any_term_symm : (ts : List SelectorTerm) → any_term ts a b labels ≡ any_term ts b a labels
  unfolding any_term
  any_term_symm [] = refl
  any_term_symm (t ∷ ts) = rw (evaluate_exprs_symm t.match_labels, any_term_symm ts) refl

  -- Whether a node connection applies to a pair does not depend on the order of the two nodes.
  pub node_connection_applies_symm :
      (selectors : List SelectorTerm)
      → node_connection_applies selectors a b labels ≡ node_connection_applies selectors b a labels
  unfolding node_connection_applies
  node_connection_applies_symm selectors = rw (any_term_symm selectors) refl
