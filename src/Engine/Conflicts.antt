-- ===== src/Engine/Conflicts.antt =====
-- engine.cpp:294-301 and 578-605: which mutations and constraints of two transactions exclude one
-- another.
pub mod Clashes
pub mod Exactness
use d3b.Base.{
  Bool, true, false, ◌||◌, ◌&&◌, List, [], ◌∷◌, Option, none, some, Result, ok, ◌>>=◌, or_throw,
  out_of_range, Map, find, ◌==◌, if◌then◌else◌,
}
use d3b.Types.{
  TransactionId, Mutation, MutationType, type_modify, Constraint, ConstraintType,
  type_document_state,
}
use d3b.Engine.{Transaction, SubmitError, submit_constraint_conflict, submit_mutation_conflict}

abbrev pub is_modify : MutationType → Bool
is_modify type_modify = true
is_modify _ = false

abbrev pub is_document_state : ConstraintType → Bool
is_document_state type_document_state = true
is_document_state _ = false

unfoldable pub compatible : Mutation → Constraint → Bool
compatible m c =
    if is_document_state c.type
      && (c.match_sequence_id && (is_modify m.type && m.document_id == c.document_id))
    then false
    else true

-- Whether some mutation and some constraint are incompatible: the first pair of loops of
-- `processSubmit` runs over the mutations first, the second over the constraints.
unfoldable pub rejects : Mutation → List Constraint → Bool
rejects m [] = false
rejects m (c ∷ cs) = if compatible m c then rejects m cs else true

unfoldable pub any_rejects : List Mutation → List Constraint → Bool
unfolding rejects
any_rejects [] cs = false
any_rejects (m ∷ ms) cs = rejects m cs || any_rejects ms cs

unfoldable pub rejected : List Mutation → Constraint → Bool
rejected [] c = false
rejected (m ∷ ms) c = if compatible m c then rejected ms c else true

unfoldable pub any_rejected : List Mutation → List Constraint → Bool
unfolding rejected
any_rejected ms [] = false
any_rejected ms (c ∷ cs) = rejected ms c || any_rejected ms cs

-- One round of the loop of `processSubmit`.
unfoldable pub check_other : Transaction → Transaction → Option SubmitError
unfolding any_rejects any_rejected
check_other other t =
    if any_rejects other.mutations t.constraints
    then some submit_constraint_conflict
    else if any_rejected t.mutations other.constraints
    then some submit_mutation_conflict
    else none

-- The loop of `processSubmit` over the submitted transactions, to the first conflict.
unfoldable pub find_conflict :
    Map Transaction → Transaction → List TransactionId → Result (Option SubmitError)
unfolding check_other
find_conflict active t [] = ok none
find_conflict active t (id ∷ ids) = do
  other ← or_throw (find id active) out_of_range
  (elim (check_other other t) [ none ↦ find_conflict active t ids | some x ↦ ok (some x) ])
