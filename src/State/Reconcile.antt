-- ===== src/State/Reconcile.antt =====
-- crates/common/src/state/reconcile.rs: what a reconciler is asked for and what it answers. A duration
-- is a number of nanoseconds.
use snarkops.Common.{
  ℕ, ◌==◌, Option, none, some, Bool, true, false, ◌||◌, ◌&&◌, List, [], ◌∷◌, ◌++◌, is_some,
  if◌then◌else◌,
}
use snarkops.Common.Text.{Text, text_eq}

pub record ReconcileOptions : Type 0 where
  pub refetch_info : Bool
  pub force_shutdown : Bool
  pub clear_last_height : Bool

unfoldable pub union : ReconcileOptions → ReconcileOptions → ReconcileOptions
union a b = record {
  refetch_info = a.refetch_info || b.refetch_info;
  force_shutdown = a.force_shutdown || b.force_shutdown;
  clear_last_height = a.clear_last_height || b.clear_last_height;
}

pub data ReconcileCondition : Type 0 where
  pending_transfer : (source : Text) → (id : ℕ) → ReconcileCondition
  pending_process : (process : Text) → ReconcileCondition
  interrupted_transfer : (source : Text) → (id : ℕ) → (reason : Option Text) → ReconcileCondition
  interrupted_modify : (reason : Text) → ReconcileCondition
  missing_file : (path : Text) → ReconcileCondition
  pending_connection pending_shutdown pending_startup : ReconcileCondition

abbrev same_reason : Option Text → Option Text → Bool
same_reason none none = true
same_reason (some r) (some q) = text_eq r q
same_reason _ _ = false

-- The derived equality.
unfoldable pub condition_eq : ReconcileCondition → ReconcileCondition → Bool
condition_eq (pending_transfer s i) (pending_transfer t j) = text_eq s t && (i == j)
condition_eq (pending_process p) (pending_process q) = text_eq p q
condition_eq (interrupted_transfer s i r) (interrupted_transfer t j q) =
    text_eq s t && ((i == j) && same_reason r q)
condition_eq (interrupted_modify r) (interrupted_modify q) = text_eq r q
condition_eq (missing_file p) (missing_file q) = text_eq p q
condition_eq pending_connection pending_connection = true
condition_eq pending_shutdown pending_shutdown = true
condition_eq pending_startup pending_startup = true
condition_eq _ _ = false

unfoldable pub has_condition : ReconcileCondition → List ReconcileCondition → Bool
unfolding condition_eq
has_condition c [] = false
has_condition c (d ∷ ds) = condition_eq c d || has_condition c ds

-- The conditions are an `IndexSet`: in the order of insertion, none twice.
pub record ReconcileStatus (T : Type 0) : Type 0 where
  pub scopes : List Text
  pub inner : Option T
  pub requeue_time : Option ℕ
  pub conditions : List ReconcileCondition

module _ {T : Type 0} where
  abbrev pub status_of : Option T → ReconcileStatus T
  status_of inner = record { scopes = []; inner = inner; requeue_time = none; conditions = [] }

  abbrev pub empty : ReconcileStatus T
  empty = status_of none

  unfoldable pub is_requeue : ReconcileStatus T → Bool
  is_requeue s = is_some s.requeue_time

  unfoldable pub replace_inner : {U : Type 0} → ReconcileStatus T → U → ReconcileStatus U
  replace_inner s inner = record {
    scopes = s.scopes;
    inner = some inner;
    requeue_time = s.requeue_time;
    conditions = s.conditions;
  }

  unfoldable pub emptied : {U : Type 0} → ReconcileStatus T → ReconcileStatus U
  emptied s = record {
    scopes = s.scopes;
    inner = none;
    requeue_time = s.requeue_time;
    conditions = s.conditions;
  }

  unfoldable pub requeue_after : ℕ → ReconcileStatus T → ReconcileStatus T
  requeue_after duration s = record s { requeue_time = some duration }

  unfoldable pub add_scope : Text → ReconcileStatus T → ReconcileStatus T
  add_scope scope s = record s { scopes = s.scopes ++ scope ∷ [] }

  unfoldable pub add_condition : ReconcileCondition → ReconcileStatus T → ReconcileStatus T
  unfolding has_condition
  add_condition c s =
      if has_condition c s.conditions then s else record s { conditions = s.conditions ++ c ∷ [] }
