-- ===== src/Journal/States.antt =====
-- The states of a run and of an item, and the transitions that the journal admits
-- (src/kavita_ingest/apply_journal.py).
use kavita_ingest.Prelude.{
  ℕ, ◌≡◌, ap, ◌↔◌, Bool, true, List, [], ◌∷◌, Eq, nat_eq, nat_eq_iff, any, arith,
}

pub data RunState : Type 0 where
  preflighting running recovery_required failed complete : RunState

pub data ItemState : Type 0 where
  pending preflight_ok staging staged verified committing committed cleanup_pending cleaned complete
        failed stale recovery_required :
      ItemState

-- The planned lifecycle of a source.
pub data Policy : Type 0 where
  preserve move_after_verify archive_after_verify : Policy

abbrev rank : ItemState → ℕ
rank pending = 0
rank preflight_ok = 1
rank staging = 2
rank staged = 3
rank verified = 4
rank committing = 5
rank committed = 6
rank cleanup_pending = 7
rank cleaned = 8
rank ItemState.complete = 9
rank ItemState.failed = 10
rank stale = 11
rank ItemState.recovery_required = 12

abbrev pub state_eq : ItemState → ItemState → Bool
state_eq s t = nat_eq (rank s) (rank t)

rank-injective : (s t : ItemState) → rank s ≡ rank t → s ≡ t
rank-injective s t h = ground arith

pub state_eq_iff : (s t : ItemState) → (state_eq s t ≡ true) ↔ (s ≡ t)
state_eq_iff s t =
    (λ h. rank-injective s t ((nat_eq_iff _ _).0 h), λ e. (nat_eq_iff _ _).1 (ap rank e))

instance abbrev pub state_Eq : Eq ItemState
state_Eq = record { beq = state_eq; beq_iff = state_eq_iff }

-- The table `ALLOWED_TRANSITIONS`.
unfoldable pub allowed_transitions : ItemState → List ItemState
allowed_transitions pending =
    preflight_ok ∷ stale ∷ ItemState.failed ∷ ItemState.recovery_required ∷ []
allowed_transitions preflight_ok = staging ∷ stale ∷ ItemState.recovery_required ∷ []
allowed_transitions staging = staged ∷ ItemState.failed ∷ stale ∷ ItemState.recovery_required ∷ []
allowed_transitions staged = verified ∷ ItemState.failed ∷ stale ∷ ItemState.recovery_required ∷ []
allowed_transitions verified = committing ∷ stale ∷ ItemState.recovery_required ∷ []
allowed_transitions committing = committed ∷ stale ∷ ItemState.recovery_required ∷ []
allowed_transitions committed =
    cleanup_pending ∷ ItemState.complete ∷ ItemState.recovery_required ∷ []
allowed_transitions cleanup_pending = cleaned ∷ ItemState.recovery_required ∷ []
allowed_transitions cleaned = ItemState.complete ∷ ItemState.recovery_required ∷ []
allowed_transitions ItemState.failed = staging ∷ stale ∷ ItemState.recovery_required ∷ []
allowed_transitions ItemState.complete = []
allowed_transitions stale = []
allowed_transitions ItemState.recovery_required = []

-- `state in {…}`
abbrev pub one_of : List ItemState → ItemState → Bool
one_of states s = any (λ t. state_eq s t) states

unfoldable pub may_become : ItemState → ItemState → Bool
may_become from to = one_of (allowed_transitions from) to
