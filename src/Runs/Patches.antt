-- ===== src/Runs/Patches.antt =====
-- `apply_patch`: a new draft version from the current one. What the operations of a patch make of
-- the snapshot is an argument.
use personal_computing_space.Shared.{
  [], false, ◌∷◌, true, List, ℕ, ◌+◌, String, Bool, not, ◌&&◌, ◌||◌, none, some, ◌==◌, nat_eq,
  string_eq, option_eq,
}
use personal_computing_space.Shared.Dict.{Dict, lookup, insert}
use personal_computing_space.Shared.Exec.{
  Exec, Result, ok, err, illegal_state_transition, version_conflict, pure, ◌>>=◌, ◌>>◌,
}
use personal_computing_space.Runs.Defs.{
  package_candidates, RunState, Trigger, Snapshot, ClosureVersion, VersionKind, draft_patched,
  RunRecord,
}
use personal_computing_space.Runs.Actions.{
  Services, Readiness, state_beq, log, get_record, lift, set_record, when, assert,
}
use personal_computing_space.Runs.Transition.{transition, needs_repair}

pub record PatchReceipt : Type 0 where
  pub receipt : String
  pub run_id : String
  pub draft_version : String
  pub draft_digest : String
  pub snapshot : Snapshot
  pub patch_cursor : ℕ
  pub readiness : Readiness

-- the state guards of `apply_patch`
abbrev pub patchable : RunRecord → Bool
patchable r =
    state_beq r.state RunState.opened
    || state_beq r.state RunState.thinking
    || (state_beq r.state RunState.awaiting_decision && needs_repair r.outcome)

abbrev pub next_draft : Services → String → Snapshot → ClosureVersion → ClosureVersion
next_draft services version_id snapshot draft = record {
  version_id = version_id;
  closure_id = draft.closure_id;
  parent_version = some draft.version_id;
  kind = VersionKind.draft;
  snapshot = snapshot;
  snapshot_digest = services.canonical_digest snapshot;
  patch_cursor = draft.patch_cursor + 1;
}

abbrev is_empty : List String → Bool
is_empty [] = true
is_empty (ref ∷ refs) = false

-- The run's part of `apply_patch`, for an operation id that was not answered before.
unfoldable pub patch_run :
    Services
    → ℕ
    → String
    → String
    → (Snapshot → Result Snapshot)
    → String
    → String
    → String
    → Exec RunRecord PatchReceipt
patch_run services now version_id receipt_id edit base_version base_digest operation_id = do
  r ← get_record
  assert ((r.draft.version_id == base_version) && (r.draft.snapshot_digest == base_digest))
      version_conflict
  assert (patchable r) illegal_state_transition
  snapshot ← lift (edit r.draft.snapshot)
  set_record λ s. record s { draft = next_draft services version_id snapshot s.draft }
  when (not (state_beq r.state RunState.thinking))
      (do transition now Trigger.refinement_started none; pure tt)
  when (state_beq r.state RunState.awaiting_decision) (set_record λ s. record s { outcome = none })
  log (draft_patched operation_id version_id)
  when (not (is_empty snapshot.capability_package_refs))
      (log (package_candidates operation_id snapshot.capability_package_refs))
  s ← get_record
  pure (record {
    receipt = receipt_id;
    run_id = r.run_id;
    draft_version = version_id;
    draft_digest = services.canonical_digest snapshot;
    snapshot = snapshot;
    patch_cursor = s.draft.patch_cursor;
    readiness = services.readiness snapshot;
  })

-- self.idempotency[operation_id] = receipt
abbrev remember :
    String
    → Dict String PatchReceipt
    → RunRecord × Result PatchReceipt
    → (Dict String PatchReceipt × RunRecord) × Result PatchReceipt
remember operation_id seen (r, ok receipt) = ((insert operation_id receipt seen, r), ok receipt)
remember operation_id seen (r, err e) = ((seen, r), err e)

unfoldable pub apply_patch :
    Services
    → ℕ
    → String
    → String
    → (Snapshot → Result Snapshot)
    → String
    → String
    → String
    → Exec (Dict String PatchReceipt × RunRecord) PatchReceipt
apply_patch services now version_id receipt_id edit base_version base_digest operation_id
      (seen, r) =
    elim (lookup operation_id seen) [
      | some receipt ↦ ((seen, r), ok receipt)
      | none ↦ remember operation_id seen (
          patch_run services now version_id receipt_id edit base_version base_digest operation_id r)
    ]
