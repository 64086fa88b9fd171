-- ===== src/Store/Observations.antt =====
-- Observations in crates/stateful-store/src/store_v2.rs: a client's observations in canonical
-- order, their synchronisation with the `resources` table, and its current state.
use stateful_core.Base.{
  ℕ, Text, Bool, not, ◌&&◌, ◌||◌, Option, none, some, List, [], ◌∷◌, ◌++◌, map, find, any,
  update_where, if◌then◌else◌, text_eq,
}
use stateful_core.Coordination.{
  kind_eq, ResourceKey, ResourceObservation, has_matching_resource_kind,
}
use stateful_core.Resource.{same_identity, sort_keys, sort_observations}
use stateful_core.Resource.Observation.{state_json_eq}
use stateful_core.Store.Models.{CommandContext}
use stateful_core.Store.Tables.{Db, ResourceRow, AliasRow}
use stateful_core.Store.Evidence.{revoke_overlapping}
use stateful_core.Store.Tx.{
  Result, ok, err, invalid_input, not_found, corrupt, Tx, Done, ◌>>=◌, ◌>>◌, pure, gets, lift,
  modify, or_fail, checked_suc,
}

abbrev pub resources_of : List ResourceObservation → List ResourceKey
resources_of = map (λ o. o.resource)

-- The checks of one turn of the loop; `seen` are the keys before this one.
unfoldable pub check_observation :
    CommandContext → List ResourceKey → ResourceObservation → Result Done
check_observation ctx seen o =
    if not (has_matching_resource_kind o) || not (text_eq o.resource.workspace_id ctx.workspace_id)
    then err (invalid_input "resource observation kind or workspace mismatch")
    else if any (same_identity o.resource) seen
    then err (invalid_input "duplicate resource observation")
    else ok tt

unfoldable pub check_all : CommandContext → List ResourceKey → List ResourceObservation → Tx Done
check_all ctx seen [] = pure tt
check_all ctx seen (o ∷ os) =
    lift (check_observation ctx seen o) >> check_all ctx (o.resource ∷ seen) os

unfoldable pub canonicalize_observations :
    CommandContext → List ResourceObservation → Tx (List ResourceObservation)
unfolding check_all
canonicalize_observations ctx observations = do
  let ordered = sort_observations observations
  check_all ctx [] ordered
  pure ordered

abbrev pub is_resource : Text → Text → ResourceRow → Bool
is_resource workspace_id resource_id row =
    text_eq row.workspace_id workspace_id && text_eq row.resource_id resource_id

unfoldable pub find_resource : Text → Text → Db → Option ResourceRow
find_resource workspace_id resource_id db = find (is_resource workspace_id resource_id) db.resources

-- A changed resource: its row gets the next generation, and its evidence is revoked.
unfoldable pub advance_resource : CommandContext → ResourceObservation → ℕ → Db → Db
advance_resource ctx o generation db =
    let db' = revoke_overlapping ctx o.resource none db in
    record db' {
      resources =
          update_where (is_resource o.resource.workspace_id o.resource.resource_id)
            (λ row. record row {
              kind = o.resource.kind;
              state = o.observed;
              generation = generation;
              updated_at = ctx.observed_at;
            })
            db'.resources;
    }

-- A resource seen for the first time.
unfoldable pub add_resource : CommandContext → ResourceObservation → Db → Db
add_resource ctx o db =
    let db' = revoke_overlapping ctx o.resource none db in
    record db' {
      resources =
          db'.resources
          ++ record {
            workspace_id = o.resource.workspace_id;
            resource_id = o.resource.resource_id;
            kind = o.resource.kind;
            canonical_path = o.resource.canonical_path;
            state = o.observed;
            generation = 1;
            updated_at = ctx.observed_at;
          }
            ∷ [];
    }

-- `INSERT OR IGNORE INTO resource_aliases`.
unfoldable pub add_alias : ResourceKey → Db → Db
add_alias r db =
    let known =
      any
        (λ (a : AliasRow).
          text_eq a.workspace_id r.workspace_id
          && text_eq a.resource_id r.resource_id
          && text_eq a.canonical_path r.canonical_path)
        db.aliases in
    if known then db else record db {
      aliases =
          db.aliases
          ++ record {
            workspace_id = r.workspace_id;
            resource_id = r.resource_id;
            canonical_path = r.canonical_path;
          }
            ∷ [];
    }

unfoldable pub next_generation : CommandContext → ResourceObservation → ℕ → Tx ℕ
next_generation ctx o current = do
  generation ← or_fail (corrupt "resource generation overflow") (checked_suc current)
  modify (advance_resource ctx o generation)
  pure generation

-- The generation of the resource after this observation of it.
unfoldable pub sync_row : CommandContext → ResourceObservation → Option ResourceRow → Tx ℕ
unfolding next_generation
sync_row ctx o none = do modify (add_resource ctx o); pure 1
sync_row ctx o (some row) =
    if not (kind_eq row.kind o.resource.kind) || not (state_json_eq row.state o.observed)
    then next_generation ctx o row.generation
    else pure row.generation

unfoldable pub sync_observation :
    CommandContext → List ResourceKey → ResourceObservation → Tx ResourceObservation
unfolding sync_row
sync_observation ctx seen o = do
  lift (check_observation ctx seen o)
  row ← gets (find_resource o.resource.workspace_id o.resource.resource_id)
  generation ← sync_row ctx o row
  modify (add_alias o.resource)
  pure (record o { generation = generation })

unfoldable pub sync_all :
    CommandContext → List ResourceKey → List ResourceObservation → Tx (List ResourceObservation)
sync_all ctx seen [] = pure []
sync_all ctx seen (o ∷ os) = do
  synced ← sync_observation ctx seen o
  rest ← sync_all ctx (o.resource ∷ seen) os
  pure (synced ∷ rest)

unfoldable pub sync_observations :
    CommandContext → List ResourceObservation → Tx (List ResourceObservation)
unfolding sync_all
sync_observations ctx input = sync_all ctx [] (sort_observations input)

-- One row of `current_observations`. The column `state_json` is read at the row's kind.
unfoldable pub current_observation : Db → ResourceKey → Result ResourceObservation
current_observation db requested =
    elim (find_resource requested.workspace_id requested.resource_id db) [
      | none ↦ err (not_found "leased resource not found")
      | some row ↦
          if kind_eq row.kind requested.kind
          then ok
              (record { resource = requested; observed = row.state; generation = row.generation })
          else err (corrupt "leased resource kind changed")
    ]

unfoldable pub current_all : List ResourceKey → Tx (List ResourceObservation)
current_all [] = pure []
current_all (r ∷ rs) = do
  found ← gets (λ db. current_observation db r)
  o ← lift found
  rest ← current_all rs
  pure (o ∷ rest)

unfoldable pub current_observations : List ResourceKey → Tx (List ResourceObservation)
unfolding current_all
current_observations resources = do
  observations ← current_all resources
  pure (sort_observations observations)

-- The additions that are not there yet, one after another.
unfoldable pub merge_each : List ResourceKey → List ResourceKey → List ResourceKey
merge_each target [] = target
merge_each target (a ∷ additions) =
    merge_each (if any (same_identity a) target then target else target ++ a ∷ []) additions

unfoldable pub merge_resource_keys : List ResourceKey → List ResourceKey → List ResourceKey
unfolding merge_each
merge_resource_keys target additions = sort_keys (merge_each target additions)
