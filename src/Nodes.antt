-- ===== src/Nodes.antt =====
-- include/gpumemd/node_registry.hpp and src/core/node_registry.cpp: the nodes that are known, and how
-- much of their memory they report as used.
pub mod Usage
use gpumemd.Base.{
  ℕ, Bool, true, false, not, Option, none, some, List, [], ◌∷◌, map, Text, text_lt, ltb, ◌==◌,
  if◌then◌else◌, find, contains, emplace, assign, erase, sort,
}
use gpumemd.Names.{valid_name, valid_endpoint}

pub data NodeError : Type 0 where
  ok invalid_id invalid_endpoint invalid_capacity duplicate_node unknown_node : NodeError

pub record NodeOperationResult : Type 0 where
  pub error : NodeError
  pub amount : ℕ

abbrev pub failed : NodeError → NodeOperationResult
failed e = record { error = e; amount = 0 }

abbrev pub done : ℕ → NodeOperationResult
done amount = record { error = ok; amount = amount }

pub record NodeRecord : Type 0 where
  pub id : Text
  pub endpoint : Text
  pub capacity : ℕ
  pub used : ℕ
  pub healthy : Bool

abbrev pub Nodes : Type 0
Nodes = List (Text × NodeRecord)

abbrev pub new_node : Text → Text → ℕ → NodeRecord
new_node id endpoint capacity = record {
  id = id;
  endpoint = endpoint;
  capacity = capacity;
  used = 0;
  healthy = true;
}

unfoldable pub register_node : Text → Text → ℕ → Nodes → Nodes × NodeOperationResult
register_node id endpoint capacity nodes =
    if not (valid_name id)
    then (nodes, failed invalid_id)
    else if not (valid_endpoint endpoint)
    then (nodes, failed invalid_endpoint)
    else if capacity == 0
    then (nodes, failed invalid_capacity)
    else if contains id nodes
    then (nodes, failed duplicate_node)
    else (emplace id (new_node id endpoint capacity) nodes, done capacity)

unfoldable pub unregister_node : Text → Nodes → Nodes × NodeOperationResult
unregister_node id nodes =
    if contains id nodes then (erase id nodes, done 0) else (nodes, failed unknown_node)

unfoldable pub update_usage : Text → ℕ → Nodes → Nodes × NodeOperationResult
update_usage id used nodes = elim (find id nodes) [
  | none ↦ (nodes, failed unknown_node)
  | some node ↦
      if ltb node.capacity used
      then (nodes, failed invalid_capacity)
      else (assign id (record node { used = used }) nodes, done used)
]

unfoldable pub set_health : Text → Bool → Nodes → Nodes × NodeOperationResult
set_health id healthy nodes = elim (find id nodes) [
  | none ↦ (nodes, failed unknown_node)
  | some node ↦ (assign id (record node { healthy = healthy }) nodes, done 0)
]

abbrev pub by_id : NodeRecord → NodeRecord → Bool
by_id left right = text_lt left.id right.id

-- `nodes()`
unfoldable pub snapshot : Nodes → List NodeRecord
snapshot nodes = sort by_id (map (λ entry. entry.1) nodes)
