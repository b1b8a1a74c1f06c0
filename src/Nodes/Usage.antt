-- ===== src/Nodes/Usage.antt =====
-- What `NodeRegistry` keeps of its nodes.
use gpumemd.Base.{
  ℕ, ◌≤◌, ◌<◌, ◌≡◌, refl, subst, Bool, true, false, some, List, [], ◌∷◌, arith, Text, text_eq,
  text_eq_iff, ltb, ◌==◌, find, contains, emplace, assign, erase, Unique, Unique-emplace,
  Unique-erase, Unique-assign, find-emplace, find-assign, find-erase_self, find-erase_ne,
  Bool-cases, Option-cases, inl, inr,
}
use gpumemd.Names.{valid_name, valid_endpoint}
use gpumemd.Nodes.{
  Nodes, NodeRecord, new_node, register_node, unregister_node, update_usage, set_health,
}

pub record IsNode (id : Text) (node : NodeRecord) : Type 0 where
  pub own_id : node.id ≡ id
  pub valid_id : valid_name id ≡ true
  pub reachable : valid_endpoint node.endpoint ≡ true
  pub sized : 0 < node.capacity
  pub within : node.used ≤ node.capacity

pub record IsNodes (nodes : Nodes) : Type 0 where
  pub unique : Unique nodes
  pub each : (id : Text) (node : NodeRecord) → find id nodes ≡ some node → IsNode id node

add-IsNodes :
    (id : Text) (node : NodeRecord) (nodes : Nodes)
    → IsNodes nodes
    → contains id nodes ≡ false
    → IsNode id node
    → IsNodes (emplace id node nodes)
add-IsNodes id node nodes v fresh good = record {
  unique = Unique-emplace id node nodes v.unique;
  each = λ other found e. elim (Bool-cases (text_eq id other)) [
    | inl same ↦
        let is_new : node ≡ found = ground (arith, find-emplace id other node nodes fresh) in
        subst (λ k. IsNode k found) ((text_eq_iff id other).0 same) (subst (IsNode id) is_new good)
    | inr differs ↦ v.each other found (ground (arith, find-emplace id other node nodes fresh))
  ];
}

write-IsNodes :
    (id : Text) (node : NodeRecord) (nodes : Nodes)
    → IsNodes nodes
    → IsNode id node
    → IsNodes (assign id node nodes)
write-IsNodes id node nodes v good = record {
  unique = Unique-assign id node nodes v.unique;
  each = λ other found e. elim (Bool-cases (text_eq id other)) [
    | inl same ↦
        let is_new : node ≡ found = ground (arith, find-assign id other node nodes) in
        subst (λ k. IsNode k found) ((text_eq_iff id other).0 same) (subst (IsNode id) is_new good)
    | inr differs ↦ v.each other found (ground (arith, find-assign id other node nodes))
  ];
}

erase-IsNodes : (id : Text) (nodes : Nodes) → IsNodes nodes → IsNodes (erase id nodes)
erase-IsNodes id nodes v = record {
  unique = Unique-erase id nodes v.unique;
  each = λ other found e. elim (Bool-cases (text_eq id other)) [
    | inl same ↦ absurd (ground (arith, find-erase_self id nodes v.unique, text_eq_iff id other))
    | inr differs ↦ v.each other found (ground (arith, find-erase_ne id other nodes))
  ];
}

register_node-IsNodes :
    (id endpoint : Text) (capacity : ℕ) (nodes : Nodes)
    → IsNodes nodes
    → IsNodes (register_node id endpoint capacity nodes).0
unfolding register_node
register_node-IsNodes id endpoint capacity nodes v = elim (Bool-cases (valid_name id)) [
  | inr e ↦ rw (register_node, e) v
  | inl e ↦ elim (Bool-cases (valid_endpoint endpoint)) [
    | inr f ↦ rw (register_node, e, f) v
    | inl f ↦ elim (Bool-cases (capacity == 0)) [
      | inl g ↦ rw (register_node, e, f, g) v
      | inr g ↦ elim (Bool-cases (contains id nodes)) [
        | inl h ↦ rw (register_node, e, f, g, h) v
        | inr h ↦
            rw (register_node, e, f, g, h)
              (add-IsNodes id (new_node id endpoint capacity) nodes v h (record {
                own_id = refl;
                valid_id = e;
                reachable = f;
                sized = ground (arith, g);
                within = omega arith;
              }))
      ]
    ]
  ]
]

unregister_node-IsNodes :
    (id : Text) (nodes : Nodes) → IsNodes nodes → IsNodes (unregister_node id nodes).0
unfolding unregister_node
unregister_node-IsNodes id nodes v = ground (arith, erase-IsNodes id nodes v)

update_usage-IsNodes :
    (id : Text) (used : ℕ) (nodes : Nodes) → IsNodes nodes → IsNodes (update_usage id used nodes).0
unfolding update_usage
update_usage-IsNodes id used nodes v = elim (Option-cases (find id nodes)) [
  | inl e ↦ rw (update_usage, e) v
  | inr (node, e) ↦ elim (Bool-cases (ltb node.capacity used)) [
    | inl f ↦ rw (update_usage, e, f) v
    | inr f ↦
        let old = v.each id node e in
        rw (update_usage, e, f)
          (write-IsNodes id (record node { used = used }) nodes v
            (record {
              own_id = old.own_id;
              valid_id = old.valid_id;
              reachable = old.reachable;
              sized = old.sized;
              within = ground (arith, f);
            }))
  ]
]

set_health-IsNodes :
    (id : Text) (healthy : Bool) (nodes : Nodes)
    → IsNodes nodes
    → IsNodes (set_health id healthy nodes).0
unfolding set_health
set_health-IsNodes id healthy nodes v = elim (Option-cases (find id nodes)) [
  | inl e ↦ rw (set_health, e) v
  | inr (node, e) ↦
      let old = v.each id node e in
      rw (set_health, e)
        (write-IsNodes id (record node { healthy = healthy }) nodes v
          (record {
            own_id = old.own_id;
            valid_id = old.valid_id;
            reachable = old.reachable;
            sized = old.sized;
            within = old.within;
          }))
]

pub data Call : Type 0 where
  registers : Text → Text → ℕ → Call
  unregisters : Text → Call
  updates : Text → ℕ → Call
  sets_health : Text → Bool → Call

pub step : Nodes → Call → Nodes
step nodes (registers id endpoint capacity) = (register_node id endpoint capacity nodes).0
step nodes (unregisters id) = (unregister_node id nodes).0
step nodes (updates id used) = (update_usage id used nodes).0
step nodes (sets_health id healthy) = (set_health id healthy nodes).0

pub run : Nodes → List Call → Nodes
run nodes [] = nodes
run nodes (call ∷ calls) = run (step nodes call) calls

run-keeps : (calls : List Call) (nodes : Nodes) → IsNodes nodes → IsNodes (run nodes calls)
unfolding run step
run-keeps [] nodes v = v
run-keeps (registers id endpoint capacity ∷ calls) nodes v =
    run-keeps calls _ (register_node-IsNodes id endpoint capacity nodes v)
run-keeps (unregisters id ∷ calls) nodes v = run-keeps calls _ (unregister_node-IsNodes id nodes v)
run-keeps (updates id used ∷ calls) nodes v =
    run-keeps calls _ (update_usage-IsNodes id used nodes v)
run-keeps (sets_health id healthy ∷ calls) nodes v =
    run-keeps calls _ (set_health-IsNodes id healthy nodes v)

-- After any sequence of calls on an empty registry every node is registered once, under its own valid
-- id and a valid endpoint, with a capacity that is not 0 and a usage that is at most the capacity.
pub run-IsNodes : (calls : List Call) → IsNodes (run [] calls)
unfolding find
run-IsNodes calls =
    run-keeps calls [] (record { unique = tt; each = λ id node e. absurd (ground arith) })
