-- ===== src/Eth/Converter/Paths.antt =====
-- What Convert keeps of the state nodes and of the storage nodes under each.
use mathlib.Core.List.{append_assoc, append-nil}
use vulcanize_db.Prelude.{
  ◌≡◌, refl, sym, ap, ◌∙◌, inl, inr, String, false, List, [], ◌∷◌, ◌++◌, map, Option, none, some,
  ◌==◌, ==_sym, string_eq, if◌then◌else◌, Bool-cases,
}
use vulcanize_db.Prelude.Assoc.{find}
use vulcanize_db.Eth.{TrieNode}
use vulcanize_db.Eth.Converter.{
  StateDiff, StorageDiff, Library, append_at, storage_loop, state_loop, storage_trie_node,
  state_trie_node,
}

abbrev or_none : Option (List TrieNode) → List TrieNode
or_none none = []
or_none (some nodes) = nodes

-- The map's nodes at a path; a missing key reads as no nodes.
abbrev pub nodes_at : String → List (String × List TrieNode) → List TrieNode
nodes_at path found = or_none (find path found)

append_at-nodes_at :
    (path key : String) (node : TrieNode) (found : List (String × List TrieNode))
    → nodes_at path (append_at key node found)
      ≡ nodes_at path found ++ (if key == path then node ∷ [] else [])
unfolding append_at
append_at-nodes_at path key node [] = elim (Bool-cases (key == path)) [
  | inl same ↦ rw (==_sym path key, same) refl
  | inr other ↦ rw (==_sym path key, other) refl
]
append_at-nodes_at path key node ((first, nodes) ∷ found) =
    let later = append_at-nodes_at path key node found in
    elim (Bool-cases (first == key)) [
      | inl mine ↦
          let e : first ≡ key = (string_eq.equal_iff first key).0 mine in
          let swapped : (path == first) ≡ (key == path) = ap (λ k. path == k) e ∙ ==_sym path key in
          elim (Bool-cases (key == path)) [
            | inl here ↦ rw (mine, swapped, here) refl
            | inr away ↦ rw (mine, swapped, away) (sym (append-nil (nodes_at path found)))
          ]
      | inr other ↦ elim (Bool-cases (path == first)) [
        | inl here ↦
            let e : path ≡ first = (string_eq.equal_iff path first).0 here in
            let away : (key == path) ≡ false = ap (λ p. key == p) e ∙ ==_sym key first ∙ other in
            rw (other, here, away) (sym (append-nil nodes))
        | inr away ↦ rw (other, away) later
      ]
    ]

module _ (lib : Library) where
  -- The storage nodes of the state nodes at a path, in their order
  abbrev pub storage_at : String → List StateDiff → List TrieNode
  storage_at path [] = []
  storage_at path (node ∷ nodes) =
      (if lib.bytes_to_hex node.path == path
        then map (storage_trie_node lib) node.storage_nodes
        else [])
      ++ storage_at path nodes

  storage_loop-nodes_at :
      (path key : String) (nodes : List StorageDiff) (found : List (String × List TrieNode))
      → nodes_at path (storage_loop lib key nodes found)
        ≡ nodes_at path found ++ (if key == path then map (storage_trie_node lib) nodes else [])
  unfolding storage_loop
  storage_loop-nodes_at path key [] found = elim (Bool-cases (key == path)) [
    | inl here ↦ rw (here) (sym (append-nil (nodes_at path found)))
    | inr away ↦ rw (away) (sym (append-nil (nodes_at path found)))
  ]
  storage_loop-nodes_at path key (node ∷ nodes) found =
      let first = storage_trie_node lib node in
      let later = storage_loop-nodes_at path key nodes (append_at key first found) in
      let one = append_at-nodes_at path key first found in
      elim (Bool-cases (key == path)) [
        | inl here ↦ rw (here) (
            (rw (here) at later)
            ∙ ap (λ ns. ns ++ map (storage_trie_node lib) nodes) (rw (here) at one)
            ∙ append_assoc (nodes_at path found) (first ∷ []) (map (storage_trie_node lib) nodes))
        | inr away ↦ rw (away) (
            (rw (away) at later)
            ∙ ap (λ ns. ns ++ []) (rw (away) at one)
            ∙ append_assoc (nodes_at path found) [] [])
      ]

  state_loop-nodes_at :
      (path : String) (nodes : List StateDiff) (found : List (String × List TrieNode))
      → nodes_at path (state_loop lib nodes found).1 ≡ nodes_at path found ++ storage_at path nodes
  unfolding state_loop
  state_loop-nodes_at path [] found = sym (append-nil _)
  state_loop-nodes_at path (node ∷ nodes) found =
      let key = lib.bytes_to_hex node.path in
      let own = if key == path then map (storage_trie_node lib) node.storage_nodes else [] in
      state_loop-nodes_at path nodes (storage_loop lib key node.storage_nodes found)
      ∙ ap (λ ns. ns ++ storage_at path nodes)
          (storage_loop-nodes_at path key node.storage_nodes found)
      ∙ append_assoc (nodes_at path found) own (storage_at path nodes)

  state_loop-nodes :
      (nodes : List StateDiff) (found : List (String × List TrieNode))
      → (state_loop lib nodes found).0 ≡ map (state_trie_node lib) nodes
  unfolding state_loop
  state_loop-nodes [] found = refl
  state_loop-nodes (node ∷ nodes) found =
      ap (λ rest. state_trie_node lib node ∷ rest)
        (state_loop-nodes nodes
          (storage_loop lib (lib.bytes_to_hex node.path) node.storage_nodes found))

  -- The loop over the state diff keeps every state node in its order, and under each path exactly
  -- the storage nodes of the state nodes with that path, in their order.
  pub state_loop-groups :
      (nodes : List StateDiff)
      → ((state_loop lib nodes []).0 ≡ map (state_trie_node lib) nodes)
        × ((path : String) → nodes_at path (state_loop lib nodes []).1 ≡ storage_at path nodes)
  state_loop-groups nodes = (state_loop-nodes nodes [], λ path. state_loop-nodes_at path nodes [])
