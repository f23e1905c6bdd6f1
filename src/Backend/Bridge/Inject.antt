-- ===== src/Backend/Bridge/Inject.antt =====
-- src/backend/bridge.rs, `inject_proxy_commands`: the proxy's commands in a backend's command tree.
-- The reader and the writers of the packet's parts are the parameter `TreeCodec`.
pub mod Placed
pub mod Reads
mod Tests
use mathlib.Core.Option
use vine.Base.{
  ℕ, ℤ, pos, negsuc, zero, suc, ◌+◌, Bool, true, false, not, ◌||◌, ◌&&◌, ◌==◌, if◌then◌else◌, List,
  [], ◌∷◌, ◌++◌, map, Option, none, some, Text, codes, text_eq, as_i32, length,
}

-- A node that the proxy adds: a literal with its children, or the greedy argument `args`.
pub data ProtoNode : Type 0 where
  literal_node : Text → Bool → List ℤ → ProtoNode
  args_node : ProtoNode

pub record TreeCodec : Type 0 where
  pub get_var_int : Text → Option (ℤ × Text)
  -- `VarInt::encode` into a vector
  pub put_var_int : ℤ → Text
  pub write_node : ProtoNode → Option Text
  -- Whether the client's version is 1.13 or later.
  pub knows_commands : Bool

unfoldable pub takes_args : Text → Bool
takes_args name =
    text_eq name (codes "server") || text_eq name (codes "send") || text_eq name (codes "help")

-- The nodes of one command from the next free index on.
unfoldable pub nodes_for : ℕ → Text → List ProtoNode
nodes_for index name =
    if takes_args name
    then literal_node name (not (text_eq name (codes "send"))) (as_i32 (index + 1) ∷ [])
      ∷ args_node
      ∷ []
    else literal_node name true [] ∷ []

pub record Added : Type 0 where
  pub nodes : List ProtoNode
  pub root_children : List ℕ

-- The loop over the commands.
unfoldable pub add_commands : ℕ → List (Text × Text) → Added
add_commands index [] = record { nodes = []; root_children = [] }
add_commands index ((name, help) ∷ rest) =
    let here = nodes_for index name in
    let later = add_commands (index + length here) rest in
    record { nodes = here ++ later.nodes; root_children = index ∷ later.root_children }

unfoldable pub last_is_zero : Text → Bool
last_is_zero [] = false
last_is_zero (b ∷ []) = b == 0
last_is_zero (b ∷ c ∷ rest) = last_is_zero (c ∷ rest)

-- `&cur[..cur.len() - 1]`
unfoldable pub without_last : Text → Text
without_last [] = []
without_last (b ∷ []) = []
without_last (b ∷ c ∷ rest) = b ∷ without_last (c ∷ rest)

-- What the packet says of its root: the number of the nodes, the root's children, and the rest.
pub record Tree : Type 0 where
  pub count : ℕ
  pub children : List ℤ
  pub remainder : Text

module _ (c : TreeCodec) where
  unfoldable pub and_then : ℤ → Option (List ℤ × Text) → Option (List ℤ × Text)
  and_then n none = none
  and_then n (some (ns, rest)) = some (n ∷ ns, rest)

  unfoldable pub read_child :
      Option (ℤ × Text) → (Text → Option (List ℤ × Text)) → Option (List ℤ × Text)
  read_child none read_rest = none
  read_child (some (child, rest)) read_rest = and_then child (read_rest rest)

  unfoldable pub read_children : ℕ → Text → Option (List ℤ × Text)
  read_children zero text = some ([], text)
  read_children (suc n) text = read_child (c.get_var_int text) (λ t. read_children n t)

  unfoldable pub unless_empty : ℕ → Option (List ℤ × Text) → Option Tree
  unless_empty count none = none
  unless_empty count (some (children, [])) = none
  unless_empty count (some (children, b ∷ rest)) =
      some (record { count = count; children = children; remainder = b ∷ rest })

  unfoldable pub children_from : ℕ → Option (ℤ × Text) → Option Tree
  children_from count none = none
  children_from count (some (negsuc n, rest)) = none
  children_from count (some (pos n, rest)) = unless_empty count (read_children n rest)

  unfoldable pub flags_from : ℕ → Text → Option Tree
  flags_from count [] = none
  flags_from count (b ∷ rest) = if b == 0 then children_from count (c.get_var_int rest) else none

  unfoldable pub count_from : Option (ℤ × Text) → Option Tree
  count_from none = none
  count_from (some (negsuc n, rest)) = none
  count_from (some (pos zero, rest)) = none
  count_from (some (pos (suc n), rest)) = flags_from (suc n) rest

  unfoldable pub read_tree : Text → Option Tree
  read_tree payload = if last_is_zero payload then count_from (c.get_var_int payload) else none

  unfoldable pub written : Option Text → Option Text → Option Text
  written none later = none
  written (some here) none = none
  written (some here) (some later) = some (here ++ later)

  unfoldable pub write_nodes : List ProtoNode → Option Text
  write_nodes [] = some []
  write_nodes (n ∷ rest) = written (c.write_node n) (write_nodes rest)

  unfoldable pub put_all : List ℤ → Text
  put_all [] = []
  put_all (n ∷ rest) = c.put_var_int n ++ put_all rest

  unfoldable pub new_payload : Tree → Added → Option Text → Option Text
  new_payload tree added none = none
  new_payload tree added (some bytes) = some (
      c.put_var_int (as_i32 (tree.count + length added.nodes))
      ++ 0 ∷ c.put_var_int (as_i32 (length tree.children + length added.root_children))
      ++ put_all tree.children
      ++ put_all (map as_i32 added.root_children)
      ++ without_last tree.remainder
      ++ bytes
      ++ 0 ∷ [])

  unfoldable pub add_to_tree : List (Text × Text) → Option Tree → Option Text
  add_to_tree commands none = none
  add_to_tree commands (some tree) =
      let added = add_commands tree.count commands in
      new_payload tree added (write_nodes added.nodes)

  unfoldable pub inject_proxy_commands : Text → List (Text × Text) → Option Text
  inject_proxy_commands payload [] = none
  inject_proxy_commands payload (command ∷ rest) =
      if c.knows_commands then add_to_tree (command ∷ rest) (read_tree payload) else none
