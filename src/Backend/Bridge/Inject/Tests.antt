-- ===== src/Backend/Bridge/Inject/Tests.antt =====
-- src/backend/bridge.rs, `inject_proxy_commands` on a small tree, and with a codec of two bytes a number.
use vine.Backend.Bridge.Inject.{
  ProtoNode, literal_node, args_node, TreeCodec, Tree, takes_args, nodes_for, add_commands,
  read_tree, count_from, flags_from, children_from, read_children, read_child, and_then,
  unless_empty, last_is_zero, without_last, put_all, write_nodes, written, new_payload, add_to_tree,
  inject_proxy_commands,
}
use vine.Backend.Bridge.Inject.Reads.{inject_proxy_commands-Reads, Reads}
use vine.Backend.Bridge.Inject.Placed.{add_commands-AllPlaced, AllPlaced}
use vine.Base.{
  zero, suc, ℤ, pos, negsuc, true, List, [], ◌∷◌, ◌++◌, Option, none, some, Text, codes, text_eq,
  as_i32, length, ◌≡◌, refl, ◌<◌, ◌+◌, ◌^◌, arith,
}

get_number : Text → Option (ℤ × Text)
get_number [] = none
get_number (n ∷ []) = none
get_number (n ∷ zero ∷ rest) = some (pos n, rest)
get_number (n ∷ suc k ∷ rest) = some (negsuc n, rest)

put_number : ℤ → Text
put_number (pos n) = n ∷ 0 ∷ []
put_number (negsuc n) = n ∷ 1 ∷ []

write_name : ProtoNode → Option Text
write_name (literal_node name executable children) = some (1 ∷ name)
write_name args_node = some (2 ∷ [])

abbrev codec : TreeCodec
codec = record {
  get_var_int = get_number;
  put_var_int = put_number;
  write_node = write_name;
  knows_commands = true;
}

get_put_number : (n : ℤ) (t : Text) → get_number (put_number n ++ t) ≡ some (n, t)
unfolding get_number put_number
get_put_number (pos n) t = refl
get_put_number (negsuc n) t = refl

-- A root with the child 1, which is a literal.
abbrev payload : Text
payload = 2 ∷ 0 ∷ 0 ∷ 1 ∷ 0 ∷ 1 ∷ 0 ∷ 9 ∷ 0 ∷ []

abbrev tree : Tree
tree = record { count = 2; children = pos 1 ∷ []; remainder = 9 ∷ 0 ∷ [] }

abbrev commands : List (Text × Text)
commands = (codes "send", []) ∷ (codes "glist", []) ∷ []

-- Nodes 2 and 3 are `send` with its argument, and node 4 is `glist`.
abbrev injected : Text
injected =
    5 ∷ 0 ∷ 0 ∷ 3 ∷ 0 ∷ 1 ∷ 0 ∷ 2 ∷ 0 ∷ 4 ∷ 0 ∷ 9 ∷ (1 ∷ codes "send")
    ++ (2 ∷ 1 ∷ codes "glist")
    ++ (0 ∷ [])

read_payload : read_tree codec payload ≡ some tree
unfolding read_tree get_number last_is_zero count_from flags_from children_from unless_empty
    read_children read_child and_then
read_payload = refl

inject_payload : inject_proxy_commands codec payload commands ≡ some injected
unfolding inject_proxy_commands add_to_tree get_number read_tree last_is_zero count_from flags_from
    children_from unless_empty read_children read_child and_then new_payload write_nodes
    add_commands nodes_for takes_args text_eq written put_number write_name put_all without_last
    as_i32
inject_payload = refl

-- The nodes and the children of the root are few.
few_nodes : 2 + length (add_commands 2 commands).nodes < 2 ^ 31
unfolding add_commands nodes_for takes_args text_eq
few_nodes = omega arith

few_children : 1 + length (add_commands 2 commands).root_children < 2 ^ 31
unfolding add_commands nodes_for takes_args text_eq
few_children = omega arith

inject_proxy_commands-Reads_example :
    Reads codec get_put_number tree (add_commands 2 commands) injected
inject_proxy_commands-Reads_example =
    inject_proxy_commands-Reads codec get_put_number payload commands tree injected read_payload
      few_nodes few_children inject_payload

add_commands-AllPlaced_example :
    AllPlaced
      (args_node ∷ args_node ∷ (add_commands 2 commands).nodes)
      commands
      (add_commands 2 commands).root_children
add_commands-AllPlaced_example = add_commands-AllPlaced (args_node ∷ args_node ∷ []) commands
