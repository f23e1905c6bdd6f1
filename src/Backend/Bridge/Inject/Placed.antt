-- ===== src/Backend/Bridge/Inject/Placed.antt =====
-- src/backend/bridge.rs, `inject_proxy_commands`: where the nodes of the commands stand.
use vine.Backend.Bridge.Inject.{
  ProtoNode, literal_node, args_node, takes_args, nodes_for, add_commands,
}
use vine.Base.{
  ℕ, suc, ◌+◌, true, false, not, if◌then◌else◌, List, [], ◌∷◌, ◌++◌, some, Text, codes, text_eq,
  as_i32, length, length-append, get_elem?, append_assoc, ◌≡◌, refl, arith, Bool-cases, inl, inr,
}

-- The nodes of a command whose literal has the index `r`.
pub Placed : List ProtoNode → Text → ℕ → Type 0
Placed all name r =
    if takes_args name
    then (get_elem? all r
        ≡ some (literal_node name (not (text_eq name (codes "send"))) (as_i32 (r + 1) ∷ [])))
      × (get_elem? all (r + 1) ≡ some args_node)
    else get_elem? all r ≡ some (literal_node name true [])

-- Each command has its index, in their order.
pub AllPlaced : List ProtoNode → List (Text × Text) → List ℕ → Type 0
AllPlaced all [] [] = true ≡ true
AllPlaced all [] (r ∷ rs) = true ≡ false
AllPlaced all (command ∷ rest) [] = true ≡ false
AllPlaced all ((name, help) ∷ rest) (r ∷ rs) = Placed all name r × AllPlaced all rest rs

elem_after :
    {A : Type 0}
    → (front : List A) (x : A) (rest : List A)
    → get_elem? (front ++ (x ∷ rest)) (length front) ≡ some x
elem_after [] x rest = refl
elem_after (y ∷ front) x rest = elem_after front x rest

elem_after_next :
    {A : Type 0}
    → (front : List A) (x y : A) (rest : List A)
    → get_elem? (front ++ (x ∷ y ∷ rest)) (suc (length front)) ≡ some y
elem_after_next [] x y rest = refl
elem_after_next (z ∷ front) x y rest = elem_after_next front x y rest

after_suc : (n : ℕ) → n + 1 ≡ suc n
after_suc n = omega arith

nodes_for-Placed :
    (front : List ProtoNode) (name : Text) (rest : List ProtoNode)
    → Placed (front ++ (nodes_for (length front) name ++ rest)) name (length front)
unfolding Placed nodes_for
nodes_for-Placed front name rest = elim (Bool-cases (takes_args name)) [
  | inl y ↦ rw y (elem_after front _ _, rw (after_suc (length front)) (elem_after_next front _ _ _))
  | inr n ↦ rw n (elem_after front _ _)
]

-- Behind any nodes of a backend, the index that the root gets for each command is that of the
-- literal with the command's name; where the command takes arguments, the child of that literal is
-- the next index, and the node there is the argument.
pub add_commands-AllPlaced :
    (front : List ProtoNode) (commands : List (Text × Text))
    → let added = add_commands (length front) commands in
      AllPlaced (front ++ added.nodes) commands added.root_children
unfolding AllPlaced add_commands
add_commands-AllPlaced front [] = refl
add_commands-AllPlaced front ((name, help) ∷ rest) =
    let here = nodes_for (length front) name in
    let later = add_commands-AllPlaced (front ++ here) rest in
    let counted = rw (length-append front here) at later in
    (nodes_for-Placed front name _, rw (append_assoc front here _) at counted)
