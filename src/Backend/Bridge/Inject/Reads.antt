-- ===== src/Backend/Bridge/Inject/Reads.antt =====
-- src/backend/bridge.rs, `inject_proxy_commands`: what a reader finds in the new packet.
use vine.Backend.Bridge.Inject.{
  TreeCodec, Tree, Added, read_children, read_child, and_then, unless_empty, children_from,
  flags_from, count_from, read_tree, last_is_zero, without_last, put_all, new_payload, nodes_for,
  add_to_tree, add_commands, inject_proxy_commands, write_nodes,
}
use vine.Backend.Forwarding.Payload.{as_i32_small}
use vine.Base.{
  ℕ, ℤ, pos, zero, suc, ◌+◌, ◌<◌, ◌^◌, Bool, true, false, if◌then◌else◌, List, [], ◌∷◌, ◌++◌, map,
  Option, none, some, Text, as_i32, length, ◌≡◌, refl, arith, append_assoc, length-append, ◌∙◌, ap,
  sym,
}

last_is_zero_cons : (x : ℕ) (t : Text) → last_is_zero t ≡ true → last_is_zero (x ∷ t) ≡ true
unfolding last_is_zero
last_is_zero_cons x [] h = absurd cc
last_is_zero_cons x (b ∷ t) h = h

last_is_zero_append : (xs t : Text) → last_is_zero t ≡ true → last_is_zero (xs ++ t) ≡ true
last_is_zero_append [] t h = h
last_is_zero_append (x ∷ xs) t h = last_is_zero_cons x (xs ++ t) (last_is_zero_append xs t h)

length-map : (f : ℕ → ℤ) (ns : List ℕ) → length (map f ns) ≡ length ns
length-map f [] = refl
length-map f (n ∷ ns) = omega (arith, length-map f ns)

pub nodes_for_nonempty : (index : ℕ) (name : Text) → 0 < length (nodes_for index name)
unfolding nodes_for
nodes_for_nonempty index name = ground arith

-- Some command adds some node.
pub add_commands_nonempty :
    (index : ℕ) (command : Text × Text) (rest : List (Text × Text))
    → 0 < length (add_commands index (command ∷ rest)).nodes
unfolding add_commands
add_commands_nonempty index (name, help) rest =
    let here = nodes_for index name in
    let later = add_commands (index + length here) rest in
    omega (arith, nodes_for_nonempty index name, length-append here later.nodes)

some_injective : (a b : Text) → some a ≡ some b → a ≡ b
some_injective a b e = cc e

when_some :
    (b : Bool) (x : Option Text) (out : Text) → (if b then x else none) ≡ some out → x ≡ some out
when_some true x out e = e
when_some false x out e = absurd cc

zero_ends : last_is_zero (0 ∷ []) ≡ true
unfolding last_is_zero
zero_ends = refl

module _ (c : TreeCodec)
    (get_put : (n : ℤ) (t : Text) → c.get_var_int (c.put_var_int n ++ t) ≡ some (n, t)) where
  read_children-put_all :
      (ns : List ℤ) (t : Text) → read_children c (length ns) (put_all c ns ++ t) ≡ some (ns, t)
  unfolding read_children read_child and_then put_all
  read_children-put_all [] t = refl
  read_children-put_all (n ∷ ns) t =
      rw (append_assoc (c.put_var_int n) (put_all c ns) t)
        (rw (get_put n (put_all c ns ++ t)) (rw (read_children-put_all ns t) refl))

  put_all-append : (ns ms : List ℤ) → put_all c (ns ++ ms) ≡ put_all c ns ++ put_all c ms
  unfolding put_all
  put_all-append [] ms = refl
  put_all-append (n ∷ ns) ms =
      rw (put_all-append ns ms) (sym (append_assoc (c.put_var_int n) (put_all c ns) (put_all c ms)))

  unless_empty_cons :
      (count : ℕ) (ns : List ℤ) (front : Text)
      → unless_empty c count (some (ns, front ++ (0 ∷ [])))
        ≡ some (record { count = count; children = ns; remainder = front ++ (0 ∷ []) })
  unfolding unless_empty
  unless_empty_cons count ns [] = refl
  unless_empty_cons count ns (x ∷ front) = refl

  -- A packet with `count` nodes and the children `ns`, in the order of a reader.
  abbrev packet : ℕ → List ℤ → Text → Text
  packet count ns front =
      c.put_var_int (pos count)
      ++ (0 ∷ (c.put_var_int (pos (length ns)) ++ (put_all c ns ++ (front ++ (0 ∷ [])))))

  packet_ends :
      (count : ℕ) (ns : List ℤ) (front : Text) → last_is_zero (packet count ns front) ≡ true
  packet_ends count ns front = last_is_zero_append (c.put_var_int (pos count)) _ (
      last_is_zero_cons 0 _ (
        last_is_zero_append (c.put_var_int (pos (length ns))) _
          (last_is_zero_append (put_all c ns) _ (last_is_zero_append front (0 ∷ []) zero_ends))))

  read_nonempty_packet :
      (count : ℕ) (ns : List ℤ) (front : Text)
      → read_tree c (packet (suc count) ns front)
        ≡ some (record { count = suc count; children = ns; remainder = front ++ (0 ∷ []) })
  unfolding read_tree count_from flags_from children_from
  read_nonempty_packet count ns front =
      let ends = packet_ends (suc count) ns front in
      let first =
        get_put (pos (suc count))
          (0 ∷ (c.put_var_int (pos (length ns)) ++ (put_all c ns ++ (front ++ (0 ∷ []))))) in
      let second = get_put (pos (length ns)) (put_all c ns ++ (front ++ (0 ∷ []))) in
      let third = read_children-put_all ns (front ++ (0 ∷ [])) in
      rw ends (rw first (rw second (rw third (unless_empty_cons (suc count) ns front))))

  read_packet :
      (count : ℕ) (ns : List ℤ) (front : Text)
      → 0 < count
      → read_tree c (packet count ns front)
        ≡ some (record { count = count; children = ns; remainder = front ++ (0 ∷ []) })
  read_packet zero ns front h = absurd (omega (arith, h))
  read_packet (suc count) ns front h = read_nonempty_packet count ns front

  new_packet : Tree → Added → Text → Text
  new_packet tree added bytes =
      packet (tree.count + length added.nodes) (tree.children ++ map as_i32 added.root_children)
        (without_last tree.remainder ++ bytes)

  new_payload-packet :
      (tree : Tree) (added : Added) (bytes : Text)
      → tree.count + length added.nodes < 2 ^ 31
      → length tree.children + length added.root_children < 2 ^ 31
      → new_payload c tree added (some bytes) ≡ some (new_packet tree added bytes)
  unfolding new_payload new_packet
  new_payload-packet tree added bytes nodes children =
      let size : length (tree.children ++ map as_i32 added.root_children)
          ≡ length tree.children + length added.root_children =
        length-append tree.children (map as_i32 added.root_children)
        ∙ ap (λ n. length tree.children + n) (length-map as_i32 added.root_children) in
      rw (as_i32_small _ nodes) (
        rw (as_i32_small _ children) (
          rw size (
            rw (put_all-append tree.children (map as_i32 added.root_children))
              (ap some (simp append_assoc)))))

  abbrev pub Reads : Tree → Added → Text → Type 0
  Reads tree added out =
      (bytes : Text) × ((write_nodes c added.nodes ≡ some bytes)
        × (read_tree c out
            ≡ some (record {
              count = tree.count + length added.nodes;
              children = tree.children ++ map as_i32 added.root_children;
              remainder = without_last tree.remainder ++ bytes ++ (0 ∷ []);
            })))

  no_payload :
      (tree : Tree) (added : Added) (out : Text) → ¬ (new_payload c tree added none ≡ some out)
  unfolding new_payload
  no_payload tree added out e = absurd cc

  new_payload-Reads :
      (tree : Tree) (added : Added) (bytes : Option Text) (out : Text)
      → write_nodes c added.nodes ≡ bytes
      → 0 < length added.nodes
      → tree.count + length added.nodes < 2 ^ 31
      → length tree.children + length added.root_children < 2 ^ 31
      → new_payload c tree added bytes ≡ some out
      → Reads tree added out
  unfolding new_packet
  new_payload-Reads tree added none out w some_node nodes children e =
      absurd (no_payload tree added out e)
  new_payload-Reads tree added (some bytes) out w some_node nodes children e =
      let same : new_packet tree added bytes ≡ out =
        some_injective _ _ (sym (new_payload-packet tree added bytes nodes children) ∙ e) in
      (bytes, (w, rw (sym same) (read_packet _ _ _ (omega (arith, some_node)))))

  -- Where commands are added to a packet with a command tree, a reader of the result finds as many
  -- nodes as before and the added ones, the children of the root as before and behind them the
  -- indices of the commands, and then the backend's nodes unchanged up to the last byte, the added
  -- nodes, and the index 0 of the root: for a reader that undoes the writer of numbers, and fewer
  -- than 2 ^ 31 nodes and children.
  pub inject_proxy_commands-Reads :
      (payload : Text) (commands : List (Text × Text)) (tree : Tree) (out : Text)
      → let added = add_commands tree.count commands in
        read_tree c payload ≡ some tree
        → tree.count + length added.nodes < 2 ^ 31
        → length tree.children + length added.root_children < 2 ^ 31
        → inject_proxy_commands c payload commands ≡ some out
        → Reads tree added out
  unfolding inject_proxy_commands add_to_tree
  inject_proxy_commands-Reads payload [] tree out found nodes children e = absurd cc
  inject_proxy_commands-Reads payload (command ∷ rest) tree out found nodes children e =
      let added = add_commands tree.count (command ∷ rest) in
      let passed : add_to_tree c (command ∷ rest) (read_tree c payload) ≡ some out =
        when_some c.knows_commands _ out e in
      let made : new_payload c tree added (write_nodes c added.nodes) ≡ some out =
        rw found at passed in
      new_payload-Reads tree added (write_nodes c added.nodes) out refl
        (add_commands_nonempty tree.count command rest) nodes children made
