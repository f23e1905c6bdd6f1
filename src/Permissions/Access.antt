-- ===== src/Permissions/Access.antt =====
-- `has_permission` of src/permissions.rs against its description.
use vine.Base.{
  any, any_iff, ◌≢◌, starts_with_iff, true, false, List, ◌∷◌, Text, codes, to_ascii_lowercase, ◌≡◌,
  ◌↔◌, arith, Bool-cases, Option-cases, inl, inr, strip_prefix, strip_prefix_iff, starts_with,
}
use vine.Permissions.{PermissionsConfig, collect_permissions, denies, grants, has_permission}
use vine.Permissions.Reach.{UserHolds}
use vine.Permissions.Node.{Matches, matches_node_iff}
use vine.Permissions.Collect.{collect_permissions_iff}

-- A permission refuses a node: it is `-` before a pattern for the node.
pub data Refuses (node p : Text) : Type 0 where
  negated :
      (pattern : Text)
      → p ≡ b'-' ∷ pattern
      → Matches (to_ascii_lowercase pattern) (to_ascii_lowercase node)
      → Refuses node p

-- A permission allows a node: it is a pattern for the node, and does not begin with `-`.
pub record Allows (node p : Text) : Type 0 where
  pub positive : (rest : Text) → p ≢ b'-' ∷ rest
  pub matching : Matches (to_ascii_lowercase p) (to_ascii_lowercase node)

denies_iff : (node p : Text) → (denies node p ≡ true) ↔ Refuses node p
unfolding denies
denies_iff node p = (sound, complete)
  where
    sound : denies node p ≡ true → Refuses node p
    sound h = elim (Option-cases (strip_prefix (codes "-") p)) [
      | inl e ↦ ground arith
      | inr (pattern, e) ↦
          negated pattern ((strip_prefix_iff _ p pattern).0 e)
            ((matches_node_iff pattern node).0 (ground arith))
    ]

    complete : Refuses node p → denies node p ≡ true
    complete (negated pattern e m) =
        ground
          (arith, (strip_prefix_iff (codes "-") p pattern).1 e, (matches_node_iff pattern node).1 m)

positive_of_test : (p : Text) → starts_with (codes "-") p ≡ false → (rest : Text) → p ≢ b'-' ∷ rest
positive_of_test p h rest e = cc (h, (starts_with_iff (codes "-") p).1 (rest, e))

test_of_positive :
    (p : Text) → ((rest : Text) → p ≢ b'-' ∷ rest) → starts_with (codes "-") p ≡ false
test_of_positive p h = elim (Bool-cases (starts_with (codes "-") p)) [
  | inl e ↦ let (rest, f) = (starts_with_iff (codes "-") p).0 e in absurd (h rest f)
  | inr e ↦ e
]

grants_iff : (node p : Text) → (grants node p ≡ true) ↔ Allows node p
unfolding grants
grants_iff node p = (
  λ h. record {
    positive = positive_of_test p (ground arith);
    matching = (matches_node_iff p node).0 (ground arith);
  },
  λ h. ground (arith, test_of_positive p h.positive, (matches_node_iff p node).1 h.matching),
)

-- For every configuration, user and node: `has_permission` is true exactly if some permission that
-- the user holds is positive and matches the node, and no permission that the user holds is a
-- negative one that matches it.
pub has_permission_iff :
    (c : PermissionsConfig) (username node : Text)
    → (has_permission c username node ≡ true) ↔ (
        ((p : Text) × UserHolds c username p × Allows node p)
        × ((p : Text) → UserHolds c username p → ¬ Refuses node p))
unfolding has_permission
has_permission_iff c username node = (sound, complete)
  where
    perms : List Text
    perms = collect_permissions c username

    sound :
        has_permission c username node ≡ true
        → (((p : Text) × UserHolds c username p × Allows node p)
            × ((p : Text) → UserHolds c username p → ¬ Refuses node p))
    sound h =
        let (p, i, e) = (any_iff (grants node) perms).0 (ground arith) in
        (
          (p, (collect_permissions_iff c username p).0 i, (grants_iff node p).0 e),
          λ q held refused.
              let denied : any (denies node) perms ≡ true =
                (any_iff (denies node) perms).1 (
                  q,
                  (collect_permissions_iff c username q).1 held,
                  (denies_iff node q).1 refused,
                ) in
              ground arith,
        )

    complete :
        (((p : Text) × UserHolds c username p × Allows node p)
          × ((p : Text) → UserHolds c username p → ¬ Refuses node p))
        → has_permission c username node ≡ true
    complete ((p, held, allowed), unrefused) = elim (Bool-cases (any (denies node) perms)) [
      | inl e ↦
          let (q, i, r) = (any_iff (denies node) perms).0 e in
          absurd
            (unrefused q ((collect_permissions_iff c username q).0 i) ((denies_iff node q).0 r))
      | inr e ↦
          let granted : any (grants node) perms ≡ true =
            (any_iff (grants node) perms).1
              (p, (collect_permissions_iff c username p).1 held, (grants_iff node p).1 allowed) in
          ground arith
    ]
