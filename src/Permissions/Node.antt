-- ===== src/Permissions/Node.antt =====
-- `matches_node` against a description of the patterns.
use vine.Base.{
  true, false, [], ◌∷◌, ◌++◌, none, some, length, Text, codes, text_eq, text_eq_iff,
  to_ascii_lowercase, strip_suffix, strip_suffix_iff, starts_with_iff, ◌≡◌, refl, ◌↔◌, inl, inr,
  arith, Bool-cases, Option-cases,
}
use vine.Permissions.{has_dot_at, below_prefix, matches_lower, matches_node}

-- A pattern in lower case accepts a node in lower case: `*` accepts all, a plain pattern itself,
-- and `p.*` every node that goes on behind `p.`.
pub data Matches (p t : Text) : Type 0 where
  any : p ≡ codes "*" → Matches p t
  exact : p ≡ t → Matches p t
  below : (prefix rest : Text) → p ≡ prefix ++ codes ".*" → t ≡ prefix ++ b'.' ∷ rest → Matches p t

has_dot_at-append : (prefix rest : Text) → has_dot_at (prefix ++ b'.' ∷ rest) (length prefix) ≡ true
unfolding has_dot_at
has_dot_at-append [] rest = refl
has_dot_at-append (c ∷ cs) rest = has_dot_at-append cs rest

has_dot_at_sound :
    (prefix r : Text)
    → has_dot_at (prefix ++ r) (length prefix) ≡ true
    → (rest : Text) × (r ≡ b'.' ∷ rest)
unfolding has_dot_at
has_dot_at_sound [] [] h = cc
has_dot_at_sound [] (c ∷ cs) h = (cs, ground arith)
has_dot_at_sound (x ∷ prefix) r h = has_dot_at_sound prefix r h

-- The wildcard test accepts exactly the nodes that go on behind a dot.
below_prefix_iff :
    (prefix t : Text)
    → (below_prefix t (some prefix) ≡ true) ↔ ((rest : Text) × (t ≡ prefix ++ b'.' ∷ rest))
unfolding below_prefix
below_prefix_iff prefix t = (
  λ h.
      let (r, e) = (starts_with_iff prefix t).0 (ground arith) in
      let (rest, f) =
        has_dot_at_sound prefix r
          (rw e at (let d : has_dot_at t (length prefix) ≡ true = ground arith in d)) in
      (rest, rw f at e),
  λ h.
      let (rest, e) = h in
      ground (
        arith,
        (starts_with_iff prefix t).1 (b'.' ∷ rest, e),
        rw (← e) at (has_dot_at-append prefix rest),
      ),
)

below_prefix-none : (t : Text) → below_prefix t none ≡ false
unfolding below_prefix
below_prefix-none t = refl

matches_lower_sound : (p t : Text) → matches_lower p t ≡ true → Matches p t
unfolding matches_lower
matches_lower_sound p t h = elim (Bool-cases (text_eq p (codes "*"))) [
  | inl e ↦ any ((text_eq_iff _ _).0 e)
  | inr e ↦ elim (Bool-cases (text_eq p t)) [
    | inl f ↦ exact ((text_eq_iff _ _).0 f)
    | inr f ↦ elim (Option-cases (strip_suffix (codes ".*") p)) [
      | inl n ↦ ground (arith, below_prefix-none t)
      | inr (prefix, m) ↦
          let (rest, g) = (below_prefix_iff prefix t).0 (ground arith) in
          below prefix rest ((strip_suffix_iff _ _ _).0 m) g
    ]
  ]
]

matches_lower_complete : (p t : Text) → Matches p t → matches_lower p t ≡ true
unfolding matches_lower
matches_lower_complete p t (any e) = ground (arith, (text_eq_iff p (codes "*")).1 e)
matches_lower_complete p t (exact e) = ground (arith, (text_eq_iff p t).1 e)
matches_lower_complete p t (below prefix rest e f) =
    ground
      (arith, (strip_suffix_iff (codes ".*") p prefix).1 e, (below_prefix_iff prefix t).1 (rest, f))

-- `matches_node` is true exactly if, in lower case, the pattern is `*`, or is the node, or is `p.*`
-- where the node is `p`, a dot and anything.
pub matches_node_iff :
    (pattern target : Text)
    → (matches_node pattern target ≡ true)
      ↔ Matches (to_ascii_lowercase pattern) (to_ascii_lowercase target)
unfolding matches_node
matches_node_iff pattern target = (matches_lower_sound _ _, matches_lower_complete _ _)
