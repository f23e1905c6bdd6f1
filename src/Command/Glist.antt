-- ===== src/Command/Glist.antt =====
-- Who stands where in the answer of `/glist`.
use vine.Base.{
  List, [], ◌∷◌, ◌++◌, map, some, Text, text_eq, text_eq_iff, text_key, lookup, insert,
  lookup-insert, DistinctKeys, insert-DistinctKeys, In, In-append, In-append_left, In-append_right,
  In-lookup, lookup-In, if◌then◌else◌, ◌≡◌, ◌↔◌, ◌⊎◌, inl, inr, refl, sym, ◌∙◌, ap, arith,
  Bool-cases, Option-cases,
}
use vine.Session.{PlayerSession, list_sessions}
use vine.Command.{
  ProxyCommandSource, text_leb, insert_sorted, sort_by, sort, or_default, empty_groups,
  group_players, rows, glist_rows,
}

module _ {A : Type 0} (key : A → Text) where
  insert_sorted-In : (x y : A) (ys : List A) → In x (insert_sorted key y ys) ↔ ((x ≡ y) ⊎ In x ys)
  unfolding insert_sorted
  insert_sorted-In x y [] = (λ i. i, λ i. i)
  insert_sorted-In x y (z ∷ zs) = elim (Bool-cases (text_leb (key y) (key z))) [
    | inl e ↦ rw e (λ i. i, λ i. i)
    | inr e ↦ rw e (
      λ i. elim i [
        | inl f ↦ inr (inl f)
        | inr j ↦ elim ((insert_sorted-In x y zs).0 j) [ inl f ↦ inl f | inr k ↦ inr (inr k) ]
      ],
      λ i. elim i [
        | inl f ↦ inr ((insert_sorted-In x y zs).1 (inl f))
        | inr j ↦ elim j [ inl f ↦ inl f | inr k ↦ inr ((insert_sorted-In x y zs).1 (inr k)) ]
      ],
    )
  ]

  sort_by-In : (x : A) (xs : List A) → In x (sort_by key xs) ↔ In x xs
  unfolding sort_by
  sort_by-In x [] = (λ i. i, λ i. i)
  sort_by-In x (y ∷ ys) = (
    λ i. elim ((insert_sorted-In x y (sort_by key ys)).0 i) [
      | inl e ↦ inl e
      | inr j ↦ inr ((sort_by-In x ys).0 j)
    ],
    λ i.
        (insert_sorted-In x y (sort_by key ys)).1
          (elim i [ inl e ↦ inl e | inr j ↦ inr ((sort_by-In x ys).1 j) ]),
  )

-- The names of a group, and none where there is no group.
abbrev named : List (Text × List Text) → Text → List Text
named m k = or_default (lookup m k)

named-nil : (k : Text) → named [] k ≡ []
unfolding lookup or_default
named-nil k = refl

named-insert :
    (m : List (Text × List Text)) (k j : Text) (ns : List Text)
    → named (insert m k ns) j ≡ (if text_eq k j then ns else named m j)
unfolding or_default
named-insert m k j ns = ground (arith, lookup-insert m k j ns)

empty_groups-named :
    {V : Type 0} (servers : List (Text × V)) (m : List (Text × List Text)) (k : Text)
    → named (empty_groups servers m) k ≡ named m k
unfolding empty_groups
empty_groups-named [] m k = refl
empty_groups-named ((j, v) ∷ servers) m k =
    empty_groups-named servers (insert m j (named m j)) k
    ∙ named-insert m j k (named m j)
    ∙ (elim (Bool-cases (text_eq j k)) [
      | inl e ↦ rw (e, (text_eq_iff j k).0 e) refl
      | inr e ↦ rw e refl
    ])

empty_groups-DistinctKeys :
    {V : Type 0} (servers : List (Text × V)) (m : List (Text × List Text))
    → DistinctKeys m
    → DistinctKeys (empty_groups servers m)
unfolding empty_groups
empty_groups-DistinctKeys [] m d = d
empty_groups-DistinctKeys ((j, v) ∷ servers) m d =
    empty_groups-DistinctKeys servers (insert m j (named m j))
      (insert-DistinctKeys m j (named m j) d)

group_players-DistinctKeys :
    (ss : List PlayerSession) (m : List (Text × List Text))
    → DistinctKeys m
    → DistinctKeys (group_players ss m)
unfolding group_players
group_players-DistinctKeys [] m d = d
group_players-DistinctKeys (s ∷ ss) m d =
    group_players-DistinctKeys ss
      (insert m s.current_server (named m s.current_server ++ s.username ∷ []))
      (insert-DistinctKeys m s.current_server (named m s.current_server ++ s.username ∷ []) d)

-- A player of this name is on this server.
abbrev pub Plays : List PlayerSession → Text → Text → Type 0
Plays ss server name =
    (s : PlayerSession) × In s ss × (s.current_server ≡ server) × (s.username ≡ name)

In-pushed :
    (m : List (Text × List Text)) (server player k name : Text)
    → In name (named (insert m server (named m server ++ player ∷ [])) k)
      ↔ (In name (named m k) ⊎ ((server ≡ k) × (player ≡ name)))
In-pushed m server player k name = elim (Bool-cases (text_eq server k)) [
  | inl e ↦
      let same = (text_eq_iff server k).0 e in
      rw (named-insert m server k (named m server ++ player ∷ []), e, ← same)
        (
          λ i. elim (In-append name (named m server) (player ∷ []) i) [
            | inl j ↦ inl j
            | inr j ↦ elim j [ inl f ↦ inr (refl, sym f) | inr n ↦ absurd n ]
          ],
          λ i. elim i [
            | inl j ↦ In-append_left name (named m server) (player ∷ []) j
            | inr f ↦ In-append_right name (named m server) (player ∷ []) (inl (sym f.1))
          ],
        )
  | inr e ↦
      rw (named-insert m server k (named m server ++ player ∷ []), e)
        (
          λ i. inl i,
          λ i. elim i [ inl j ↦ j | inr f ↦ absurd (let yes = (text_eq_iff server k).1 f.0 in cc) ],
        )
]

group_players-In :
    (ss : List PlayerSession) (m : List (Text × List Text)) (k name : Text)
    → In name (named (group_players ss m) k) ↔ (In name (named m k) ⊎ Plays ss k name)
unfolding group_players
group_players-In [] m k name = (λ i. inl i, λ i. elim i [ inl j ↦ j | inr (s, j, e, f) ↦ absurd j ])
group_players-In (s ∷ ss) m k name =
    let m' : List (Text × List Text) =
      insert m s.current_server (named m s.current_server ++ s.username ∷ []) in
    let pushed = In-pushed m s.current_server s.username k name in
    let rest = group_players-In ss m' k name in
    (
      λ i. elim (rest.0 i) [
        | inl j ↦ elim (pushed.0 j) [ inl l ↦ inl l | inr (e, f) ↦ inr (s, inl refl, e, f) ]
        | inr (t, j, e, f) ↦ inr (t, inr j, e, f)
      ],
      λ i. rest.1 (elim i [
        | inl j ↦ inl (pushed.1 (inl j))
        | inr (t, j, e, f) ↦ elim j [
          | inl g ↦ inl (
              pushed.1
                (inr (ap (λ x. x.current_server) (sym g) ∙ e, ap (λ x. x.username) (sym g) ∙ f)))
          | inr l ↦ inr (t, l, e, f)
        ]
      ]),
    )

In-map :
    (m : List (Text × List Text)) (f : Text × List Text → Text × List Text) (x : Text × List Text)
    → In x (map f m) ↔ ((y : Text × List Text) × In y m × (x ≡ f y))
In-map [] f x = (λ i. absurd i, λ (y, i, e). absurd i)
In-map (z ∷ m) f x = (
  λ i. elim i [
    | inl e ↦ (z, inl refl, e)
    | inr j ↦ let (y, l, e) = (In-map m f x).0 j in (y, inr l, e)
  ],
  λ (y, i, e). elim i [ inl g ↦ inl (e ∙ ap f g) | inr j ↦ inr ((In-map m f x).1 (y, j, e)) ],
)

-- A name that a row lists is one of the group.
rows-In :
    (m : List (Text × List Text)) (k name : Text)
    → DistinctKeys m
    → ((ps : List Text) × In (k, ps) (rows m) × In name ps) ↔ In name (named m k)
unfolding rows sort or_default
rows-In m k name d = (
  λ (ps, i, j).
      let ((k', ns), l, e) =
        (In-map m (λ g. (g.0, sort g.1)) (k, ps)).0
          ((sort_by-In (λ g. g.0) (k, ps) (map (λ g. (g.0, sort g.1)) m)).0 i) in
      let found : lookup m k ≡ some ns = ap (lookup m) (ap (λ x. x.0) e) ∙ In-lookup m k' ns d l in
      rw found ((sort_by-In (λ t. t) name ns).0 (rw (ap (λ x. x.1) e) at j)),
  λ i. elim (Option-cases (lookup m k)) [
    | inl e ↦ absurd (rw e at i)
    | inr (ns, e) ↦ (
      sort ns,
      (sort_by-In (λ g. g.0) (k, sort ns) (map (λ g. (g.0, sort g.1)) m)).1
          ((In-map m (λ g. (g.0, sort g.1)) (k, sort ns)).1 ((k, ns), lookup-In m k ns e, refl)),
      (sort_by-In (λ t. t) name ns).1 (rw e at i),
    )
  ],
)

-- A row of the answer of `/glist` under a server lists a name exactly if some registered session of
-- that name is on that server.
pub glist_rows_iff :
    (s : ProxyCommandSource) (server name : Text)
    → ((players : List Text) × In (server, players) (glist_rows s) × In name players)
      ↔ Plays (list_sessions s.session_manager) server name
unfolding glist_rows
glist_rows_iff s server name =
    let ss = list_sessions s.session_manager in
    let start = empty_groups s.config.servers [] in
    let distinct =
      group_players-DistinctKeys ss start (empty_groups-DistinctKeys s.config.servers [] tt) in
    let none_yet : named start server ≡ [] =
      empty_groups-named s.config.servers [] server ∙ named-nil server in
    (
      λ listed.
          elim ((group_players-In ss start server name).0
            ((rows-In (group_players ss start) server name distinct).0 listed)) [
              | inl i ↦ absurd (rw none_yet at i)
              | inr p ↦ p
            ],
      λ p.
          (rows-In (group_players ss start) server name distinct).1
            ((group_players-In ss start server name).1 (inr p)),
    )
