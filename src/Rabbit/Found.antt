-- ===== src/Rabbit/Found.antt =====
-- What the search for the handlers of queues finds.
use core_status.Base.{
  String, Bool-cases, true, ◌≡◌, refl, sym, ap, ◌↔◌, ◌⊎◌, inl, inr, Option, none, some, List, [],
  ◌∷◌, ◌++◌, map, length, select, ltb, ◌===◌, ===_iff, In, In-select, select-In, arith,
}
use core_status.Rabbit.{
  RabbitSubscriberMetadata, Framework, get, push_defined, push_keys, push_maps, has_controllers,
  find_controllers, bind_instance, scan, spread, find_subscribed_handlers, explore,
}

In-append : {A : Type 0} (x : A) (xs ys : List A) → In x (xs ++ ys) → In x xs ⊎ In x ys
In-append x [] ys i = inr i
In-append x (z ∷ zs) ys (inl e) = inl (inl e)
In-append x (z ∷ zs) ys (inr i) = elim (In-append x zs ys i) [ inl j ↦ inl (inr j) | inr j ↦ inr j ]

append-In : {A : Type 0} (x : A) (xs ys : List A) → In x xs ⊎ In x ys → In x (xs ++ ys)
append-In x [] ys (inl i) = absurd i
append-In x [] ys (inr i) = i
append-In x (z ∷ zs) ys (inl (inl e)) = inl e
append-In x (z ∷ zs) ys (inl (inr i)) = inr (append-In x zs ys (inl i))
append-In x (z ∷ zs) ys (inr i) = inr (append-In x zs ys (inr i))

In-push_defined :
    {I : Type 0} (i : I) (o : Option I) (is : List I)
    → In i (push_defined o is)
    → In i is ⊎ (o ≡ some i)
In-push_defined i none is h = inl h
In-push_defined i (some j) is h = elim (In-append i is (j ∷ []) h) [
  | inl k ↦ inl k
  | inr (inl e) ↦ inr (ap some (sym e))
  | inr (inr none_left) ↦ absurd none_left
]

push_defined-In :
    {I : Type 0} (i : I) (o : Option I) (is : List I)
    → In i is ⊎ (o ≡ some i)
    → In i (push_defined o is)
push_defined-In i none is (inl h) = h
push_defined-In i none is (inr e) = absurd (ground arith)
push_defined-In i (some j) is (inl h) = append-In i is (j ∷ []) (inl h)
push_defined-In i (some j) is (inr e) = append-In i is (j ∷ []) (inr (inl (ground arith)))

-- an instance that the keys of a map lead to
abbrev Reached : {I : Type 0} → List (String × I) → List String → I → Type 0
Reached controllers ks i = (k : String) × In k ks × (get k controllers ≡ some i)

In-push_keys :
    {I : Type 0} (controllers : List (String × I)) (ks : List String) (is : List I) (i : I)
    → In i (push_keys controllers ks is)
    → In i is ⊎ Reached controllers ks i
In-push_keys controllers [] is i h = inl h
In-push_keys controllers (k ∷ ks) is i h =
    elim (In-push_keys controllers ks (push_defined (get k controllers) is) i h) [
      | inr (k', there, e) ↦ inr (k', inr there, e)
      | inl j ↦ elim (In-push_defined i (get k controllers) is j) [
        | inl old ↦ inl old
        | inr e ↦ inr (k, inl refl, e)
      ]
    ]

push_keys-In :
    {I : Type 0} (controllers : List (String × I)) (ks : List String) (is : List I) (i : I)
    → In i is ⊎ Reached controllers ks i
    → In i (push_keys controllers ks is)
push_keys-In controllers [] is i (inl h) = h
push_keys-In controllers [] is i (inr (k, there, e)) = absurd there
push_keys-In controllers (k ∷ ks) is i (inl h) =
    push_keys-In controllers ks _ i (inl (push_defined-In i (get k controllers) is (inl h)))
push_keys-In controllers (k ∷ ks) is i (inr (k', inl same, e)) =
    push_keys-In controllers ks _ i
      (inl (push_defined-In i (get k controllers) is (inr (rw (← same) e))))
push_keys-In controllers (k ∷ ks) is i (inr (k', inr there, e)) =
    push_keys-In controllers ks _ i (inr (k', there, e))

-- A key that leads to an instance is a key of the map.
get-In :
    {I : Type 0} (k : String) (controllers : List (String × I)) (i : I)
    → get k controllers ≡ some i
    → In k (map (λ entry. entry.0) controllers)
get-In k [] i e = absurd (ground arith)
get-In k ((k', j) ∷ rest) i e = elim (Bool-cases (k' === k)) [
  | inl same ↦ inl (sym ((===_iff k' k).0 same))
  | inr other ↦ inr (get-In k rest i (ground arith))
]

-- an instance that a key of the controllers of one of the modules leads to
abbrev Controlled : {I : Type 0} → List (List (String × I)) → I → Type 0
Controlled modules i =
    (controllers : List (String × _)) × (k : String) × In controllers modules
    × (get k controllers ≡ some i)

In-push_maps :
    {I : Type 0} (ms : List (List (String × I))) (is : List I) (i : I)
    → In i (push_maps ms is)
    → In i is ⊎ Controlled ms i
In-push_maps [] is i h = inl h
In-push_maps (m ∷ ms) is i h =
    elim (In-push_maps ms (push_keys m (map (λ entry. entry.0) m) is) i h) [
      | inr (m', k, there, e) ↦ inr (m', k, inr there, e)
      | inl j ↦ elim (In-push_keys m (map (λ entry. entry.0) m) is i j) [
        | inl old ↦ inl old
        | inr (k, there, e) ↦ inr (m, k, inl refl, e)
      ]
    ]

push_maps-In :
    {I : Type 0} (ms : List (List (String × I))) (is : List I) (i : I)
    → In i is ⊎ Controlled ms i
    → In i (push_maps ms is)
push_maps-In [] is i (inl h) = h
push_maps-In [] is i (inr (m, k, there, e)) = absurd there
push_maps-In (m ∷ ms) is i (inl h) =
    push_maps-In ms _ i (inl (push_keys-In m (map (λ entry. entry.0) m) is i (inl h)))
push_maps-In (m ∷ ms) is i (inr (m', k, inl same, e)) =
    (let here : get k m ≡ some i = rw (← same) e in
      push_maps-In ms _ i
        (inl (push_keys-In m (map (λ entry. entry.0) m) is i (inr (k, get-In k m i here, here)))))
push_maps-In (m ∷ ms) is i (inr (m', k, inr there, e)) = push_maps-In ms _ i (inr (m', k, there, e))

get-nonempty :
    {I : Type 0} (k : String) (controllers : List (String × I)) (i : I)
    → get k controllers ≡ some i
    → ltb 0 (length controllers) ≡ true
get-nonempty k [] i e = absurd (ground arith)
get-nonempty k (x ∷ rest) i e = ground arith

find_controllers_iff :
    {I : Type 0} (modules : List (List (String × I))) (i : I)
    → In i (find_controllers modules) ↔ Controlled modules i
unfolding find_controllers
find_controllers_iff modules i = (
  λ h. elim (In-push_maps (select has_controllers modules) [] i h) [
    | inl empty ↦ absurd empty
    | inr (m, k, there, e) ↦ (m, k, (In-select has_controllers m modules there).0, e)
  ],
  λ (m, k, there, e).
      push_maps-In (select has_controllers modules) [] i
        (inr (m, k, select-In has_controllers m modules there (get-nonempty k m i e), e)),
)

module _ {I P C : Type 0} (framework : Framework I P C) where
  In-spread :
      (is : List I) (prev : List (RabbitSubscriberMetadata I C)) (s : RabbitSubscriberMetadata I C)
      → In s (spread framework (map (scan framework) is) prev)
        ↔ (In s prev ⊎ ((i : I) × In i is × In s (scan framework i)))
  In-spread [] prev s =
      (λ h. inl h, λ h. elim h [ inl there ↦ there | inr (i, none_left, found) ↦ absurd none_left ])
  In-spread (j ∷ is) prev s = (
    λ h. elim ((In-spread is (prev ++ scan framework j) s).0 h) [
      | inr (i, there, found) ↦ inr (i, inr there, found)
      | inl there ↦ elim (In-append s prev (scan framework j) there) [
        | inl old ↦ inl old
        | inr found ↦ inr (j, inl refl, found)
      ]
    ],
    λ h. (In-spread is (prev ++ scan framework j) s).1 (elim h [
      | inl old ↦ inl (append-In s prev (scan framework j) (inl old))
      | inr (i, inl same, found) ↦
          inl (append-In s prev (scan framework j) (inr (rw (← same) found)))
      | inr (i, inr there, found) ↦ inr (i, there, found)
    ]),
  )

  -- A scan lists what its callback gives for the names of the prototype's methods, without what is null.
  abbrev Scans : (P → List String) → Type 0
  Scans names =
      (i : I) (p : P) (f : String → Option (RabbitSubscriberMetadata I C))
      (s : RabbitSubscriberMetadata I C)
      → In s (framework.scan_from_prototype i p f)
        ↔ ((name : String) × In name (names p) × (f name ≡ some s))

  -- Where a scan goes through the names of a prototype's methods, the search finds a handler exactly if a key of the
  -- controllers of one of the modules leads to an instance, a method of its prototype is marked, and the handler is this
  -- mark together with the instance.
  explore_iff :
      (names : P → List String) (scans : Scans names) (modules : List (List (String × I)))
      (s : RabbitSubscriberMetadata I C)
      → In s (explore framework modules) ↔ (
          (i : I) × Controlled modules i
          × ((name : String) × In name (names (framework.get_prototype_of i))
              × (bind_instance framework i
                    (framework.get_metadata (framework.get_prototype_of i) name)
                  ≡ some s)))
  unfolding explore find_subscribed_handlers
  explore_iff names scans modules s = (
    λ h. elim ((In-spread (find_controllers modules) [] s).0 h) [
      | inl empty ↦ absurd empty
      | inr (i, there, found) ↦
          (i, (find_controllers_iff modules i).0 there, (scans i _ _ s).0 found)
    ],
    λ (i, there, found).
        (In-spread (find_controllers modules) [] s).1
          (inr (i, (find_controllers_iff modules i).1 there, (scans i _ _ s).1 found)),
  )
