-- ===== src/Compliance/Notices/Chase.antt =====
-- The links of an archive are followed to an end.
use mendix_for_snowflake.Prelude.{
  subst, ltb, ◌==◌, ◌∙◌, sym, In, mem→In, All, refl, Option, ℕ, zero, suc, ◌≤◌, ◌<◌, ◌≡◌, false,
  none, some, List, [], ◌∷◌, Text, text_eq, text_eq_refl, mem, Dict, lookup, length, if◌then◌else◌,
  arith, Bool-cases, Option-cases, inl, inr, ◌⊎◌,
}
use mendix_for_snowflake.Compliance.Notices.{Member, link_target, Chased, chase}

-- The member is a value of the dict.
abbrev pub IsMember : Member → Dict Member → Type 0
IsMember m [] = ⊥
IsMember m ((k, l) ∷ d) = (l ≡ m) ⊎ IsMember m d

pub lookup-IsMember : (k : Text) (m : Member) (d : Dict Member) → lookup k d ≡ some m → IsMember m d
unfolding lookup
lookup-IsMember k m [] h = cc
lookup-IsMember k m ((j, l) ∷ d) h = elim (Bool-cases (text_eq j k)) [
  | inl t ↦ inl (cc (rw t at h))
  | inr f ↦ inr (lookup-IsMember k m d (rw f at h))
]

-- The entries whose names were not visited.
unvisited : List Text → Dict Member → ℕ
unfolding mem
unvisited visited [] = 0
unvisited visited ((k, m) ∷ d) =
    let rest = unvisited visited d in if mem m.name visited then rest else suc rest

unvisited_le : (visited : List Text) (d : Dict Member) → unvisited visited d ≤ length d
unfolding unvisited
unvisited_le visited [] = omega arith
unvisited_le visited ((k, m) ∷ d) = ground (arith, unvisited_le visited d)

unvisited_mono :
    (n : Text) (visited : List Text) (d : Dict Member)
    → unvisited (n ∷ visited) d ≤ unvisited visited d
unfolding unvisited mem
unvisited_mono n visited [] = omega arith
unvisited_mono n visited ((k, m) ∷ d) = ground (arith, unvisited_mono n visited d)

unvisited_visit :
    (m : Member) (visited : List Text) (d : Dict Member)
    → IsMember m d
    → mem m.name visited ≡ false
    → unvisited (m.name ∷ visited) d < unvisited visited d
unfolding unvisited mem
unvisited_visit m visited [] h new = absurd h
unvisited_visit m visited ((j, l) ∷ d) (inl e) new =
    rw e (rw (new, text_eq_refl m.name) (let le = unvisited_mono m.name visited d in omega arith))
unvisited_visit m visited ((j, l) ∷ d) (inr h) new =
    let rest = unvisited_visit m visited d h new in ground (arith, rest)

-- Where one link of a member leads; none, where it is no link or names no member.
abbrev pub leads_to : (Text → Option Member) → Option Text → Option Member
leads_to find none = none
leads_to find (some target) = find target

-- The member that some number of links lead to, one after another, by what each name stands for
abbrev pub walk : (Text → Option Member) → ℕ → Member → Option Member
walk find zero m = some m
walk find (suc n) m = elim (walk find n m) [ none ↦ none | some x ↦ leads_to find (link_target x) ]

abbrev pub within : Dict Member → Text → Option Member
within members name = lookup name members

abbrev pub Reaches : Dict Member → Member → Member → Type 0
Reaches members m x = (n : ℕ) × (walk (within members) n m ≡ some x)

-- A member is reached, and from it, by one link or more, one of the same name.
abbrev pub IsCyclic : Dict Member → Member → Type 0
IsCyclic members m =
    (x y : Member) × Reaches members m x
    × (n : ℕ) × (walk (within members) (suc n) x ≡ some y)
    × (y.name ≡ x.name)

-- What a chase ended with: the member that the links lead to, which is of the archive and no link; a
-- link that is reached and names nothing of the archive; or links that lead in a circle.
abbrev pub Settled : Dict Member → Member → Chased → Type 0
Settled members m (Chased.resolved source) =
    IsMember source members × (link_target source ≡ none) × Reaches members m source
Settled members m (Chased.broken target) =
    (x : Member) × Reaches members m x
    × (link_target x ≡ some target)
    × (lookup target members ≡ none)
Settled members m Chased.cyclic = IsCyclic members m
Settled members m Chased.out_of_fuel = ⊥

-- Each name visited is of a member that was reached, and that leads to the present one.
abbrev Trail : Dict Member → Member → Member → List Text → Type 0
Trail members m source visited =
    All
      (λ name.
        (x : Member) × (x.name ≡ name)
        × Reaches members m x
        × (n : ℕ) × (walk (within members) (suc n) x ≡ some source))
      visited

one_more :
    (members : Dict Member) (m source next : Member) (target : Text) (n : ℕ)
    → walk (within members) n m ≡ some source
    → link_target source ≡ some target
    → lookup target members ≡ some next
    → walk (within members) (suc n) m ≡ some next
one_more members m source next target n e f g = rw e (rw f g)

Trail-more :
    (members : Dict Member) (m source next : Member) (target : Text) (visited : List Text)
    → link_target source ≡ some target
    → lookup target members ≡ some next
    → Trail members m source visited
    → Trail members m next visited
Trail-more members m source next target [] f g h = tt
Trail-more members m source next target (name ∷ visited) f g ((x, e, r, n, w), h) = (
  (x, e, r, suc n, one_more members x source next target (suc n) w f g),
  Trail-more members m source next target visited f g h,
)

Trail-IsCyclic :
    (members : Dict Member) (m source : Member) (visited : List Text)
    → In source.name visited
    → Trail members m source visited
    → IsCyclic members m
Trail-IsCyclic members m source [] seen h = absurd seen
Trail-IsCyclic members m source (name ∷ visited) (inl same) ((x, e, r, n, w), h) =
    (x, source, r, n, w, sym same ∙ sym e)
Trail-IsCyclic members m source (name ∷ visited) (inr seen) (t, h) =
    Trail-IsCyclic members m source visited seen h

chase_settles_from :
    (fuel : ℕ) (members : Dict Member) (visited : List Text) (m source : Member)
    → IsMember source members
    → unvisited visited members < fuel
    → Reaches members m source
    → Trail members m source visited
    → Settled members m (chase fuel members visited source)
unfolding chase
chase_settles_from zero members visited m source known enough reached trail =
    absurd (omega (arith, enough))
chase_settles_from (suc fuel) members visited m source known enough reached trail =
    elim (Option-cases (link_target source)) [
      | inl e ↦ rw (e, chase) (known, e, reached)
      | inr (target, e) ↦
          rw (e, chase)
            (elim (Bool-cases (mem source.name visited)) [
              | inl seen ↦
                  rw (seen, chase)
                    (Trail-IsCyclic members m source visited (mem→In source.name visited seen)
                      trail)
              | inr new ↦
                  rw (new, chase)
                    (elim (Option-cases (lookup target members)) [
                      | inl missing ↦ rw (missing, chase) (source, reached, e, missing)
                      | inr (next, found) ↦
                          rw (found, chase)
                            (chase_settles_from fuel members (source.name ∷ visited) m next
                              (lookup-IsMember target next members found)
                              (let less = unvisited_visit source visited members known new in
                                omega arith)
                              (
                                suc reached.0,
                                one_more members m source next target reached.0 reached.1 e found,
                              )
                              (
                                (
                                  source,
                                  refl,
                                  reached,
                                  0,
                                  one_more members source source next target 0 refl e found,
                                ),
                                Trail-more members m source next target visited e found trail,
                              ))
                    ])
            ])
    ]

-- From every member of an archive the chase of links ends within as many steps as the archive has
-- members, and one. It ends with the member that the links lead to, which is of the archive and no
-- link; or, where a link names nothing of the archive, with what it names; or else the links lead
-- in a circle, back to a name that was reached before.
pub chase_settles :
    (members : Dict Member) (m : Member)
    → IsMember m members
    → Settled members m (chase (suc (length members)) members [] m)
chase_settles members m known =
    chase_settles_from (suc (length members)) members [] m m known
      (let le = unvisited_le [] members in omega arith) (0, refl) tt

-- Behind an end there is nothing.
walk_beyond :
    (members : Dict Member) (m x : Member) (n k : ℕ)
    → walk (within members) n m ≡ some x
    → link_target x ≡ none
    → n < k
    → walk (within members) k m ≡ none
walk_beyond members m x n zero e last le = absurd (omega (arith, le))
walk_beyond members m x n (suc k) e last le = elim (Bool-cases (n == k)) [
  | inl t ↦
      let same : n ≡ k = ground arith in
      let here : walk (within members) k m ≡ some x =
        subst (λ j. walk (within members) j m ≡ some x) same e in
      rw here (rw last refl)
  | inr f ↦
      let less : n < k = ground (arith, le) in rw (walk_beyond members m x n k e last less) refl
]

-- The links of a member lead to one end at most.
pub one_end :
    (members : Dict Member) (m x y : Member)
    → Reaches members m x
    → link_target x ≡ none
    → Reaches members m y
    → link_target y ≡ none
    → x ≡ y
one_end members m x y (n, e) last (k, f) end = elim (Bool-cases (n == k)) [
  | inl t ↦
      let same : n ≡ k = ground arith in
      let here : walk (within members) k m ≡ some x =
        subst (λ j. walk (within members) j m ≡ some x) same e in
      cc
  | inr g ↦ elim (Bool-cases (ltb n k)) [
    | inl t ↦ let bad = walk_beyond members m x n k e last (ground arith) in cc
    | inr t ↦ let bad = walk_beyond members m y k n f end (ground arith) in cc
  ]
]
