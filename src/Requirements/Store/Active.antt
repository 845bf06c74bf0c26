-- ===== src/Requirements/Store/Active.antt =====
-- The governing requirements that packages/integrations/requirement-store/src/index.ts answers:
-- the map it builds of the log, against the scan of the log.
use liminal_engine.Prelude.{
  String, ◌==◌, eq_iff, ==-sym, ◌≡◌, refl, sym, ap, subst, ◌↔◌, ◌∙◌, Bool, true, false, Option,
  none, some, List, [], ◌∷◌, filter, if◌then◌else◌, ◌&&◌, Member, Option-cases, Bool-cases, inl,
  inr, arith,
}
use liminal_engine.Contracts.Requirement.{Requirement}
use liminal_engine.Contracts.Parsing.{is_requirement_active}
use liminal_engine.Requirements.Store.{current, RequirementMap, set, by_id, values, active}

abbrev lookup : String → RequirementMap → Option Requirement
lookup k [] = none
lookup k ((j, v) ∷ entries) = if j == k then some v else lookup k entries

abbrev or : Option Requirement → Option Requirement → Option Requirement
or none other = other
or (some r) other = some r

or-none : (o : Option Requirement) → or o none ≡ o
or-none none = refl
or-none (some r) = refl

lookup-set :
    (k : String) (v : Requirement) (entries : RequirementMap)
    → lookup k (set v.id v entries) ≡ (if v.id == k then some v else lookup k entries)
unfolding set
lookup-set k v [] = refl
lookup-set k v ((j, w) ∷ entries) = elim (Bool-cases (j == v.id)) [
  | inl e ↦
      let same : j ≡ v.id = (eq_iff j v.id).0 e in
      elim (Bool-cases (v.id == k)) [ inl f ↦ rw (e, same, f) refl | inr f ↦ rw (e, same, f) refl ]
  | inr e ↦ elim (Bool-cases (j == k)) [
    | inl f ↦
        let same : j ≡ k = (eq_iff j k).0 f in
        let other : (v.id == k) ≡ false = subst (λ x. (v.id == x) ≡ false) same (==-sym j v.id e) in
        rw (e, f, other) refl
    | inr f ↦ rw (e, f, lookup-set k v entries) refl
  ]
]

lookup-by_id :
    (k : String) (entries : RequirementMap) (vs : List Requirement)
    → lookup k (by_id entries vs) ≡ or (current k vs) (lookup k entries)
unfolding by_id current
lookup-by_id k entries [] = refl
lookup-by_id k entries (v ∷ vs) = elim (Option-cases (current k vs)) [
  | inl e ↦ elim (Bool-cases (v.id == k)) [
    | inl f ↦ rw (lookup-by_id k (set v.id v entries) vs, lookup-set k v entries, e, f) refl
    | inr f ↦ rw (lookup-by_id k (set v.id v entries) vs, lookup-set k v entries, e, f) refl
  ]
  | inr (r, e) ↦ rw (lookup-by_id k (set v.id v entries) vs, e) refl
]

-- Each key stands once, and is the id of its version.
abbrev Keyed : RequirementMap → Type 0
Keyed [] = Unit
Keyed ((k, v) ∷ entries) = (v.id ≡ k) × (lookup k entries ≡ none) × Keyed entries

Keyed-set :
    (v : Requirement) (entries : RequirementMap) → Keyed entries → Keyed (set v.id v entries)
unfolding set
Keyed-set v [] h = (refl, refl, tt)
Keyed-set v ((j, w) ∷ entries) (own, once, h) = elim (Bool-cases (j == v.id)) [
  | inl e ↦ let same : j ≡ v.id = (eq_iff j v.id).0 e in rw e (sym same, once, h)
  | inr e ↦
      let other : (v.id == j) ≡ false = ==-sym j v.id e in
      rw e (own, rw (lookup-set j v entries, other) once, Keyed-set v entries h)
]

Keyed-by_id :
    (entries : RequirementMap) (vs : List Requirement) → Keyed entries → Keyed (by_id entries vs)
unfolding by_id
Keyed-by_id entries [] h = h
Keyed-by_id entries (v ∷ vs) h = Keyed-by_id (set v.id v entries) vs (Keyed-set v entries h)

Member-values :
    (entries : RequirementMap) (r : Requirement)
    → Keyed entries
    → Member r (values entries) ↔ (lookup r.id entries ≡ some r)
Member-values [] r h = (λ m. absurd m, λ e. cc)
Member-values ((k, v) ∷ entries) r (own, once, h) =
    let rest : Member r (values entries) ↔ (lookup r.id entries ≡ some r) =
      Member-values entries r h in
    elim (Bool-cases (k == r.id)) [
      | inl e ↦
          let same : k ≡ r.id = (eq_iff k r.id).0 e in
          (
            λ m. elim m [
              | inl here ↦ rw e (ap some here)
              | inr there ↦
                  let hit : lookup r.id entries ≡ some r = rest.0 there in
                  let miss : lookup r.id entries ≡ none =
                    subst (λ x. lookup x entries ≡ none) same once in
                  cc
            ],
            λ f. inl (ground (arith, e, f)),
          )
      | inr e ↦ (
        λ m. elim m [
          | inl here ↦
              let same : k ≡ r.id = sym own ∙ ap Requirement.id here in
              let hit : (k == r.id) ≡ true = (eq_iff k r.id).1 same in cc
          | inr there ↦ rw e (rest.0 there)
        ],
        λ f. inr (rest.1 (ground (arith, e, f))),
      )
    ]

Member-filter :
    (p : Requirement → Bool) (r : Requirement) (vs : List Requirement)
    → Member r (filter p vs) ↔ (Member r vs × (p r ≡ true))
Member-filter p r [] = (λ m. absurd m, λ m. absurd m.0)
Member-filter p r (v ∷ vs) =
    let rest : Member r (filter p vs) ↔ (Member r vs × (p r ≡ true)) = Member-filter p r vs in
    elim (Bool-cases (p v)) [
      | inl e ↦ rw e (
        λ m. elim m [
          | inl here ↦ (inl here, subst (λ x. p x ≡ true) here e)
          | inr there ↦ (inr (rest.0 there).0, (rest.0 there).1)
        ],
        λ (m, q). elim m [ inl here ↦ inl here | inr there ↦ inr (rest.1 (there, q)) ],
      )
      | inr e ↦ rw e (
        λ m. (inr (rest.0 m).0, (rest.0 m).1),
        λ (m, q). elim m [
          | inl here ↦ let no : p r ≡ false = subst (λ x. p x ≡ false) here e in cc
          | inr there ↦ rest.1 (there, q)
        ],
      )
    ]

-- The answer to a query for governing requirements holds exactly the requirements that are the
-- current version of their id, are active and match the query.
pub Member-active :
    (match_of : Requirement → Bool) (versions : List Requirement) (r : Requirement)
    → Member r (active match_of versions)
      ↔ ((current r.id versions ≡ some r) × ((is_requirement_active r.status && match_of r) ≡ true))
unfolding active
Member-active match_of versions r =
    let entries : RequirementMap = by_id [] versions in
    let hits : _ =
      Member-filter (λ q. is_requirement_active q.status && match_of q) r (values entries) in
    let found : Member r (values entries) ↔ (lookup r.id entries ≡ some r) =
      Member-values entries r (Keyed-by_id [] versions tt) in
    let scan : lookup r.id entries ≡ current r.id versions =
      lookup-by_id r.id [] versions ∙ or-none (current r.id versions) in
    (λ m. (sym scan ∙ found.0 (hits.0 m).0, (hits.0 m).1), λ (e, q). hits.1 (found.1 (scan ∙ e), q))
