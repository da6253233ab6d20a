-- ===== src/Dag/Depth.antt =====
-- The invariant of the search through each call of `dfs`, and how deep the calls go.
use tab_conductor.Prelude.{
  ℕ, zero, suc, ◌≤◌, String, ◌≡◌, refl, Bool, true, false, Option, none, some, List, [], ◌∷◌, arith,
  ◌==◌, eq_iff, eq_refl, contains, Bool-cases, Option-cases, inl, inr, subst, sym, ◌∙◌,
}
use tab_conductor.Dict.{lookup, has, lookup-insert}
use tab_conductor.Dag.{
  Color, white, gray, black, Adjacency, Search, Outcome, finished, cycle, unknown, key_error,
  out_of_fuel, ◌>>=◌, enter, leave, visit_dep, visit_deps, dfs, visit_root, visit_all,
}
use tab_conductor.Dag.Graph.{IsPath, deps_of, deps_of_found}
use tab_conductor.Dag.Invariant.{
  Inv, Frame, Frame-refl, Frame-trans, Inv-enter, Inv-leave, Frame-leave, whites,
  whites-insert_white,
}

has-lookup-none : (node : String) (adj : Adjacency) → lookup node adj ≡ none → has node adj ≡ false
unfolding has lookup
has-lookup-none node [] h = refl
has-lookup-none node ((id, deps) ∷ adj) h = ground (arith, has-lookup-none node adj)

module _ (strict : Bool) (adj : Adjacency) where
  -- `Q` of the state in which a part of the search returns; what its errors mean.
  abbrev pub Post : (Search → Type 0) → Outcome → Type 0
  Post Q (finished t) = Q t
  Post Q (cycle path dep) = IsPath adj (dep ∷ path) × (contains dep path ≡ true)
  Post Q (unknown u dep) =
      (strict ≡ true) × (contains dep (deps_of adj u) ≡ true) × (has dep adj ≡ false)
  Post Q (key_error node) = ⊥
  Post Q out_of_fuel = ⊥

  pub Post-bind :
      (Q R : Search → Type 0) (m : Outcome) (f : Search → Outcome)
      → Post Q m
      → ((t : Search) → Q t → Post R (f t))
      → Post R (m >>= f)
  Post-bind Q R (finished t) f p k = k t p
  Post-bind Q R (cycle path dep) f p k = p
  Post-bind Q R (unknown u dep) f p k = p
  Post-bind Q R (key_error node) f p k = p
  Post-bind Q R out_of_fuel f p k = p

  Post-map :
      (Q R : Search → Type 0) (m : Outcome) → Post Q m → ((t : Search) → Q t → R t) → Post R m
  Post-map Q R (finished t) p k = k t p
  Post-map Q R (cycle path dep) p k = p
  Post-map Q R (unknown u dep) p k = p
  Post-map Q R (key_error node) p k = p
  Post-map Q R out_of_fuel p k = p

  abbrev pub Done : Search → String → Search → Type 0
  Done s node t = Inv adj t × Frame adj s t × (lookup node t.color ≡ some black)

  -- `dfs` on a white node that depends on from the top of the stack
  abbrev Spec : ℕ → (Search → String → Outcome) → Type 0
  Spec fuel rec =
      (s : Search) (node : String)
      → Inv adj s
      → lookup node s.color ≡ some white
      → IsPath adj (node ∷ s.stack)
      → whites s.color ≤ fuel
      → Post (Done s node) (rec s node)

  -- after some of the dependencies
  abbrev pub After : Search → (String → Type 0) → Search → Type 0
  After s P t =
      Inv adj t
      × Frame adj s t
      × ((v : String) → P v → has v adj ≡ true → lookup v t.color ≡ some black)

  Done-After : (s t : Search) (dep : String) → Done s dep t → After s (λ v. v ≡ dep) t
  Done-After s t dep d =
      (d.0, d.1, λ v same known. subst (λ u. lookup u t.color ≡ some black) (sym same) d.2)

  After-cons :
      (s t u : Search) (dep : String) (deps : List String)
      → After s (λ v. v ≡ dep) t
      → After t (λ v. contains v deps ≡ true) u
      → After s (λ v. contains v (dep ∷ deps) ≡ true) u
  unfolding contains
  After-cons s t u dep deps d g = (
    g.0,
    Frame-trans adj d.1 g.1,
    λ v h known. elim (Bool-cases (dep == v)) [
      | inl same ↦ g.1.keeps v (d.2 v (sym ((eq_iff dep v).0 same)) known)
      | inr other ↦ g.2 v (ground arith) known
    ],
  )

  module _ (fuel : ℕ) (rec : Search → String → Outcome) (spec : Spec fuel rec) (node : String)
      (rest : List String) where
    dep_path :
        (s : Search) (dep : String)
        → Inv adj s
        → s.stack ≡ node ∷ rest
        → contains dep (deps_of adj node) ≡ true
        → has dep adj ≡ true
        → IsPath adj (dep ∷ s.stack)
    dep_path s dep i top listed known =
        subst (λ path. IsPath adj (dep ∷ path)) (sym top)
          (record { listed = listed; known = known }, subst (IsPath adj) top i.path)

    visit_dep-Post :
        (s : Search) (dep : String) (c : Option Color)
        → lookup dep s.color ≡ c
        → Inv adj s
        → s.stack ≡ node ∷ rest
        → contains dep (deps_of adj node) ≡ true
        → whites s.color ≤ fuel
        → Post (After s (λ v. v ≡ dep)) (visit_dep strict adj rec node s dep c)
    unfolding visit_dep
    visit_dep-Post s dep none e i top listed le = elim (Bool-cases strict) [
      | inl on ↦ rw on (refl, listed, i.known dep e)
      | inr off ↦ rw off (i, Frame-refl adj s, λ v same known. cc (i.known dep e))
    ]
    visit_dep-Post s dep (some gray) e i top listed le =
        (dep_path s dep i top listed (i.task dep gray e), i.on_stack dep e)
    visit_dep-Post s dep (some white) e i top listed le =
        Post-map (Done s dep) (After s (λ v. v ≡ dep)) (rec s dep)
          (spec s dep i e (dep_path s dep i top listed (i.task dep white e)) le)
          (λ t d. Done-After s t dep d)
    visit_dep-Post s dep (some black) e i top listed le =
        Done-After s s dep (i, Frame-refl adj s, e)

    visit_deps-Post :
        (s : Search) (deps : List String)
        → Inv adj s
        → s.stack ≡ node ∷ rest
        → ((v : String) → contains v deps ≡ true → contains v (deps_of adj node) ≡ true)
        → whites s.color ≤ fuel
        → Post (After s (λ v. contains v deps ≡ true)) (visit_deps strict adj rec node s deps)
    unfolding visit_deps contains
    visit_deps-Post s [] i top listed le = (i, Frame-refl adj s, λ v no_such known. cc)
    visit_deps-Post s (dep ∷ deps) i top listed le =
        Post-bind _ _ (visit_dep strict adj rec node s dep (lookup dep s.color))
          (λ t. visit_deps strict adj rec node t deps)
          (visit_dep-Post s dep (lookup dep s.color) refl i top
            (listed dep (ground (arith, eq_refl dep))) le)
          (λ t d.
            Post-map _ _ (visit_deps strict adj rec node t deps)
              (visit_deps-Post t deps d.0 (d.1.stack ∙ top) (λ v h. listed v (ground arith))
                (omega (arith, d.1.fewer)))
              (λ u g. After-cons s t u dep deps d g))

  has-lookup :
      (node : String) → has node adj ≡ true → (deps : List String) × (lookup node adj ≡ some deps)
  has-lookup node h = elim (Option-cases (lookup node adj)) [
    | inl missing ↦ cc (has-lookup-none node adj missing)
    | inr found ↦ found
  ]

  -- one call of `dfs`, where the deeper ones are right
  dfs_body :
      (fuel : ℕ)
      → Spec fuel (dfs strict adj fuel)
      → (s : Search) (node : String) (deps : List String) → lookup node adj ≡ some deps
      → Inv adj s
      → lookup node s.color ≡ some white
      → IsPath adj (node ∷ s.stack)
      → whites s.color ≤ suc fuel
      → Post (Done s node) (
          visit_deps strict adj (dfs strict adj fuel) node (enter node s) deps >>= λ t.
          finished (leave node t))
  unfolding enter leave
  dfs_body fuel spec s node deps e i w p le =
      Post-bind (After (enter node s) (λ v. contains v deps ≡ true)) (Done s node)
        (visit_deps strict adj (dfs strict adj fuel) node (enter node s) deps)
        (λ t. finished (leave node t))
        (visit_deps-Post fuel (dfs strict adj fuel) spec node s.stack (enter node s) deps
          (Inv-enter adj node s i w p) refl
          (λ v h. subst (λ l. contains v l ≡ true) (sym (deps_of_found adj node deps e)) h)
          (omega (arith, whites-insert_white node s.color w)))
        (λ t d.
          let all_done =
            λ (v : String) (h : contains v (deps_of adj node) ≡ true) (known : has v adj ≡ true).
              d.2 v (subst (λ l. contains v l ≡ true) (deps_of_found adj node deps e) h) known in
          (
            Inv-leave adj node s t i w d.0 d.1 all_done,
            Frame-leave adj node s t i w d.0 d.1 all_done,
            ground (arith, lookup-insert node node black t.color, eq_refl node),
          ))

  -- With as much fuel as there are white nodes, `dfs` does not run out.
  pub dfs-Post : (fuel : ℕ) → Spec fuel (dfs strict adj fuel)
  unfolding dfs
  dfs-Post zero s node i w p le = absurd (omega (arith, whites-insert_white node s.color w))
  dfs-Post (suc fuel) s node i w p le =
      let (deps, e) = has-lookup node (i.task node white w) in
      rw (e, dfs) (dfs_body fuel (dfs-Post fuel) s node deps e i w p le)

  module _ (fuel : ℕ) where
    not_on_empty : (s : Search) (v : String) → s.stack ≡ [] → ¬ (contains v s.stack ≡ true)
    unfolding contains
    not_on_empty s v top h = ground arith

    visit_root-Post :
        (s : Search) (tid : String) (c : Option Color)
        → lookup tid s.color ≡ c
        → Inv adj s
        → s.stack ≡ []
        → whites s.color ≤ fuel
        → has tid adj ≡ true
        → Post (After s (λ v. v ≡ tid)) (visit_root strict adj fuel s tid c)
    unfolding visit_root
    visit_root-Post s tid none e i top le known = cc (i.known tid e)
    visit_root-Post s tid (some gray) e i top le known =
        absurd (not_on_empty s tid top (i.on_stack tid e))
    visit_root-Post s tid (some white) e i top le known =
        Post-map (Done s tid) (After s (λ v. v ≡ tid)) (dfs strict adj fuel s tid)
          (dfs-Post fuel s tid i e (subst (λ l. IsPath adj (tid ∷ l)) (sym top) tt) le)
          (λ t d. Done-After s t tid d)
    visit_root-Post s tid (some black) e i top le known =
        Done-After s s tid (i, Frame-refl adj s, e)

    pub visit_all-Post :
        (s : Search) (tids : List String)
        → Inv adj s
        → s.stack ≡ []
        → whites s.color ≤ fuel
        → ((v : String) → contains v tids ≡ true → has v adj ≡ true)
        → Post (After s (λ v. contains v tids ≡ true)) (visit_all strict adj fuel s tids)
    unfolding visit_all contains
    visit_all-Post s [] i top le known = (i, Frame-refl adj s, λ v no_such h. cc)
    visit_all-Post s (tid ∷ tids) i top le known =
        Post-bind (After s (λ v. v ≡ tid)) (After s (λ v. contains v (tid ∷ tids) ≡ true))
          (visit_root strict adj fuel s tid (lookup tid s.color))
          (λ t. visit_all strict adj fuel t tids)
          (visit_root-Post s tid (lookup tid s.color) refl i top le
            (known tid (ground (arith, eq_refl tid))))
          (λ t d.
            Post-map (After t (λ v. contains v tids ≡ true))
              (After s (λ v. contains v (tid ∷ tids) ≡ true)) (visit_all strict adj fuel t tids)
              (visit_all-Post t tids d.0 (d.1.stack ∙ top) (omega (arith, d.1.fewer))
                (λ v h. known v (ground arith)))
              (λ u g. After-cons s t u tid tids d g))
