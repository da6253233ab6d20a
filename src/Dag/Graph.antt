-- ===== src/Dag/Graph.antt =====
-- Edges, walks and cycles of a task graph, independent of the search of Dag.antt.
use tab_conductor.Prelude.{
  String, ◌≡◌, inl, inr, true, none, some, List, [], ◌∷◌, arith, ◌==◌, eq_iff, contains, Bool-cases,
  subst,
}
use tab_conductor.Dict.{lookup, has}
use tab_conductor.Dag.{Adjacency}

abbrev pub deps_of : Adjacency → String → List String
deps_of adj u = elim (lookup u adj) [ none ↦ [] | some deps ↦ deps ]

pub deps_of_found :
    (adj : Adjacency) (u : String) (deps : List String)
    → lookup u adj ≡ some deps
    → deps_of adj u ≡ deps
deps_of_found adj u deps e = ground arith

module _ (adj : Adjacency) where
  -- `u` depends on the task `v`
  pub record Edge (u v : String) : Type 0 where
    pub listed : contains v (deps_of adj u) ≡ true
    pub known : has v adj ≡ true

  -- one dependency or more
  pub data Walk : String → String → Type 0 where
    one : {u v : String} → Edge u v → Walk u v
    more : {u v w : String} → Edge u v → Walk v w → Walk u w

  abbrev pub IsAcyclic : Type 0
  IsAcyclic = (u : String) → ¬ Walk u u

  -- a path with its last node first, as the search's stack
  abbrev pub IsPath : List String → Type 0
  IsPath [] = Unit
  IsPath (x ∷ []) = Unit
  IsPath (x ∷ y ∷ rest) = Edge y x × IsPath (y ∷ rest)

  -- all walks from `u` end
  pub data Grounded : String → Type 0 where
    grounded : (u : String) → ((v : String) → Edge u v → Grounded v) → Grounded u

  pub Walk-snoc : {u v w : String} → Walk u v → Edge v w → Walk u w
  Walk-snoc (one e) f = more e (one f)
  Walk-snoc (more e p) f = more e (Walk-snoc p f)

  -- On a path every earlier node has a walk to the last one.
  pub IsPath-Walk :
      (x y : String) (path : List String) → IsPath (x ∷ path) → contains y path ≡ true → Walk y x
  unfolding contains
  IsPath-Walk x y [] p h = cc
  IsPath-Walk x y (z ∷ path) p h = elim (Bool-cases (z == y)) [
    | inl same ↦ subst (λ t. Walk t x) ((eq_iff z y).0 same) (one p.0)
    | inr other ↦ Walk-snoc (IsPath-Walk z y path p.1 (ground arith)) p.0
  ]

  -- A node from which all walks end lies on no cycle.
  pub Grounded-no_cycle : {u : String} → Grounded u → ¬ Walk u u
  Grounded-no_cycle (grounded u below) (one e) = Grounded-no_cycle (below _ e) (one e)
  Grounded-no_cycle (grounded u below) (more e p) = Grounded-no_cycle (below _ e) (Walk-snoc p e)
