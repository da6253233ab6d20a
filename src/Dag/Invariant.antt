-- ===== src/Dag/Invariant.antt =====
-- What the search keeps: finished nodes lie on no cycle, nodes in progress are on the stack, and the
-- stack is a path. `whites` counts the nodes that are left.
use tab_conductor.Prelude.{
  ℕ, suc, ◌+◌, ◌≤◌, String, ◌≡◌, refl, true, false, none, some, List, [], ◌∷◌, arith, ◌==◌, eq_iff,
  if◌then◌else◌, contains, Bool-cases, inl, inr, length, subst,
}
use tab_conductor.Dict.{Dict, lookup, insert, has, lookup-insert}
use tab_conductor.Dag.{
  Color, white, gray, black, Adjacency, Search, enter, leave, pop, initial_color,
}
use tab_conductor.Dag.Graph.{Edge, IsPath, Grounded, grounded, deps_of}

pub is_white : Color → ℕ
is_white white = 1
is_white _ = 0

pub whites : Dict Color → ℕ
whites [] = 0
whites ((id, c) ∷ d) = is_white c + whites d

pub whites-insert_white :
    (k : String) (d : Dict Color)
    → lookup k d ≡ some white
    → suc (whites (insert k gray d)) ≡ whites d
unfolding whites is_white lookup insert
whites-insert_white k [] h = cc
whites-insert_white k ((i, c) ∷ d) h = ground (arith, whites-insert_white k d)

pub whites-insert_black : (k : String) (d : Dict Color) → whites (insert k black d) ≤ whites d
unfolding whites is_white insert
whites-insert_black k [] = omega arith
whites-insert_black k ((i, white) ∷ d) = ground (arith, whites-insert_black k d)
whites-insert_black k ((i, _) ∷ d) = ground (arith, whites-insert_black k d)

pub whites-initial : (adj : Adjacency) → whites (initial_color adj) ≡ length adj
unfolding whites is_white
whites-initial [] = refl
whites-initial ((id, deps) ∷ adj) = omega (arith, whites-initial adj)

pub lookup-initial_color :
    (v : String) (adj : Adjacency)
    → lookup v (initial_color adj) ≡ (if has v adj then some white else none)
unfolding lookup has
lookup-initial_color v [] = refl
lookup-initial_color v ((id, deps) ∷ adj) = ground (arith, lookup-initial_color v adj)

module _ (adj : Adjacency) where
  pub record Inv (s : Search) : Type 0 where
    pub known : (v : String) → lookup v s.color ≡ none → has v adj ≡ false
    pub task : (v : String) (c : Color) → lookup v s.color ≡ some c → has v adj ≡ true
    pub safe : (v : String) → lookup v s.color ≡ some black → Grounded adj v
    pub on_stack : (v : String) → lookup v s.color ≡ some gray → contains v s.stack ≡ true
    pub path : IsPath adj s.stack

  -- what a part of the search leaves as it was
  pub record Frame (s t : Search) : Type 0 where
    pub stack : t.stack ≡ s.stack
    pub keeps : (v : String) → lookup v s.color ≡ some black → lookup v t.color ≡ some black
    pub fewer : whites t.color ≤ whites s.color

  pub Frame-refl : (s : Search) → Frame s s
  Frame-refl s = record { stack = refl; keeps = λ v h. h; fewer = omega arith }

  pub Frame-trans : {s t u : Search} → Frame s t → Frame t u → Frame s u
  Frame-trans f g = record {
    stack = cc (f.stack, g.stack);
    keeps = λ v h. g.keeps v (f.keeps v h);
    fewer = omega (arith, f.fewer, g.fewer);
  }

  pub Inv-enter :
      (node : String) (s : Search)
      → Inv s
      → lookup node s.color ≡ some white
      → IsPath adj (node ∷ s.stack)
      → Inv (enter node s)
  unfolding enter contains
  Inv-enter node s i w p = record {
    known = λ v h. ground (arith, lookup-insert node v gray s.color, i.known v);
    task = λ v c h.
        ground
          (arith, lookup-insert node v gray s.color, i.task v c, i.task node white, eq_iff node v);
    safe = λ v h. i.safe v (ground (arith, lookup-insert node v gray s.color));
    on_stack = λ v h. ground (arith, lookup-insert node v gray s.color, i.on_stack v);
    path = p;
  }

  IsPath-pop : (path : List String) → IsPath adj path → IsPath adj (pop path)
  IsPath-pop [] p = tt
  IsPath-pop (x ∷ []) p = tt
  IsPath-pop (x ∷ y ∷ rest) p = p.1

  -- What `leave` needs of the state that the dependencies of `node` leave behind.
  module _ (node : String) (s t : Search) (i : Inv s) (w : lookup node s.color ≡ some white)
      (j : Inv t) (f : Frame (enter node s) t)
      (all_done : (v : String)
        → contains v (deps_of adj node) ≡ true
        → has v adj ≡ true
        → lookup v t.color ≡ some black) where
    node-Grounded : Grounded adj node
    node-Grounded = grounded node (λ v e. j.safe v (all_done v (Edge.listed e) (Edge.known e)))

    stack-t : t.stack ≡ node ∷ s.stack
    unfolding enter
    stack-t = f.stack

    pub Inv-leave : Inv (leave node t)
    unfolding leave contains
    Inv-leave = record {
      known = λ v h. ground (arith, lookup-insert node v black t.color, j.known v);
      task = λ v c h.
          ground (
            arith,
            lookup-insert node v black t.color,
            j.task v c,
            i.task node white,
            eq_iff node v,
          );
      safe = λ v h. elim (Bool-cases (node == v)) [
        | inl same ↦ subst (Grounded adj) ((eq_iff node v).0 same) node-Grounded
        | inr other ↦ j.safe v (ground (arith, lookup-insert node v black t.color))
      ];
      on_stack = λ v h.
          ground (arith, lookup-insert node v black t.color, j.on_stack v, stack-t, eq_iff node v);
      path = IsPath-pop t.stack j.path;
    }

    pub Frame-leave : Frame s (leave node t)
    unfolding leave enter
    Frame-leave = record {
      stack = ground (arith, stack-t);
      keeps = λ v h. ground (
        arith,
        lookup-insert node v black t.color,
        f.keeps v,
        lookup-insert node v gray s.color,
        eq_iff node v,
      );
      fewer =
          omega
            (arith, f.fewer, whites-insert_black node t.color, whites-insert_white node s.color w);
    }
