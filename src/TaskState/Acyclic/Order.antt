-- ===== src/TaskState/Acyclic/Order.antt =====
-- The black nodes, latest first, are in dependency order, so no walk returns to one of them.
use ai_studio.Prelude.{
  ℕ, zero, suc, List, [], ◌∷◌, ◌++◌, ◌≡◌, ◌≢◌, ◌↔◌, inl, inr, arith, ◌==◌, put, In, All, All-In,
  Bool-cases, subst,
}
use ai_studio.TaskState.Acyclic.{
  white, gray, black, Colors, color_of, Edges, deps_of, Outcome, done, visit_deps, visit, visit_all,
  Walk, edge, more,
}
use ai_studio.TaskState.Acyclic.Colors.{
  color_of-put, Kept, Kept-refl, Kept-trans, visited, skipped, visit_deps-eq-done, visit_deps-Kept,
  visit-eq-done, visit-Keeps, visit_all-eq-done,
}

module _ (edges : Edges) where
  -- Each node stands before its prerequisites, and stands once.
  abbrev pub IsOrdered : List ℕ → Type 0
  IsOrdered [] = Unit
  IsOrdered (n ∷ l) = (¬ In n l) × ((d : ℕ) → In d (deps_of edges n) → In d l) × IsOrdered l

  pub record Ordered (c : Colors) : Type 0 where
    pub order : List ℕ
    pub ordered : IsOrdered order
    pub listed : (m : ℕ) → (color_of c m ≡ black) ↔ In m order

  deps_stay : (l : List ℕ) (n d : ℕ) → IsOrdered l → In n l → In d (deps_of edges n) → In d l
  deps_stay [] n d o i e = i
  deps_stay (x ∷ l) n d o (inl same) e = inr (o.1 d (subst (λ k. In d (deps_of edges k)) same e))
  deps_stay (x ∷ l) n d o (inr i) e = inr (deps_stay l n d o.2 i e)

  Walk-stays : (l : List ℕ) {n m : ℕ} → IsOrdered l → In n l → Walk edges n m → In m l
  Walk-stays l {n} {m} o i (edge e) = deps_stay l n m o i e
  Walk-stays l {n} o i (more {d = d} e w) = Walk-stays l o (deps_stay l n d o i e) w

  -- A walk from the head of an ordered list leads into its tail.
  Walk-from_head : (l : List ℕ) {n m : ℕ} → IsOrdered (n ∷ l) → Walk edges n m → In m l
  Walk-from_head l {n} {m} o (edge e) = o.1 m e
  Walk-from_head l {n} o (more {d = d} e w) = Walk-stays l o.2 (o.1 d e) w

  -- No walk returns to a node of an ordered list.
  pub no_return : (l : List ℕ) (n : ℕ) → IsOrdered l → In n l → ¬ Walk edges n n
  no_return [] n o i w = i
  no_return (x ∷ l) n o (inl same) w = o.0 (Walk-from_head l o (subst (λ k. Walk edges k k) same w))
  no_return (x ∷ l) n o (inr i) w = no_return l n o.2 i w

  -- A recolored node that was not black, and is not made so, changes no order.
  Ordered-gray : (n : ℕ) (c : Colors) → color_of c n ≡ white → Ordered c → Ordered (put n gray c)
  Ordered-gray n c w o = record {
    order = o.order;
    ordered = o.ordered;
    listed = λ m. (
      λ b. (o.listed m).0 (ground (arith, color_of-put n m gray c)),
      λ i. let b = (o.listed m).1 i in ground (arith, color_of-put n m gray c),
    );
  }

  -- A gray node whose prerequisites are black is put in front of the order.
  Ordered-black :
      (n : ℕ) (c : Colors)
      → color_of c n ≡ gray
      → ((d : ℕ) → In d (deps_of edges n) → color_of c d ≡ black)
      → Ordered c
      → Ordered (put n black c)
  Ordered-black n c g deps o = record {
    order = n ∷ o.order;
    ordered = (
      λ i. let b = (o.listed n).1 i in ground arith,
      λ d e. (o.listed d).0 (deps d e),
      o.ordered,
    );
    listed = λ m. (
      λ b. elim (Bool-cases (n == m)) [
        | inl e ↦ inl (ground arith)
        | inr e ↦ inr ((o.listed m).0 (ground (arith, color_of-put n m black c)))
      ],
      λ i. elim i [
        | inl same ↦ ground (arith, color_of-put n m black c)
        | inr i ↦ let b = (o.listed m).1 i in ground (arith, color_of-put n m black c)
      ],
    );
  }

  -- A visitor that keeps the order.
  abbrev KeepsOrder : (ℕ → List ℕ → Colors → Outcome) → Type 0
  KeepsOrder go =
      (n : ℕ) (stack : List ℕ) (c c' : Colors)
      → color_of c n ≡ white
      → go n stack c ≡ done c'
      → Ordered c
      → Ordered c'

  visit_deps-Ordered :
      (go : ℕ → List ℕ → Colors → Outcome) (n : ℕ) (stack deps : List ℕ) (c c' : Colors)
      → KeepsOrder go
      → visit_deps go n stack deps c ≡ done c'
      → Ordered c
      → Ordered c'
  visit_deps-Ordered go n stack [] c c' k h o =
      let same : c ≡ c' = unfold visit_deps in cc in rw (← same) o
  visit_deps-Ordered go n stack (d ∷ deps) c c' k h o =
      elim (visit_deps-eq-done go n stack d deps c c' h) [
        | visited mid w q rest ↦
            visit_deps-Ordered go n stack deps mid c' k rest (k d (stack ++ n ∷ []) c mid w q o)
        | skipped b rest ↦ visit_deps-Ordered go n stack deps c c' k rest o
      ]

  visit-Ordered : (fuel : ℕ) → KeepsOrder (visit edges fuel)
  visit-Ordered zero n stack c c' w h o = absurd (unfold visit in ground arith)
  visit-Ordered (suc fuel) n stack c c' w h o =
      let (mid, loop, last) = visit-eq-done edges fuel n stack c c' h in
      let (kept, others) =
        visit_deps-Kept (visit edges fuel) (visit-Keeps edges fuel) n stack (deps_of edges n)
          (put n gray c) mid loop in
      let o' =
        visit_deps-Ordered (visit edges fuel) n stack (deps_of edges n) (put n gray c) mid
          (visit-Ordered fuel) loop (Ordered-gray n c w o) in
      let g = kept.gray_kept n (ground (arith, color_of-put n n gray c)) in
      rw last (
        Ordered-black n mid g (λ d. All-In (λ k. color_of mid k ≡ black) (deps_of edges n) d others)
          o')

  -- The loop over the nodes, from colors with no gray node, leaves every node black.
  pub visit_all-Ordered :
      (fuel : ℕ) (ns : List ℕ) (c c' : Colors)
      → visit_all edges fuel ns c ≡ done c'
      → ((m : ℕ) → color_of c m ≢ gray)
      → Ordered c
      → Ordered c' × Kept c c' × All (λ m. color_of c' m ≡ black) ns
  visit_all-Ordered fuel [] c c' h g o =
      let same : c ≡ c' = unfold visit_all in cc in rw (← same) (o, Kept-refl c, tt)
  visit_all-Ordered fuel (n ∷ ns) c c' h g o = elim (visit_all-eq-done edges fuel n ns c c' h) [
    | inl (mid, w, q, rest) ↦
        let (kept, b) = visit-Keeps edges fuel n [] c mid w q in
        let (o', kept', bs) =
          visit_all-Ordered fuel ns mid c' rest (λ m e. g m (kept.gray_only m e))
            (visit-Ordered fuel n [] c mid w q o) in
        (o', Kept-trans kept kept', (kept'.black_kept n b, bs))
    | inr (nw, rest) ↦
        let (o', kept', bs) = visit_all-Ordered fuel ns c c' rest g o in
        let b : color_of c n ≡ black = ground (arith, g n, nw) in
        (o', kept', (kept'.black_kept n b, bs))
  ]
