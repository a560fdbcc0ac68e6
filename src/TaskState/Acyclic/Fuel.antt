-- ===== src/TaskState/Acyclic/Fuel.antt =====
-- One call more than there are white nodes is enough fuel for a visit: a visit below another
-- finds one white node less, and a node without an entry has no prerequisites to visit.
use ai_studio.Prelude.{
  ℕ, zero, suc, ◌≤◌, ◌<◌, Bool, none, List, [], ◌∷◌, ◌++◌, ◌≡◌, ◌≢◌, inl, inr, refl, arith, ◌==◌,
  if◌then◌else◌, get, put, In, Bool-cases, true, false, subst, length, map,
}
use ai_studio.TaskState.Acyclic.{
  Color, white, gray, black, Colors, color_of, Edges, deps_of, Outcome, done, raised, out_of_fuel,
  and_then, visit_deps, visit, visit_all, nodes,
}
use ai_studio.TaskState.Acyclic.Colors.{
  color_of-put, Color-cases, Kept, Keeps, result_of, visit-Keeps,
}

abbrev is_white : Color → Bool
is_white white = true
is_white gray = false
is_white black = false

-- How many of the nodes are white.
pub whites : Colors → List ℕ → ℕ
whites c [] = 0
whites c (n ∷ ns) = let rest = whites c ns in if is_white (color_of c n) then suc rest else rest

whites-le-length : (c : Colors) (ns : List ℕ) → whites c ns ≤ length ns
unfolding whites
whites-le-length c [] = omega arith
whites-le-length c (n ∷ ns) = ground (arith, whites-le-length c ns)

-- No node turns white.
abbrev Darkens : Colors → Colors → Type 0
Darkens c c' = (m : ℕ) → color_of c' m ≡ white → color_of c m ≡ white

Kept-Darkens : {c c' : Colors} → Kept c c' → Darkens c c'
Kept-Darkens {c} {c'} k m w = elim (Color-cases (color_of c m)) [
  | inl e ↦ e
  | inr (inl g) ↦ let g' = k.gray_kept m g in ground arith
  | inr (inr b) ↦ let b' = k.black_kept m b in ground arith
]

Darkens-put : (n : ℕ) (c : Colors) → Darkens c (put n gray c)
Darkens-put n c m w = ground (arith, color_of-put n m gray c)

whites_mono : (c c' : Colors) (ns : List ℕ) → Darkens c c' → whites c' ns ≤ whites c ns
unfolding whites
whites_mono c c' [] d = omega arith
whites_mono c c' (n ∷ ns) d = ground (arith, d n, whites_mono c c' ns d)

-- A white node of the list that turns gray makes the number smaller.
whites-put-lt :
    (n : ℕ) (c : Colors) (ns : List ℕ)
    → In n ns
    → color_of c n ≡ white
    → whites (put n gray c) ns < whites c ns
unfolding whites
whites-put-lt n c [] i w = absurd i
whites-put-lt n c (m ∷ ns) (inl same) w =
    ground (arith, color_of-put n m gray c, whites_mono c (put n gray c) ns (Darkens-put n c))
whites-put-lt n c (m ∷ ns) (inr i) w =
    ground (arith, color_of-put n m gray c, whites-put-lt n c ns i w)

In-nodes :
    {V : Type 0} (edges : List (ℕ × V)) (n : ℕ) → get n edges ≢ none → In n (map (λ e. e.0) edges)
unfolding get
In-nodes [] n h = h refl
In-nodes ((k, v) ∷ edges) n h = elim (Bool-cases (k == n)) [
  | inl e ↦ inl (ground arith)
  | inr e ↦ inr (In-nodes edges n (λ q. h (rw e q)))
]

no_entry : (edges : Edges) (n : ℕ) → get n edges ≡ none → deps_of edges n ≡ []
unfolding deps_of
no_entry edges n e = ground arith

-- A node with prerequisites has an entry.
pub In-nodes_of_dep : (edges : Edges) (n d : ℕ) → In d (deps_of edges n) → In n (nodes edges)
In-nodes_of_dep edges n d i = In-nodes edges n (λ e. subst (In d) (no_entry edges n e) i)

length-nodes : (edges : Edges) → length (nodes edges) ≡ length edges
length-nodes [] = refl
length-nodes (e ∷ edges) = omega (arith, length-nodes edges)

module _ (edges : Edges) where
  abbrev Ends : ℕ → (ℕ → List ℕ → Colors → Outcome) → Type 0
  Ends bound go =
      (n : ℕ) (stack : List ℕ) (c : Colors)
      → color_of c n ≡ white
      → whites c (nodes edges) < bound
      → go n stack c ≢ out_of_fuel

  visit_deps-Ends :
      (bound : ℕ) (go : ℕ → List ℕ → Colors → Outcome) (n : ℕ) (stack deps : List ℕ) (c : Colors)
      → Keeps go
      → Ends bound go
      → whites c (nodes edges) < bound
      → visit_deps go n stack deps c ≢ out_of_fuel
  unfolding visit_deps
  visit_deps-Ends bound go n stack [] c k ends b h = ground arith
  visit_deps-Ends bound go n stack (d ∷ deps) c k ends b h = elim (Bool-cases (d == n)) [
    | inl e ↦ ground arith
    | inr e ↦ elim (Color-cases (color_of c d)) [
      | inl w ↦ elim (result_of (go d (stack ++ n ∷ []) c)) [
        | inl (mid, gone) ↦
            let less =
              whites_mono c mid (nodes edges)
                (Kept-Darkens (k d (stack ++ n ∷ []) c mid w gone).0) in
            visit_deps-Ends bound go n stack deps mid k ends (omega arith) (ground arith)
        | inr (inl (x, gone)) ↦ ground arith
        | inr (inr gone) ↦ ends d (stack ++ n ∷ []) c w b gone
      ]
      | inr (inl g) ↦ ground arith
      | inr (inr q) ↦ visit_deps-Ends bound go n stack deps c k ends b (ground arith)
    ]
  ]

  visit_deps_none :
      (go : ℕ → List ℕ → Colors → Outcome) (n : ℕ) (stack : List ℕ) (c : Colors)
      → visit_deps go n stack [] c ≢ out_of_fuel
  unfolding visit_deps
  visit_deps_none go n stack c h = ground arith

  ended :
      (o : Outcome) (n : ℕ) → and_then o (λ c. done (put n black c)) ≡ out_of_fuel → o ≡ out_of_fuel
  ended (done c) n h = cc
  ended (raised x) n h = cc
  ended out_of_fuel n h = refl

  loop-Ends :
      (fuel n : ℕ) (stack deps : List ℕ) (c : Colors)
      → Ends fuel (visit edges fuel)
      → color_of c n ≡ white
      → whites c (nodes edges) < suc fuel
      → ((d : ℕ) → In d deps → In n (nodes edges))
      → visit_deps (visit edges fuel) n stack deps (put n gray c) ≢ out_of_fuel
  loop-Ends fuel n stack [] c ends w b listed =
      visit_deps_none (visit edges fuel) n stack (put n gray c)
  loop-Ends fuel n stack (d ∷ deps) c ends w b listed =
      let less = whites-put-lt n c (nodes edges) (listed d (inl refl)) w in
      visit_deps-Ends fuel (visit edges fuel) n stack (d ∷ deps) (put n gray c)
        (visit-Keeps edges fuel) ends (omega arith)

  visit-Ends : (fuel : ℕ) → Ends fuel (visit edges fuel)
  unfolding visit
  visit-Ends zero n stack c w b h = omega arith
  visit-Ends (suc fuel) n stack c w b h =
      loop-Ends fuel n stack (deps_of edges n) c (visit-Ends fuel) w b (In-nodes_of_dep edges n)
        (ended (visit_deps (visit edges fuel) n stack (deps_of edges n) (put n gray c)) n h)

  pub visit_all-Ends :
      (fuel : ℕ) (ns : List ℕ) (c : Colors)
      → whites c (nodes edges) < fuel
      → visit_all edges fuel ns c ≢ out_of_fuel
  unfolding visit_all
  visit_all-Ends fuel [] c b h = ground arith
  visit_all-Ends fuel (n ∷ ns) c b h = elim (Color-cases (color_of c n)) [
    | inl w ↦ elim (result_of (visit edges fuel n [] c)) [
      | inl (mid, gone) ↦
          let less =
            whites_mono c mid (nodes edges)
              (Kept-Darkens (visit-Keeps edges fuel n [] c mid w gone).0) in
          visit_all-Ends fuel ns mid (omega arith) (ground arith)
      | inr (inl (x, gone)) ↦ ground arith
      | inr (inr gone) ↦ visit-Ends fuel n [] c w b gone
    ]
    | inr (inl g) ↦ visit_all-Ends fuel ns c b (ground arith)
    | inr (inr q) ↦ visit_all-Ends fuel ns c b (ground arith)
  ]

  pub whites-lt-fuel : (c : Colors) → whites c (nodes edges) < suc (length edges)
  whites-lt-fuel c = omega (arith, whites-le-length c (nodes edges), length-nodes edges)
