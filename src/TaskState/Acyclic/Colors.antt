-- ===== src/TaskState/Acyclic/Colors.antt =====
-- How a finished `visit` changes the colors.
use ai_studio.Prelude.{
  ℕ, zero, suc, List, [], ◌∷◌, ◌++◌, ◌≡◌, ◌≢◌, ◌⊎◌, inl, inr, refl, arith, ◌==◌, if◌then◌else◌, put,
  get-put, All, Bool-cases,
}
use ai_studio.TaskState.Acyclic.{
  Color, white, gray, black, Colors, color_of, Edges, deps_of, Outcome, done, raised, out_of_fuel,
  CycleError, and_then, visit_deps, visit, visit_all,
}

pub color_of-put :
    (n m : ℕ) (v : Color) (color : Colors)
    → color_of (put n v color) m ≡ (if n == m then v else color_of color m)
unfolding color_of
color_of-put n m v color = ground (arith, get-put n m v color)

pub Color-cases : (c : Color) → (c ≡ white) ⊎ (c ≡ gray) ⊎ (c ≡ black)
Color-cases white = inl refl
Color-cases gray = inr (inl refl)
Color-cases black = inr (inr refl)

pub Outcome-cases : (o : Outcome) → ((c : Colors) × (o ≡ done c)) ⊎ ((c : Colors) → o ≢ done c)
Outcome-cases (done c) = inl (c, refl)
Outcome-cases (raised e) = inr (λ c h. cc)
Outcome-cases out_of_fuel = inr (λ c h. cc)

and_then_bad :
    (o : Outcome) (f : Colors → Outcome)
    → ((c : Colors) → o ≢ done c)
    → (c : Colors) → and_then o f ≢ done c
and_then_bad (done x) f bad c h = bad x refl
and_then_bad (raised e) f bad c h = cc
and_then_bad out_of_fuel f bad c h = cc

pub result_of :
    (o : Outcome)
    → ((c : Colors) × (o ≡ done c)) ⊎ ((e : CycleError) × (o ≡ raised e)) ⊎ (o ≡ out_of_fuel)
result_of (done c) = inl (c, refl)
result_of (raised e) = inr (inl (e, refl))
result_of out_of_fuel = inr (inr refl)

-- The gray nodes are the same, and black nodes stay black.
pub record Kept (c c' : Colors) : Type 0 where
  pub gray_kept : (m : ℕ) → color_of c m ≡ gray → color_of c' m ≡ gray
  pub gray_only : (m : ℕ) → color_of c' m ≡ gray → color_of c m ≡ gray
  pub black_kept : (m : ℕ) → color_of c m ≡ black → color_of c' m ≡ black

pub Kept-refl : (c : Colors) → Kept c c
Kept-refl c = record { gray_kept = λ m h. h; gray_only = λ m h. h; black_kept = λ m h. h }

pub Kept-trans : {a b c : Colors} → Kept a b → Kept b c → Kept a c
Kept-trans p q = record {
  gray_kept = λ m h. q.gray_kept m (p.gray_kept m h);
  gray_only = λ m h. p.gray_only m (q.gray_only m h);
  black_kept = λ m h. q.black_kept m (p.black_kept m h);
}

-- A visitor that keeps the colors and blackens its white node.
abbrev pub Keeps : (ℕ → List ℕ → Colors → Outcome) → Type 0
Keeps go =
    (n : ℕ) (stack : List ℕ) (c c' : Colors)
    → color_of c n ≡ white
    → go n stack c ≡ done c'
    → Kept c c' × (color_of c' n ≡ black)

-- The steps of the loop that go on.
pub data LoopStep (go : ℕ → List ℕ → Colors → Outcome) (n : ℕ) (stack : List ℕ) (d : ℕ)
    (deps : List ℕ) (c c' : Colors) : Type 0 where
  visited :
      (mid : Colors)
      → color_of c d ≡ white
      → go d (stack ++ n ∷ []) c ≡ done mid
      → visit_deps go n stack deps mid ≡ done c'
      → LoopStep go n stack d deps c c'
  skipped :
      color_of c d ≡ black
      → visit_deps go n stack deps c ≡ done c'
      → LoopStep go n stack d deps c c'

pub visit_deps-eq-done :
    (go : ℕ → List ℕ → Colors → Outcome) (n : ℕ) (stack : List ℕ) (d : ℕ) (deps : List ℕ)
    (c c' : Colors)
    → visit_deps go n stack (d ∷ deps) c ≡ done c'
    → LoopStep go n stack d deps c c'
unfolding visit_deps
visit_deps-eq-done go n stack d deps c c' h = elim (Bool-cases (d == n)) [
  | inl e ↦ absurd (ground arith)
  | inr e ↦ elim (Color-cases (color_of c d)) [
    | inl w ↦ elim (Outcome-cases (go d (stack ++ n ∷ []) c)) [
      | inl (mid, q) ↦ visited mid w q (ground arith)
      | inr bad ↦ absurd (
          and_then_bad (go d (stack ++ n ∷ []) c) (visit_deps go n stack deps) bad c'
            (ground arith))
    ]
    | inr (inl g) ↦ absurd (ground arith)
    | inr (inr b) ↦ skipped b (ground arith)
  ]
]

module _ (go : ℕ → List ℕ → Colors → Outcome) (keeps : Keeps go) (n : ℕ) (stack : List ℕ) where
  -- The loop keeps the colors, and leaves every prerequisite black.
  pub visit_deps-Kept :
      (deps : List ℕ) (c c' : Colors)
      → visit_deps go n stack deps c ≡ done c'
      → Kept c c' × All (λ d. color_of c' d ≡ black) deps
  visit_deps-Kept [] c c' h =
      let same : c ≡ c' = unfold visit_deps in cc in (rw same (Kept-refl c'), tt)
  visit_deps-Kept (d ∷ deps) c c' h = elim (visit_deps-eq-done go n stack d deps c c' h) [
    | visited mid w q rest ↦
        let (first, blackened) = keeps d (stack ++ n ∷ []) c mid w q in
        let (later, others) = visit_deps-Kept deps mid c' rest in
        (Kept-trans first later, (later.black_kept d blackened, others))
    | skipped b rest ↦
        let (later, others) = visit_deps-Kept deps c c' rest in
        (later, (later.black_kept d b, others))
  ]

module _ (edges : Edges) where
  -- The steps of a visit that ends: its loop ends, and the node is blackened.
  pub visit-eq-done :
      (fuel n : ℕ) (stack : List ℕ) (c c' : Colors)
      → visit edges (suc fuel) n stack c ≡ done c'
      → (mid : Colors) × (visit_deps (visit edges fuel) n stack (deps_of edges n) (put n gray c)
          ≡ done mid)
        × (c' ≡ put n black mid)
  unfolding visit
  visit-eq-done fuel n stack c c' h =
      elim (Outcome-cases
        (visit_deps (visit edges fuel) n stack (deps_of edges n) (put n gray c))) [
          | inl (mid, q) ↦ (mid, q, ground arith)
          | inr bad ↦ absurd (and_then_bad _ _ bad c' h)
        ]

  pub visit-Keeps : (fuel : ℕ) → Keeps (visit edges fuel)
  visit-Keeps zero n stack c c' w h = absurd (unfold visit in ground arith)
  visit-Keeps (suc fuel) n stack c c' w h =
      let (mid, loop, last) = visit-eq-done fuel n stack c c' h in
      let (kept, others) =
        visit_deps-Kept (visit edges fuel) (visit-Keeps fuel) n stack (deps_of edges n)
          (put n gray c) mid loop in
      let at = λ (m : ℕ). color_of-put n m gray c in
      let at' = λ (m : ℕ). color_of-put n m black mid in
      (
        record {
          gray_kept = λ m g. rw last (ground (arith, at m, at' m, kept.gray_kept m));
          gray_only = λ m g. ground (arith, last, at m, at' m, kept.gray_only m);
          black_kept = λ m b. rw last (ground (arith, at m, at' m, kept.black_kept m));
        },
        rw last (ground (arith, at' n)),
      )

  pub visit_all-eq-done :
      (fuel n : ℕ) (ns : List ℕ) (c c' : Colors)
      → visit_all edges fuel (n ∷ ns) c ≡ done c'
      → ((mid : Colors) × (color_of c n ≡ white)
          × (visit edges fuel n [] c ≡ done mid)
          × (visit_all edges fuel ns mid ≡ done c'))
        ⊎ ((color_of c n ≢ white) × (visit_all edges fuel ns c ≡ done c'))
  unfolding visit_all
  visit_all-eq-done fuel n ns c c' h = elim (Color-cases (color_of c n)) [
    | inl w ↦ elim (Outcome-cases (visit edges fuel n [] c)) [
      | inl (mid, q) ↦ inl (mid, w, q, ground arith)
      | inr bad ↦
          absurd
            (and_then_bad (visit edges fuel n [] c) (visit_all edges fuel ns) bad c' (ground arith))
    ]
    | inr (inl g) ↦ inr ((λ e. cc), ground arith)
    | inr (inr b) ↦ inr ((λ e. cc), ground arith)
  ]
