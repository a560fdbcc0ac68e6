-- ===== src/Supervisor/Loop/Graced.antt =====
-- The window of grace: after an outage no sweep comes before the window has passed.
use ai_studio.Prelude.{
  ℕ, ◌+◌, ◌≤◌, Bool, true, false, Option, none, some, List, [], ◌∷◌, ◌++◌, ◌≡◌, ◌⊎◌, inl, inr, refl,
  arith, ◌||◌, not, ltb, if◌then◌else◌, Bool-cases, Option-cases, ok, err, Result, ap, sym, ◌∙◌,
  subst,
}
use ai_studio.Db.{Db}
use ai_studio.Tasks.Calls.{run}
use ai_studio.Supervisor.{Ladder, SweepResult}
use ai_studio.Supervisor.Loop.{
  GraceTracker, new_tracker, note_failure, note_connected, in_grace, Fault, operational_error,
  other_error, Turn, Loop, Mark, failed, connected, swept, try_sweep, turn, run_loop, connected_at,
  lose_connection, passed, supervised_sweep,
}

-- A history of the loop: `down` says that an outage was noted and no connection made since, and
-- `since` is the last connection that ended an outage.
abbrev pub Graced : (grace : ℕ) (down : Bool) (since : Option ℕ) → List Mark → Type 0
Graced grace down since [] = Unit {0}
Graced grace down since (failed ∷ ms) = Graced grace true since ms
Graced grace down since (connected c ∷ ms) = Graced grace false (if down then some c else since) ms
Graced grace true since (swept s ∷ ms) = ⊥
Graced grace false none (swept s ∷ ms) = Graced grace false none ms
Graced grace false (some c) (swept s ∷ ms) = (c + grace ≤ s) × Graced grace false (some c) ms

-- How the tracker stands to the history.
abbrev Waits : GraceTracker → ℕ → Option ℕ → Type 0
Waits g now none = Unit {0}
Waits g now (some c) =
    (g.grace_until ≡ some (c + g.grace)) ⊎ ((g.grace_until ≡ none) × (c + g.grace ≤ now))

record Tracks (down : Bool) (since : Option ℕ) (s : Loop) : Type 0 where
  noted : s.grace.db_down ≡ down
  closed : down ≡ true → s.has_conn ≡ false
  unarmed : s.grace.grace ≡ 0 → s.grace.grace_until ≡ none
  waits : Waits s.grace s.clock since

-- What a list of marks makes of the history.
abbrev marked : List Mark → Bool × Option ℕ → Bool × Option ℕ
marked [] h = h
marked (failed ∷ ms) h = marked ms (true, h.1)
marked (connected c ∷ ms) h = marked ms (false, if h.0 then some c else h.1)
marked (swept s ∷ ms) h = marked ms h

-- A piece of the loop keeps the window and the invariant.
record Keeps (grace : ℕ) (down : Bool) (since : Option ℕ) (r : List Mark × Loop) : Type 0 where
  graced : Graced grace down since r.0
  tracks : let h = marked r.0 (down, since) in Tracks h.0 h.1 r.1
  fixed : r.1.grace.grace ≡ grace

-- Since the last outage that ended, the window has passed.
abbrev Elapsed : ℕ → Option ℕ → ℕ → Type 0
Elapsed grace none now = Unit {0}
Elapsed grace (some c) now = c + grace ≤ now

later :
    (g : GraceTracker) (now d : ℕ) (since : Option ℕ) → Waits g now since → Waits g (now + d) since
later g now d none w = tt
later g now d (some c) (inl e) = inl e
later g now d (some c) (inr (e, h)) = inr (e, omega arith)

-- What asking for the window does.
record Asked (g : GraceTracker) (now : ℕ) (since : Option ℕ) (r : Bool × GraceTracker)
    : Type 0 where
  over : r.0 ≡ false → Elapsed g.grace since now
  waits : Waits r.1 now since
  same_down : r.1.db_down ≡ g.db_down
  same_grace : r.1.grace ≡ g.grace
  unarmed : g.grace_until ≡ none → r.1.grace_until ≡ none

in_grace-Asked :
    (g : GraceTracker) (now : ℕ) (since : Option ℕ)
    → Waits g now since
    → Asked g now since (in_grace now g)
unfolding in_grace
in_grace-Asked g now none w = record {
  over = λ e. tt;
  waits = tt;
  same_down = ground arith;
  same_grace = ground arith;
  unarmed = ground arith;
}
in_grace-Asked g now (some c) w = record {
  over = ground arith;
  waits = ground arith;
  same_down = ground arith;
  same_grace = ground arith;
  unarmed = ground arith;
}

-- A pass asks for the window once; it is deferred, or the window is over.
supervised_sweep-asks :
    (now : ℕ) (l : Ladder) (fault : Option Fault) (g : GraceTracker) (db : Db)
    → let r = supervised_sweep now l fault g db in
      (r.1 ≡ (in_grace now g).1) × ((r.0 ≡ ok none) ⊎ ((in_grace now g).0 ≡ false))
unfolding supervised_sweep
supervised_sweep-asks now l fault g db = elim (Bool-cases (in_grace now g).0) [
  | inl e ↦ (rw e refl, inl (rw e refl))
  | inr e ↦ elim (Option-cases fault) [
    | inl f ↦ (rw (e, f) refl, inr e)
    | inr (x, f) ↦ (rw (e, f) refl, inr e)
  ]
]

passed-Keeps :
    (since : Option ℕ) (now : ℕ) (o : Result Fault (Option SweepResult)) (s : Loop)
    → Tracks false since s
    → (o ≡ ok none) ⊎ Elapsed s.grace.grace since now
    → Keeps s.grace.grace false since (passed now o s)
unfolding lose_connection note_failure
passed-Keeps since now (ok none) s k e = record { graced = tt; tracks = k; fixed = refl }
passed-Keeps none now (ok (some r)) s k e = record { graced = tt; tracks = k; fixed = refl }
passed-Keeps (some c) now (ok (some r)) s k (inl e) = cc
passed-Keeps (some c) now (ok (some r)) s k (inr e) = record {
  graced = (e, tt);
  tracks = k;
  fixed = refl;
}
passed-Keeps since now (err operational_error) s k e = record {
  graced = tt;
  tracks = record { noted = refl; closed = λ _. refl; unarmed = k.unarmed; waits = k.waits };
  fixed = refl;
}
passed-Keeps since now (err other_error) s k e = record {
  graced = tt;
  tracks = record { noted = k.noted; closed = λ _. refl; unarmed = k.unarmed; waits = k.waits };
  fixed = refl;
}

try_sweep-Keeps :
    (since : Option ℕ) (t : Turn) (s : Loop)
    → Tracks false since s
    → Keeps s.grace.grace false since (try_sweep t s)
unfolding try_sweep
try_sweep-Keeps since t s k =
    let now = s.clock + t.before_sweep in
    let a = in_grace-Asked s.grace now since (later s.grace s.clock t.before_sweep since k.waits) in
    let r = supervised_sweep now t.ladder t.fault s.grace s.db in
    let (same, asked) = supervised_sweep-asks now t.ladder t.fault s.grace s.db in
    let s' : Loop = record s { grace = r.1; clock = now; db = r.2 } in
    let tracks : Tracks false since s' = record {
      noted = ap (λ (g : GraceTracker). g.db_down) same ∙ a.same_down ∙ k.noted;
      closed = λ e. cc;
      unarmed = λ e. rw same (a.unarmed (k.unarmed (sym a.same_grace ∙ (rw same at e))));
      waits = rw same a.waits;
    } in
    let fixed : r.1.grace ≡ s.grace.grace = rw same a.same_grace in
    let over : (r.0 ≡ ok none) ⊎ Elapsed r.1.grace since now = elim asked [
      | inl d ↦ inl d
      | inr n ↦ inr (rw fixed (a.over n))
    ] in
    subst (λ g. Keeps g false since (passed now r.0 s')) fixed
      (passed-Keeps since now r.0 s' tracks over)

-- A connection that follows no outage arms nothing.
steady :
    (g : GraceTracker) (now : ℕ) (since : Option ℕ)
    → g.db_down ≡ false
    → Waits g now since
    → Waits (note_connected now g) now since
unfolding note_connected
steady g now none e w = tt
steady g now (some c) e w = ground arith

-- The last outage that a connection ended.
abbrev ended : Bool → ℕ → Option ℕ → Option ℕ
ended down now since = if down then some now else since

module _ (down : Bool) (since : Option ℕ) (d : ℕ) (s : Loop) (k : Tracks down since s) where
  connected_at-Tracks : Tracks false (ended down (s.clock + d) since) (connected_at (s.clock + d) s)
  unfolding note_connected
  connected_at-Tracks = record {
    noted = refl;
    closed = λ e. cc;
    unarmed = λ e. let u = k.unarmed e in ground arith;
    waits = waits down k.noted (ltb 0 s.grace.grace) refl;
  }
    where
      waits :
          (b : Bool)
          → s.grace.db_down ≡ b
          → (c : Bool) → ltb 0 s.grace.grace ≡ c
          → Waits (note_connected (s.clock + d) s.grace) (s.clock + d) (ended b (s.clock + d) since)
      waits true e true p = inl (rw (e, p) refl)
      waits true e false p =
          let z : s.grace.grace ≡ 0 = ground arith in inr (rw (e, p) (k.unarmed z), omega arith)
      waits false e c p =
          steady s.grace (s.clock + d) since e (later s.grace s.clock d since k.waits)

  reconnect-Keeps :
      (t : Turn)
      → Keeps s.grace.grace down since (
          let (marks, after) = try_sweep t (connected_at (s.clock + d) s) in
          (connected (s.clock + d) ∷ marks, after))
  unfolding note_connected
  reconnect-Keeps t =
      let kept =
        try_sweep-Keeps (ended down (s.clock + d) since) t (connected_at (s.clock + d) s)
          connected_at-Tracks in
      record { graced = kept.graced; tracks = kept.tracks; fixed = kept.fixed }

  outage-Keeps :
      Keeps s.grace.grace down since
        (failed ∷ [], lose_connection (record s { clock = s.clock + d }))
  unfolding lose_connection note_failure
  outage-Keeps = record {
    graced = tt;
    tracks = record {
      noted = refl;
      closed = λ _. refl;
      unarmed = k.unarmed;
      waits = later s.grace s.clock d since k.waits;
    };
    fixed = refl;
  }

turn-Keeps :
    (down : Bool) (since : Option ℕ) (t : Turn) (s : Loop)
    → Tracks down since s
    → Keeps s.grace.grace down since (turn t s)
unfolding turn try_sweep
turn-Keeps down since t s k =
    let s' : Loop = record s { db = run t.calls s.db } in
    let k' : Tracks down since s' = record {
      noted = k.noted;
      closed = k.closed;
      unarmed = k.unarmed;
      waits = k.waits;
    } in
    elim (Bool-cases (not s.has_conn || t.dropped)) [
      | inl e ↦ elim (Bool-cases t.connects) [
        | inl c ↦ rw (e, c) (reconnect-Keeps down since t.before_connected s' k' t)
        | inr c ↦ rw (e, c) (outage-Keeps down since t.before_connected s' k')
      ]
      | inr e ↦
          let up : down ≡ false = elim (Bool-cases down) [
            | inl b ↦ let n = k.closed b in ground arith
            | inr b ↦ b
          ] in
          rw (e, up) (try_sweep-Keeps since t s' (subst (λ b. Tracks b since s') up k'))
    ]

Graced-append :
    (grace : ℕ) (down : Bool) (since : Option ℕ) (ms more : List Mark)
    → Graced grace down since ms
    → (let h = marked ms (down, since) in Graced grace h.0 h.1 more)
    → Graced grace down since (ms ++ more)
Graced-append grace down since [] more a b = b
Graced-append grace down since (failed ∷ ms) more a b = Graced-append grace true since ms more a b
Graced-append grace down since (connected c ∷ ms) more a b =
    Graced-append grace false (ended down c since) ms more a b
Graced-append grace true since (swept n ∷ ms) more a b = absurd a
Graced-append grace false none (swept n ∷ ms) more a b = Graced-append grace false none ms more a b
Graced-append grace false (some c) (swept n ∷ ms) more a b =
    (a.0, Graced-append grace false (some c) ms more a.1 b)

run_loop-Tracks :
    (down : Bool) (since : Option ℕ) (ts : List Turn) (s : Loop)
    → Tracks down since s
    → Graced s.grace.grace down since (run_loop ts s).0
unfolding run_loop
run_loop-Tracks down since [] s k = tt
run_loop-Tracks down since (t ∷ ts) s k =
    let r = turn t s in
    let one = turn-Keeps down since t s k in
    let h = marked r.0 (down, since) in
    Graced-append s.grace.grace down since r.0 (run_loop ts r.1).0 one.graced (
      subst (λ g. Graced g h.0 h.1 (run_loop ts r.1).0) one.fixed
        (run_loop-Tracks h.0 h.1 ts r.1 one.tracks))

-- The state in which `run` starts.
abbrev pub starting : (grace now : ℕ) → Db → Loop
starting grace now db = record { has_conn = false; grace = new_tracker grace; clock = now; db = db }

-- Whatever the turns of the loop meet (dropped connections, failed connects, failed sweeps, other
-- processes): no sweep runs between an outage that was noted and the next connection, nor before
-- the grace has passed since the last connection that ended an outage.
pub run_loop-Graced :
    (grace now : ℕ) (db : Db) (ts : List Turn)
    → Graced grace false none (run_loop ts (starting grace now db)).0
run_loop-Graced grace now db ts =
    run_loop-Tracks false none ts (starting grace now db)
      (record { noted = refl; closed = λ e. refl; unarmed = λ e. refl; waits = tt })
