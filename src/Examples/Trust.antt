-- ===== src/Examples/Trust.antt =====
-- Tests of runtime/trust.py.
use ai_studio.Prelude.{
  String, Bool, true, false, none, some, List, [], ◌∷◌, ◌≡◌, refl, str_eq, any, not, ok,
}
use ai_studio.Db.{Db}
use ai_studio.Tasks.Grab.{find_trust, fenced, identity_quarantined}
use ai_studio.Trust.{
  get_trust, ensure_trust, update_trust, struck, is_relay_allowed, record_strike, record_claim,
  set_claim_verification, verdict_of, get_claim, update_claim,
}
use ai_studio.Trust.Strikes.{is_fabrication, view, booked}
use ai_studio.Trust.Revoked.{run_revoked}
use ai_studio.Trust.Calls.{Call, contact, claim, verdict, strike, run, perform, opened, run_barred}

abbrev blank : String → Bool
blank s = str_eq s ""

abbrev calls : List Call
calls =
    contact "researcher"
    ∷ claim "researcher" "done" [] false none none
    ∷ verdict 0 "rejected" "spokesman" none
    ∷ strike "researcher" (some 0) "late" none
    ∷ strike "researcher" (some 0) "fabrication" none
    ∷ []

abbrev queue : Db
queue = record {
  tasks = [];
  hops = [];
  events = [];
  trust = (run blank calls (opened 0)).trust;
  steps = [];
  clock = 0;
}

-- Two strikes, no relay, and a fence.
researcher_barred :
    view (find_trust "researcher" (run blank calls (opened 0)).trust) ≡ (2, false, true)
unfolding run perform opened find_trust get_trust ensure_trust update_trust struck fenced
    record_strike record_claim set_claim_verification verdict_of get_claim update_claim
researcher_barred = refl

run_barred_example :
    let l = run blank calls (opened 0) in
    ((is_relay_allowed blank "researcher" l).0
      ≡ ok (not (any (is_fabrication "researcher") l.events)))
    × (identity_quarantined queue "researcher" ≡ any (is_fabrication "researcher") l.events)
    × (view (find_trust "researcher" l.trust) ≡ booked "researcher" l.events)
run_barred_example = run_barred blank 0 calls "researcher" queue refl refl refl

run_revoked_example :
    let after = run blank (strike "pm" none "fabrication" none ∷ calls) (opened 0) in
    ((is_relay_allowed blank "pm" after).0 ≡ ok false)
    × ((view (find_trust "pm" after.trust)).2 ≡ true)
run_revoked_example = run_revoked blank "pm" none none (opened 0) calls refl refl
