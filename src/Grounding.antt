-- ===== src/Grounding.antt =====
-- runtime/grounding.py: evidence and claims, with the checks that their constructors make. Whether a
-- text is blank (`not s or not s.strip()`) is the parameter `blank`.
use ai_studio.Prelude.{
  String, Bool, true, Option, List, [], ◌∷◌, ◌&&◌, not, if◌then◌else◌, Result, ok, err,
}

-- `EvidenceKind`
pub data EvidenceKind : Type 0 where
  event task db_row artifact file metric : EvidenceKind

-- `EvidenceRef`
pub record EvidenceRef : Type 0 where
  pub kind : EvidenceKind
  pub locator : String
  pub expected : Option String

-- `Claim`
pub record Claim : Type 0 where
  pub statement : String
  pub evidence : List EvidenceRef
  pub is_judgment : Bool

-- The messages of `ValueError`.
pub data GroundingError : Type 0 where
  empty_locator empty_statement no_evidence : GroundingError

abbrev pub is_empty {ℓ} : {A : Type ℓ} → List A → Bool
is_empty [] = true
is_empty (x ∷ xs) = not true

module _ (blank : String → Bool) where
  unfoldable pub validate_ref : EvidenceRef → Result GroundingError EvidenceRef
  validate_ref r = if blank r.locator then err empty_locator else ok r

  unfoldable pub validate_claim : Claim → Result GroundingError Claim
  validate_claim c =
      if blank c.statement
      then err empty_statement
      else if not c.is_judgment && is_empty c.evidence
      then err no_evidence
      else ok c
