-- ===== src/Relay/Sources.antt =====
-- What the gate of spokesman/grounding_gate.py reads: Python's functions on texts, and the answers of
-- the database and the disk. A read that raises is `none`.
use ai_studio.Prelude.{ℕ, ℤ, String, Bool, Option, List}

-- What the gate takes from Python's library.
pub record TextLib : Type 0 where
  pub strip : String → String
  pub lower : String → String
  pub partition : (text separator : String) → String × Bool × String  -- `true`: the separator is there
  pub rpartition : (text separator : String) → String × Bool × String
  pub split_commas : String → List String
  pub drop_prefix : (pre text : String) → Option String  -- `startswith`, and the rest
  pub is_digits : String → Bool
  pub is_name : String → Bool  -- `isidentifier`
  pub chars : String → List ℕ
  pub uuid : String → Option ℕ
  pub int : String → Option ℤ
  pub sorted : List String → List String

-- The answers of the database and the disk at one moment.
pub record Answers : Type 0 where
  pub event_by_seq : ℤ → Option (Option String)  -- the event's type
  pub event_by_id : ℕ → Option (Option String)
  pub task_status : ℕ → Option (Option String)
  pub row : (table column value : String) → Option (Option (List (String × String)))  -- `str` of its columns
  pub metric : String → Option (Option String)
  pub exists : String → Bool
  pub digest : String → Option String  -- SHA-256 of the file
