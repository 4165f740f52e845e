-- ===== src/Types/Specs.antt =====
-- The specifications of internal/supervisor/types.go: runtimes, authority, budgets and work.
use durable_agent_handoff.Prelude.{ℤ, String, Bool, List, ◌==◌, ◌&&◌}
use durable_agent_handoff.Types.Enums.{Sandbox}

pub record RuntimeSpec : Type 0 where
  pub name : String
  pub executable : String
  pub model : String
  pub effort : String
  pub sandbox : Sandbox
  -- a JSON array, as a text
  pub arguments : String

pub record NativeSessionIdentity : Type 0 where
  pub runtime : String
  pub id : String

abbrev pub native_eq : NativeSessionIdentity → NativeSessionIdentity → Bool
native_eq a b = a.runtime == b.runtime && a.id == b.id

pub record AuthoritySpec : Type 0 where
  pub requested_by : String
  pub human_authorized : Bool
  pub sandbox : Sandbox
  pub allowed_roots : List String

pub record FinalizerSpec : Type 0 where
  pub enabled : Bool
  pub required_checks : List String
  pub require_human : Bool

pub record Budget : Type 0 where
  pub max_task_attempts : ℤ
  pub max_launches : ℤ

pub record WorkSpec : Type 0 where
  pub kind : String
  pub prompt : String
  pub root : String
  pub runtime : RuntimeSpec
  pub fallbacks : List RuntimeSpec
  pub prepare_command : String
