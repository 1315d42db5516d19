-- ===== src/Compaction/Checkpoint.antt =====
-- The checkpoint a compaction leaves on disk (src/compaction/checkpoint.ts).
use llamacli.Prelude.{List, Option, Text}

pub data Reason : Type 0 where
  auto_threshold manual plan_progress : Reason

pub data StepStatus : Type 0 where
  done in_progress todo : StepStatus

pub record PlanStep : Type 0 where
  pub description : Text
  pub status : StepStatus

pub data FileStatus : Type 0 where
  modified read : FileStatus

pub record FileEntry : Type 0 where
  pub path : Text
  pub status : FileStatus

pub record PendingCall : Type 0 where
  pub name : Text
  pub arguments_json : Text
  pub reason : Text

pub record Checkpoint : Type 0 where
  pub timestamp : Text
  pub reason : Reason
  pub goal : Text
  pub steps : List PlanStep
  pub files : List FileEntry
  pub pending_tool_call : Option PendingCall
  pub must_preserve : List Text
  pub summary : Option Text
  pub recent_actions : List Text
