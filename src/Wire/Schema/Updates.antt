-- ===== src/Wire/Schema/Updates.antt =====
-- The lists of a watch update, as the setters of src/wire/encode.rs fill them and
-- src/wire/decode.rs reads them.
use uniproc_windows_agent.Base.{ℕ, List}
use uniproc_windows_agent.Wire.Outcome.{Pointer, Wire}
use uniproc_windows_agent.Wire.Schema.Lists.{
  ProcessInfoMessage, ProcessStateMessage, ServiceStatsMessage,
}

-- The deltas of the passports and of the states have the same fields.
pub record DeltaMessage (M : Type 0) : Type 0 where
  pub base_etag : ℕ
  pub left : Pointer (List ℕ)
  pub upserted : Pointer (List M)

pub data ListForm (M : Type 0) : Type 0 where
  unchanged : ListForm M
  full : Pointer (List M) → ListForm M
  delta : Pointer (DeltaMessage M) → ListForm M

pub data ServicesForm : Type 0 where
  unchanged : ServicesForm
  full : Pointer (List ServiceStatsMessage) → ServicesForm

pub record ListsUpdateMessage : Type 0 where
  pub passport_etag : ℕ
  pub passports : Wire (ListForm ProcessInfoMessage)
  pub states_etag : ℕ
  pub states : Wire (ListForm ProcessStateMessage)
  pub services_etag : ℕ
  pub services : Wire ServicesForm
