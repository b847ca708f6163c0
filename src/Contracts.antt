-- ===== src/Contracts.antt =====
-- harness/models/intent.py: what the user asked for, as contracts that the run must deliver. The id
-- that an empty `contract_id` is replaced by is a hash, and contracts stand here with their ids.
use jagent.Base.{String}
use jagent.Values.{Fields}

pub data DeliverySource : Type 0 where
  caller extracted : DeliverySource

pub record DeliveryContract : Type 0 where
  pub contract_id : String
  pub source : DeliverySource
  pub tool : String
  pub input : Fields
