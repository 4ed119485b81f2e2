-- ===== src/Protocol/Events.antt =====
-- The events that a transaction emits (`abcitypes.Event`). A formatted value keeps what was
-- formatted: `%d` of an integer, `%x` of bytes.
use community.Base.{Bool, List}
use community.Data.Bytes.{Bytes}
use community.Data.Int64.{ℤ}

pub data AttributeValue : Type 0 where
  text : Bytes → AttributeValue
  dec : ℤ → AttributeValue
  hex : Bytes → AttributeValue
  joined : List Bytes → AttributeValue

pub record EventAttribute : Type 0 where
  pub key : Bytes
  pub value : AttributeValue
  pub index : Bool

pub record Event : Type 0 where
  pub type : Bytes
  pub attributes : List EventAttribute

abbrev pub attribute : Bytes → AttributeValue → Bool → EventAttribute
attribute k v i = record { key = k; value = v; index = i }

abbrev pub event : Bytes → List EventAttribute → Event
event t attrs = record { type = t; attributes = attrs }
