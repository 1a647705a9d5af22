-- ===== src/Operator/Model.antt =====
-- The catalog model of operator-registry (alpha/model), with the fields that the program reads, and
-- the functions of that project as parameters.
use oc_mirror.Base.{String, Result}
use oc_mirror.Base.GoMap.{Map}

pub record Bundle (V : Type 0) : Type 0 where
  pub name : String
  pub version : V

pub record Channel (V : Type 0) : Type 0 where
  pub name : String
  pub bundles : Map String (Bundle V)

pub record Package (V : Type 0) : Type 0 where
  pub name : String
  pub channels : Map String (Channel V)

pub data ModelError : Type 0 where
  conversion_failed no_head : ModelError

-- `declcfg.ConvertToModel`, over the type of declarative configurations, and `Channel.Head`.
pub record Registry (V D : Type 0) : Type 0 where
  pub convert_to_model : D → Result ModelError (Map String (Package V))
  pub head : Channel V → Result ModelError (Bundle V)
