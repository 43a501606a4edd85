-- ===== src/Types/Kube.antt =====
-- dashboard/src/shared/types.ts: Kubernetes objects and references to them (ResourceRef.ts).
use installer.Common.{ℕ, Bool, String, Option, List}
use installer.Common.Dict.{Dict}
use installer.Types.Values.{Json, JsError}

-- `selfLink` is not sent by every API server.
pub record ResourceMetadata : Type 0 where
  pub name : String
  pub namespace : String
  pub uid : String
  pub self_link : Option String
  pub rest : Json

pub record Resource : Type 0 where
  pub api_version : String
  pub kind : String
  pub metadata : ResourceMetadata
  pub rest : Json

pub record Secret : Type 0 where
  pub metadata : ResourceMetadata
  pub rest : Json

-- `IResource | IK8sList<IResource, {}>`: `items` is defined for a list, and `rest` holds the other
-- fields, as they came.
pub record KubeObject : Type 0 where
  pub rest : Json
  pub items : Option (List Resource)

pub record KubeItem : Type 0 where
  pub is_fetching : Bool
  pub item : Option KubeObject
  pub error : Option JsError

pub record Kind : Type 0 where
  pub api_version : String
  pub plural : String
  pub namespaced : Bool

-- The fields of a `ResourceRef`.
pub record ResourceRef : Type 0 where
  pub cluster : String
  pub api_version : String
  pub kind : String
  pub plural : String
  pub namespaced : Bool
  pub name : String
  pub namespace : String
  pub filter : Json

-- The functions that the dashboard hands to a socket or a timer, each closed over a reference:
-- the two listeners and the poll of `getAndWatchResource`.
pub data Callback : Type 0 where
  on_message on_error poll : ResourceRef → Callback

-- A socket is the number under which the browser opened it, with its error listener.
pub record Watch : Type 0 where
  pub socket : ℕ
  pub on_error : Callback

pub record KubeState : Type 0 where
  pub items : Dict KubeItem
  pub sockets : Dict Watch
  pub kinds : Dict Kind
  pub kinds_error : Option JsError
  pub timers : Dict (Option ℕ)

-- `IClusterServiceVersionCRD`: what is read of it.
pub record CustomDefinition : Type 0 where
  pub name : String
  pub version : String
  pub kind : String

-- `IClusterServiceVersion`: the resource, and `spec.customresourcedefinitions.owned`.
pub record ClusterServiceVersion : Type 0 where
  pub resource : Resource
  pub owned : Option (List CustomDefinition)

-- A resource type that the API server lists.
pub record ApiResource : Type 0 where
  pub name : String
  pub kind : String
  pub namespaced : Bool
