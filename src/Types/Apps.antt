-- ===== src/Types/Apps.antt =====
-- dashboard/src/shared/types.ts: releases, and the state of the applications.
use installer.Common.{Bool, String, Option, List}
use installer.Types.Values.{Json, JsError}
use installer.Types.Charts.{ChartUpdateInfo}

-- The fields of a chart's metadata that the dashboard reads; each may be missing.
pub record Metadata : Type 0 where
  pub name : Option String
  pub version : Option String
  pub app_version : Option String

-- `metadata` is `chart.metadata`, undefined if either is.
pub record Release : Type 0 where
  pub name : String
  pub namespace : String
  pub metadata : Option Metadata
  pub rest : Json
  pub update_info : Option ChartUpdateInfo

pub record AppOverview : Type 0 where
  pub release_name : String
  pub namespace : String
  pub version : String
  pub icon : Option String
  pub status : String
  pub chart : String
  pub chart_metadata : Metadata
  pub update_info : Option ChartUpdateInfo

pub record AppState : Type 0 where
  pub is_fetching : Bool
  pub error : Option JsError
  pub items : List Release
  pub list_overview : Option (List AppOverview)
  pub selected : Option Release
