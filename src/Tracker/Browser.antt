-- ===== src/Tracker/Browser.antt =====
-- What the tracker reads of the browser: the globals at the moment of a call. They are not code of
-- the repository, so every handler takes them as an argument.
use webalytics.Common.{ℕ, String, Bool, Option}

pub record Size : Type 0 where
  pub w : ℕ
  pub h : ℕ

pub record Location : Type 0 where
  pub pathname : String
  pub search : String
  pub href : String
  pub host : String

pub record Document : Type 0 where
  pub referrer : String
  pub title : String

-- `global_privacy_control` is whether the property is `true`.
pub record Navigator : Type 0 where
  pub language : String
  pub global_privacy_control : Bool
  pub do_not_track : Option String
  pub ms_do_not_track : Option String

pub record Window : Type 0 where
  pub screen : Option Size
  pub inner_width : ℕ
  pub inner_height : ℕ

pub record Url : Type 0 where
  pub host : String
  pub href : String

-- A missing global is `none`. `new_url` is `new URL(href, base)`, `none` where that throws.
pub record Globals : Type 0 where
  pub location : Option Location
  pub document : Option Document
  pub navigator : Option Navigator
  pub window : Option Window
  pub now : ℕ
  pub new_url : String → String → Option Url
