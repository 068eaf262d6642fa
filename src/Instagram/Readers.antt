-- ===== src/Instagram/Readers.antt =====
-- What the readers of an export take from libraries: encoding/json, x/net/html, net/url, regexp and
-- time. A development that uses them fixes them once, as a record.
use insta_follower_tracker.Prelude.{ℕ, Bool, List, Option}
use insta_follower_tracker.Prelude.Text.{Text}
use insta_follower_tracker.Store.Models.{ListKind}
use insta_follower_tracker.Instagram.Followers.{Entry}

pub record Attribute : Type 0 where
  pub key : Text
  pub val : Text

mutual
  -- A node of a parsed page: an element, or any other node, with its children.
  pub data Node : Type 0 where
    element : Text → List Attribute → Children → Node
    other : Children → Node

  pub data Children : Type 0 where
    none_left : Children
    child : Node → Children → Children

pub record Url : Type 0 where
  pub host : Text
  pub path : Text

-- The four groups of declaredRangePattern: two dates, each with its time of day.
pub record Banner : Type 0 where
  pub from_date : Text
  pub from_clock : Text
  pub to_date : Text
  pub to_clock : Text

pub record Readers : Type 0 where
  -- json.Unmarshal into []entry, and into a map of raw messages.
  pub decode_entries : Text → Option (List Entry)
  pub decode_object : Text → Option (List (Text × Text))
  -- html.Parse and url.Parse.
  pub parse_page : Text → Option Node
  pub parse_url : Text → Option Url
  -- The patterns of the list table, and startHerePattern.
  pub matches : ListKind → Text → Bool
  pub is_start_here : Text → Bool
  -- scriptStylePattern, tagPattern and whitespacePattern, replaced by a space.
  pub strip_scripts : Text → Text
  pub strip_tags : Text → Text
  pub squeeze : Text → Text
  -- declaredRangePattern, generatedAtPattern and ownerPattern.
  pub declared_range : Text → Option Banner
  pub generated_at : Text → Option (Text × Text)
  pub owner_name : Text → Option Text
  -- time.Parse, with the layout first; seconds since 1970.
  pub parse_time : Text → Text → Option ℕ
