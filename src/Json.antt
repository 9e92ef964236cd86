-- ===== src/Json.antt =====
-- serde_json::Value, as far as crates/budu-rules/src/ruleset.rs looks at it. A number is the text
-- that it prints as.
use budu_waf.Prelude.{Bool, Text}

mutual
  pub data Json : Type 0 where
    null : Json
    bool : Bool → Json
    number : Text → Json
    string : Text → Json
    array : Items → Json
    object : Members → Json

  pub data Items : Type 0 where
    nil : Items
    cons : Json → Items → Items

  pub data Members : Type 0 where
    end : Members
    member : Text → Json → Members → Members
