-- ===== src/Prelude/Json.antt =====
-- The structured values that the program stores and hands on without looking inside.
use Prim.Native.String.{String}
use mathlib.Core.Bool.{Bool, false}
use mathlib.Core.Option.{Option, none, some}
use orxtra.Prelude.Tests.{◌==◌, string_eq, if◌then◌else◌}

mutual
  -- A number stands as its literal.
  pub data Json : Type 0 where
    null : Json
    boolean : Bool → Json
    number : String → Json
    text : String → Json
    array : Items → Json
    object : Members → Json

  pub data Items : Type 0 where
    nil : Items
    cons : Json → Items → Items

  pub data Members : Type 0 where
    end : Members
    member : String → Json → Members → Members

abbrev pub empty_object : Json
empty_object = object end

-- `value or {}` on an optional dict.
abbrev pub or_empty : Option Json → Json
or_empty none = empty_object
or_empty (some j) = j

-- d.get(key) on the members of an object. The parser of the text keeps one member for each key.
unfoldable pub member_of : (key : String) → Members → Option Json
member_of key end = none
member_of key (member name value rest) = if name == key then some value else member_of key rest

-- A value that is not an object has no members.
unfoldable pub lookup : (key : String) → Json → Option Json
unfolding member_of
lookup key (object members) = member_of key members
lookup key _ = none

-- `x is None` for what `dict.get` returns.
unfoldable pub not_null : Option Json → Option Json
not_null (some null) = none
not_null found = found

-- value == text
unfoldable pub is_text : (value : Json) (s : String) → Bool
is_text (text t) s = t == s
is_text _ s = false
