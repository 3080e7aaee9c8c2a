-- ===== src/Document.antt =====
-- src/internal.h and src/document.c: the token array of a parsed document, and its readers.
pub mod Access
pub mod Integers
use maelys_json.Base.{
  ℕ, zero, suc, ◌+◌, Bool, true, false, List, [], ◌∷◌, Option, none, some, Bytes, get_or, length,
  ltb, leb, Outcome, ok, err, ◌>>=◌, if◌then◌else◌,
}
use maelys_json.Types.{
  Error, Profile, Kind, none_kind, object, array, string, number, boolean, null, argument, type,
  size_max,
}

-- `maelys_json_links_t`; MAELYS_JSON_VALUE_NONE is `none`.
pub record Links : Type 0 where
  pub parent : Option ℕ
  pub first_child : Option ℕ
  pub last_child : Option ℕ
  pub next_sibling : Option ℕ
  pub child_count : ℕ

-- `maelys_json_token_t`. The text of a string or a number stands in the token; in the program it
-- is a pointer into the arena and a size. It is `none` where the pointer is null.
pub record Token : Type 0 where
  pub links : Links
  pub kind : Kind
  pub start : ℕ
  pub end : ℕ
  pub text : Option Bytes
  pub children_offset : ℕ
  pub object_key : Bool
  pub boolean_value : Bool
  pub superseded : Bool

-- `struct maelys_json_document`, its used tokens as a list.
pub record Document : Type 0 where
  pub profile : Profile
  pub bytes : Bytes
  pub tokens : List Token
  pub token_capacity : ℕ
  pub arena_used : ℕ
  pub arena_capacity : ℕ
  pub children : List ℕ
  pub duplicate_count : ℕ
