-- ===== src/Proto/Json.antt =====
-- `serde_json::Value`, and its canonical text in nod-proto/src/value_signing.rs.
use Prim.Native.String.{◌++◌}
use nod.Base.{
  ℕ, String, Bool, not, List, [], ◌∷◌, Option, none, some, ltb, every_char, sort_by, text_lt,
  if◌then◌else◌, map,
}
use nod.Base.Tried.{Tried, done, failed, ◌>>=◌, ◌>>◌, fail_if, map_failed}

pub data Number : Type 0 where
  unsigned negative : ℕ → Number
  floating : String → Number

mutual
  pub data Json : Type 0 where
    null : Json
    bool : Bool → Json
    number : Number → Json
    string : String → Json
    array : Items → Json
    object : Members → Json

  pub data Items : Type 0 where
    nil : Items
    item : Json → Items → Items

  pub data Members : Type 0 where
    end : Members
    member : String → Json → Members → Members

abbrev pub items_of : List Json → Items
items_of [] = nil
items_of (j ∷ js) = item j (items_of js)

abbrev pub members_of : List (String × Json) → Members
members_of [] = end
members_of ((k, j) ∷ ms) = member k j (members_of ms)

abbrev pub option_json : Option String → Json
option_json none = null
option_json (some s) = string s

-- `str::is_ascii`.
abbrev is_ascii : String → Bool
is_ascii key = every_char (λ c. ltb c 128) key

abbrev is_floating : Number → Bool
is_floating (floating n) = Bool.true
is_floating _ = Bool.false

module _ (json_text : Json → Tried String String) where
  abbrev scalar : Json → Tried String String
  scalar j = map_failed (λ e. "invalid canonical value") (json_text j)

  joined_items : List (Tried String String) → Tried String String
  joined_items [] = done ""
  joined_items (t ∷ []) = t
  joined_items (t ∷ u ∷ ts) = do text ← t; rest ← joined_items (u ∷ ts); done (text ++ "," ++ rest)

  member_text : String × Tried String String → Tried String String
  member_text (key, value) = do
    fail_if (not (is_ascii key)) "non-ASCII canonical member key"
    name ← map_failed (λ e. "invalid key") (json_text (string key))
    text ← value
    done (name ++ ":" ++ text)

  mutual
    -- The texts of members stand beside their keys until they are in order.
    write : Json → Tried String String
    write (object ms) = do
      text ← joined_items (
          map member_text
            (sort_by (λ (a b : String × Tried String String). text_lt a.0 b.0) (write_members ms)))
      done ("{" ++ text ++ "}")
    write (array js) = do text ← joined_items (write_items js); done ("[" ++ text ++ "]")
    write (number n) =
        if is_floating n then failed "floating canonical number" else scalar (number n)
    write null = scalar null
    write (bool b) = scalar (bool b)
    write (string s) = scalar (string s)

    write_items : Items → List (Tried String String)
    write_items nil = []
    write_items (item j js) = write j ∷ write_items js

    write_members : Members → List (String × Tried String String)
    write_members end = []
    write_members (member k j ms) = (k, write j) ∷ write_members ms

  unfoldable pub canonical_value_json : Json → Tried String String
  unfolding write write_items write_members joined_items member_text
  canonical_value_json value = write value
