-- ===== src/Protocol/Wire.antt =====
-- What a transport does to a message body, and that the readers of pkg/protocol/body.go undo it. The
-- in-memory bus passes values on; the SQLite bus writes and reads them with encoding/json, which is
-- a parameter here.
use mathlib.Core.Option
use parallel_consciousness.Prelude.{String, ◌≡◌, refl, ap, Bool, some, List, [], ◌∷◌, arith, get_or}
use parallel_consciousness.Dict.{Dict, lookup, insert, copy_map, lookup-copy_map}
use parallel_consciousness.Protocol.{
  Value, text, flag, text_map, text_list, any_map, any_list, Fields, end, field, Items, nil, cons,
  Body, Message,
}
use parallel_consciousness.Protocol.Body.{versions, strings, fields_texts, items_texts}

-- A map[string]any, and a []any, whose elements are strings.
abbrev pub texts : Dict String → Fields
texts [] = end
texts ((k, v) ∷ m) = field k (text v) (texts m)

abbrev pub text_items : List String → Items
text_items [] = nil
text_items (s ∷ l) = cons (text s) (text_items l)

-- What encoding/json documents for a value that is marshalled, and unmarshalled into `any`: strings
-- and booleans come back, a map comes back as map[string]any and a slice as []any, element by element.
pub record Json : Type 0 where
  pub wire : Value → Value
  pub wire_text : (s : String) → wire (text s) ≡ text s
  pub wire_flag : (b : Bool) → wire (flag b) ≡ flag b
  pub wire_map : (m : Dict String) → wire (text_map m) ≡ any_map (texts m)
  pub wire_list : (l : List String) → wire (text_list l) ≡ any_list (text_items l)

-- A body, and a message, value by value.
unfoldable pub map_values : (Value → Value) → Body → Body
map_values f [] = []
map_values f ((k, v) ∷ b) = (k, f v) ∷ map_values f b

unfoldable pub carry : (Value → Value) → Message → Message
carry f m = record m { body = map_values f m.body }

pub lookup-map_values :
    (f : Value → Value) (k : String) (b : Body)
    → lookup k (map_values f b) ≡ Option.map f (lookup k b)
unfolding lookup map_values
lookup-map_values f k [] = refl
lookup-map_values f k ((j, v) ∷ b) = ground (arith, lookup-map_values f k b)

fields_texts-texts : (m : Dict String) → fields_texts (texts m) ≡ copy_map m
unfolding fields_texts copy_map
fields_texts-texts [] = refl
fields_texts-texts ((k, v) ∷ m) = ap (insert k v) (fields_texts-texts m)

items_texts-text_items : (l : List String) → items_texts (text_items l) ≡ l
unfolding items_texts
items_texts-text_items [] = refl
items_texts-text_items (s ∷ l) = ap (◌∷◌ s) (items_texts-text_items l)

module _ (j : Json) where
  -- Either transport gives a version map back: `Versions` reads the same version for every
  -- participant, whether the map was passed on or went through JSON.
  pub versions-wire :
      (m : Dict String) (p : String)
      → (lookup p (get_or (versions (some (text_map m))) []) ≡ lookup p m)
        × (lookup p (get_or (versions (some (j.wire (text_map m)))) []) ≡ lookup p m)
  unfolding versions
  versions-wire m p = (refl, rw (j.wire_map m, fields_texts-texts m) (lookup-copy_map p m))

  -- Either transport gives a string list back, in order.
  pub strings-wire :
      (l : List String)
      → (strings (some (text_list l)) ≡ some l) × (strings (some (j.wire (text_list l))) ≡ some l)
  unfolding strings
  strings-wire l = (refl, rw (j.wire_list l, items_texts-text_items l))
