-- ===== src/Protocol/Body.antt =====
-- pkg/protocol/body.go: reading a structured body value in either of its two wire shapes.
use parallel_consciousness.Prelude.{String, Option, none, some, List, [], ◌∷◌}
use parallel_consciousness.Dict.{Dict, insert}
use parallel_consciousness.Protocol.{
  Value, text, text_map, text_list, any_map, any_list, Fields, end, field, Items, nil, cons,
}

-- The loop of `Versions`: a value that is no string is skipped.
unfoldable pub fields_texts : Fields → Dict String
fields_texts end = []
fields_texts (field k (text s) fs) = insert k s (fields_texts fs)
fields_texts (field k _ fs) = fields_texts fs

-- `Versions`; `none` is the nil map.
unfoldable pub versions : Option Value → Option (Dict String)
unfolding fields_texts
versions (some (text_map m)) = some m
versions (some (any_map fs)) = some (fields_texts fs)
versions _ = none

-- The loop of `Strings`.
unfoldable pub items_texts : Items → List String
items_texts nil = []
items_texts (cons (text s) xs) = s ∷ items_texts xs
items_texts (cons _ xs) = items_texts xs

-- `Strings`; `none` is the nil slice.
unfoldable pub strings : Option Value → Option (List String)
unfolding items_texts
strings (some (text_list l)) = some l
strings (some (any_list xs)) = some (items_texts xs)
strings _ = none
