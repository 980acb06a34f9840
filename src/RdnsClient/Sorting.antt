-- ===== src/RdnsClient/Sorting.antt =====
-- sort.Strings and reflect.DeepEqual, as client/rdns_client.go uses them.
use rdns_server.Base.{
  Bool, true, false, ◌&&◌, ◌||◌, ◌==◌, List, [], ◌∷◌, Option, none, some, Bytes, same, ltb, length,
  if◌then◌else◌,
}

-- s <= t, byte by byte.
unfoldable pub at_most : Bytes → Bytes → Bool
at_most [] t = true
at_most (x ∷ s) [] = false
at_most (x ∷ s) (y ∷ t) = let rest = at_most s t in ltb x y || ((x == y) && rest)

unfoldable pub insert_sorted : Bytes → List Bytes → List Bytes
unfolding at_most
insert_sorted x [] = x ∷ []
insert_sorted x (y ∷ ys) =
    let rest = insert_sorted x ys in if at_most x y then x ∷ y ∷ ys else y ∷ rest

unfoldable pub sort : List Bytes → List Bytes
unfolding insert_sorted
sort [] = []
sort (x ∷ xs) = insert_sorted x (sort xs)

-- Sorting leaves a nil slice nil.
unfoldable pub sorted : Option (List Bytes) → Option (List Bytes)
unfolding sort
sorted none = none
sorted (some xs) = some (sort xs)

unfoldable pub same_list : List Bytes → List Bytes → Bool
same_list [] [] = true
same_list (x ∷ xs) (y ∷ ys) = same x y && same_list xs ys
same_list _ _ = false

-- A nil slice differs from an empty one.
unfoldable pub deep_equal_hosts : Option (List Bytes) → Option (List Bytes) → Bool
unfolding same_list
deep_equal_hosts none none = true
deep_equal_hosts (some xs) (some ys) = same_list xs ys
deep_equal_hosts _ _ = false

-- The entry of a key, which is a value or missing.
unfoldable pub entry : Bytes → List (Bytes × Option (List Bytes)) → Option (Option (List Bytes))
entry k [] = none
entry k ((j, v) ∷ m) = if same j k then some v else entry k m

unfoldable pub same_entry : Option (List Bytes) → Option (Option (List Bytes)) → Bool
unfolding deep_equal_hosts
same_entry v none = false
same_entry v (some u) = deep_equal_hosts v u

unfoldable pub all_entries :
    List (Bytes × Option (List Bytes)) → List (Bytes × Option (List Bytes)) → Bool
unfolding entry same_entry
all_entries [] m = true
all_entries ((k, v) ∷ es) m = same_entry v (entry k m) && all_entries es m

-- Maps with the same keys and deeply equal values, each key once in either; nil differs from empty.
unfoldable pub deep_equal_map :
    Option (List (Bytes × Option (List Bytes))) → Option (List (Bytes × Option (List Bytes))) → Bool
unfolding all_entries
deep_equal_map none none = true
deep_equal_map (some m) (some n) = (length m == length n) && all_entries m n
deep_equal_map _ _ = false
