-- ===== src/Consensus/EventHash.antt =====
-- `sortObject` and `consensusEventHash` of tools/msa-adjudication-workbench/src/consensus.js. The
-- SHA-256 digest of a text's UTF-8 bytes, in hexadecimal, is the platform's and a parameter.
use Prim.Native.Nat.{Ordering}
use Prim.Native.String.{compare}
use adg_lang.Common.{Bool, true, false, String, if◌then◌else◌}
use adg_lang.Js.{
  Value, undefined, null, bool, num, str, arr, obj, Items, nil, cons, Props, end, prop,
}
use adg_lang.Js.Text.{stringify}

abbrev is_before : String → String → Bool
is_before s t = elim (compare s t) [ Ordering.lt ↦ true | _ ↦ false ]

-- Insertion of a key into properties that are sorted; the keys of an object are all different.
unfoldable pub insert_sorted : String → Value → Props → Props
insert_sorted k v end = prop k v end
insert_sorted k v (prop j w ps) =
    if is_before k j then prop k v (prop j w ps) else prop j w (insert_sorted k v ps)

unfoldable mutual
  unfolding insert_sorted

  pub sort_object : Value → Value
  sort_object undefined = undefined
  sort_object null = null
  sort_object (bool b) = bool b
  sort_object (num n) = num n
  sort_object (str s) = str s
  sort_object (arr vs) = arr (sort_items vs)
  sort_object (obj ps) = obj (sort_props ps)

  sort_items : Items → Items
  sort_items nil = nil
  sort_items (cons v vs) = cons (sort_object v) (sort_items vs)

  sort_props : Props → Props
  sort_props end = end
  sort_props (prop k v ps) = insert_sorted k (sort_object v) (sort_props ps)

module _ (digest : String → String) where
  pub consensus_event_hash : Value → String
  consensus_event_hash event = digest (stringify (sort_object event))
