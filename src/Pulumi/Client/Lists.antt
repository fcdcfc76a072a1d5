-- ===== src/Pulumi/Client/Lists.antt =====
-- `decodeList` of client.go: an array, or an object with the array as its `items`.
use nobus_csi.Common.{List, [], Option, none, some}
use nobus_csi.Cloud.Errors.{Sentinel, Result, ok, err, wrap, sentinel}
use nobus_csi.Pulumi.Client.Shapes.{
  Items, blank, array, undecodable, missing_items, null_items, wrapped_items, other_value,
}

module _ {A : Type 0} where
  -- An error of the JSON decoder wraps none of the sentinels.
  decoded_items : Option (List A) → Result (List A)
  decoded_items none = err (wrap [])
  decoded_items (some items) = ok items

  unfoldable pub decode_list : Items A → Result (List A)
  unfolding decoded_items
  decode_list blank = ok []
  decode_list (array items) = decoded_items items
  decode_list undecodable = err (wrap [])
  decode_list missing_items = err (sentinel Sentinel.invalid)
  decode_list null_items = ok []
  decode_list (wrapped_items items) = decoded_items items
  decode_list other_value = err (sentinel Sentinel.invalid)
