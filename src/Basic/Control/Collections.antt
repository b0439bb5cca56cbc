-- ===== src/Basic/Control/Collections.antt =====
-- The commands of lib/basic.cpp on named maps and queues.
use ax25toolkit.Base.{List, [], ◌∷◌, Bytes, Option, none, some, map, drop}
use ax25toolkit.Base.Text.{bytes_lt}
use ax25toolkit.Base.Dict.{lookup, insert, erase}
use ax25toolkit.Basic.{Floats, Value, str, to_str, Interp}
use ax25toolkit.Basic.Lexer.{skip_ws, eat_ch, next_tok}
use ax25toolkit.Basic.Vars.{
  Dict, find, put, remove, dict_of, items_of, unset, first_of, set_var, map_set, map_clear,
  queue_push, queue_clear,
}
use ax25toolkit.Basic.Scan.{text_of}
use ax25toolkit.Basic.Eval.Steps.{Run, ◌>>=◌, ◌>>◌, give, change, eat, token}
use ax25toolkit.Basic.Eval.Builtins.{joined}
use ax25toolkit.Basic.Eval.Primary.{touch_map}
use ax25toolkit.Basic.Control.{Jump, advance}

-- `erase` on a map that is there.
abbrev pub map_erase : {F : Floats} → Bytes → Bytes → Option (Dict (Value F)) → Interp F → Interp F
map_erase name key none s = s
map_erase name key (some m) s = record s { maps = put name (remove key m) s.maps }

-- `queues_[name]` makes a queue where there is none.
unfoldable pub touch_queue : {F : Floats} → Bytes → Interp F → Interp F
unfolding lookup insert bytes_lt
touch_queue name s = record s { queues = put name (items_of (find name s.queues)) s.queues }

-- The front of a queue, or the default of the variable that gets it.
abbrev pub front_of : {F : Floats} → Bytes → List (Value F) → Value F
front_of var [] = unset var
front_of var (v ∷ vs) = v

unfoldable pub pop_into : {F : Floats} → Bytes → Bytes → Interp F → Interp F
unfolding lookup insert bytes_lt unset set_var
pop_into name var s =
    let items = items_of (find name s.queues) in
    set_var var (front_of var items) (record s { queues = put name (drop 1 items) s.queues })

unfoldable pub peek_into : {F : Floats} → Bytes → Bytes → Interp F → Interp F
unfolding touch_queue lookup bytes_lt unset set_var
peek_into name var s =
    set_var var (front_of var (items_of (find name s.queues))) (touch_queue name s)

unfoldable pub get_into : {F : Floats} → Bytes → Bytes → Bytes → Interp F → Interp F
unfolding touch_map lookup bytes_lt unset set_var
get_into name key var s =
    set_var var (first_of (find key (dict_of (find name s.maps))) (unset var)) (touch_map name s)

unfoldable pub keys_into : {F : Floats} → Bytes → Bytes → Interp F → Interp F
unfolding lookup bytes_lt joined set_var
keys_into name var s =
    set_var var (str (joined (b',' ∷ []) (map (λ e. e.0) (dict_of (find name s.maps))))) s

module _ {F : Floats} (expr : Run F (Value F)) where
  unfoldable pub cmd_map_set : Run F Jump
  unfolding eat_ch skip_ws to_str map_set
  cmd_map_set = do
    name ← expr
    eat b','
    key ← expr
    eat b','
    v ← expr
    change (map_set (to_str name) (to_str key) v)
    give advance

  unfoldable pub cmd_map_get : Run F Jump
  unfolding eat_ch skip_ws next_tok to_str get_into
  cmd_map_get = do
    name ← expr
    eat b','
    key ← expr
    eat b','
    var ← token
    change (get_into (to_str name) (to_str key) (text_of var))
    give advance

  unfoldable pub cmd_map_del : Run F Jump
  unfolding eat_ch skip_ws to_str lookup insert erase bytes_lt
  cmd_map_del = do
    name ← expr
    eat b','
    key ← expr
    change (λ s. map_erase (to_str name) (to_str key) (find (to_str name) s.maps) s)
    give advance

  unfoldable pub cmd_map_keys : Run F Jump
  unfolding eat_ch skip_ws next_tok to_str keys_into
  cmd_map_keys = do
    name ← expr
    eat b','
    var ← token
    change (keys_into (to_str name) (text_of var))
    give advance

  unfoldable pub cmd_map_clear : Run F Jump
  unfolding to_str map_clear
  cmd_map_clear = do name ← expr; change (map_clear (to_str name)); give advance

  unfoldable pub cmd_queue_push : Run F Jump
  unfolding eat_ch skip_ws to_str queue_push
  cmd_queue_push = do
    name ← expr
    eat b','
    v ← expr
    change (queue_push (to_str name) v)
    give advance

  unfoldable pub cmd_queue_pop : Run F Jump
  unfolding eat_ch skip_ws next_tok to_str pop_into
  cmd_queue_pop = do
    name ← expr
    eat b','
    var ← token
    change (pop_into (to_str name) (text_of var))
    give advance

  unfoldable pub cmd_queue_peek : Run F Jump
  unfolding eat_ch skip_ws next_tok to_str peek_into
  cmd_queue_peek = do
    name ← expr
    eat b','
    var ← token
    change (peek_into (to_str name) (text_of var))
    give advance

  unfoldable pub cmd_queue_clear : Run F Jump
  unfolding to_str queue_clear
  cmd_queue_clear = do name ← expr; change (queue_clear (to_str name)); give advance
