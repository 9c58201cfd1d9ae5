-- ===== src/Queue/Collect/Together.antt =====
-- collect_synced.py and collect_any.py: the reader is given one token that holds a value of every
-- writer, or of every writer that has one.
use calvin_base.Base.{
  ℕ, suc, ◌+◌, ◌-◌, ◌%◌, Bool, true, false, List, [], ◌∷◌, same_set, leb, ◌==◌, if◌then◌else◌, Dict,
  insert, values, Error, queue_empty, illegal_mapping, illegal_order, attribute_error,
  not_implemented, Method, done, ◌>>=◌, ◌>>◌, return, raise, self, put, require, item, elem,
}
use calvin_base.Token.{
  Token, plain, is_exception, Value, Items, nil, cons, dict, list, Fields, field, end, value,
  set_value,
}
use calvin_base.Queue.Common.{PortProperties, synced_type, any_type}
use calvin_base.Queue.Collect.{CollectBase}
use calvin_base.Queue.Collect

-- The two classes.
pub data Kind : Type 0 where
  synced any : Kind

unfoldable pub init : Kind → PortProperties → CollectBase
init synced props = Collect.init synced_type props
init any props = Collect.init any_type props

-- w - t >= length, for one writer.
lane_has : ℕ → ℕ → Method CollectBase Bool
lane_has n writer q =
    (do w ← item q.write_pos writer; t ← item q.tentative_read_pos writer; return (leb (t + n) w)) q

-- Of all writers for CollectSynced, of any for CollectAny.
lanes_have : Kind → ℕ → List ℕ → Method CollectBase Bool
unfolding lane_has
lanes_have synced n [] = return true
lanes_have any n [] = return false
lanes_have synced n (writer ∷ writers) =
    let rest = lanes_have synced n writers in
    lane_has n writer >>= λ b. if b then rest else return false
lanes_have any n (writer ∷ writers) =
    let rest = lanes_have any n writers in
    lane_has n writer >>= λ b. if b then return true else rest

unfoldable pub tokens_available : Kind → ℕ → Method CollectBase Bool
unfolding lanes_have
tokens_available kind n q = if leb q.size n then done false q else lanes_have kind n q.writers q

-- `value[tag] = v` on the collected dictionary.
abbrev pub put_field : ℕ → Value → Fields → Fields
put_field k v end = field k v end
put_field k v (field j w rest) = if j == k then field k v rest else field j w (put_field k v rest)

-- `self.tentative_read_pos[w] -= 1` for the writers before the one with the exception.
pub take_back : List ℕ → ℕ → Method CollectBase (Unit {0})
take_back [] writer q = done tt q
take_back (w ∷ ws) writer q =
    let rest = take_back ws writer in
    if w == writer
    then done tt q
    else (do
      t ← item q.tentative_read_pos w
      put (record q { tentative_read_pos = insert w (t - 1) q.tentative_read_pos })
      rest)
        q

-- What the loop comes to: a token that goes out alone, or the values of the writers.
pub data Found : Type 0 where
  alone : Token → Found
  together : Fields → Found

-- CollectAny passes over a writer that has no token.
abbrev pub skips : Kind → ℕ → ℕ → Bool
skips synced w t = false
skips any w t = w == t

advance : ℕ → ℕ → Method CollectBase (Unit {0})
advance writer t q =
    done tt (record q { tentative_read_pos = insert writer t q.tentative_read_pos })

pub collect : Kind → List ℕ → Fields → Method CollectBase Found
unfolding advance
collect kind [] fields q = done (together fields) q
collect kind (writer ∷ writers) fields q =
    let go_on = λ (f : Fields). collect kind writers f in
    (do
      w ← item q.write_pos writer
      t ← item q.tentative_read_pos writer
      (if skips kind w t then go_on fields else (do
        buffer ← item q.fifo writer
        token ← elem buffer (t % q.size)
        (if is_exception token
            then (do
              take_back q.writers writer
              tag ← item q.tags writer
              advance writer (t + 1)
              return (alone (set_value token (dict (field tag (value token) end)))))
            else (do
              s ← self
              put (record s { tentative_read_pos = insert writer (t + 1) s.tentative_read_pos })
              tag ← item q.tags writer
              go_on (put_field tag (value token) fields))))))
      q

-- The values sorted by their labels, which are the places in the order.
abbrev pub insert_field : ℕ → Value → Fields → Fields
insert_field k v end = field k v end
insert_field k v (field j w rest) =
    if leb k j then field k v (field j w rest) else field j w (insert_field k v rest)

abbrev pub sort_fields : Fields → Fields
sort_fields end = end
sort_fields (field k v rest) = insert_field k v (sort_fields rest)

abbrev pub field_values : Fields → Items
field_values end = nil
field_values (field k v rest) = cons v (field_values rest)

abbrev finish_any : ℕ → Found → Method CollectBase Token
finish_any reader (alone token) = return token
finish_any reader (together end) = raise (queue_empty reader)
finish_any reader (together (field k v rest)) = return (plain (dict (field k v rest)))

abbrev finish_synced : Bool → Found → Method CollectBase Token
finish_synced ordering (alone token) = return token
finish_synced ordering (together fields) =
    return (plain (if ordering then list (field_values (sort_fields fields)) else dict fields))

unfoldable pub peek : Kind → ℕ → Method CollectBase Token
peek synced reader q =
    (do
      available ← tokens_available synced 1
      require available (queue_empty reader)
      found ← collect synced q.writers end
      finish_synced q.tags_are_ordering found)
      q
peek any reader q = (collect any q.writers end >>= finish_any reader) q

abbrev index_of : ℕ → List ℕ → ℕ
index_of a [] = 0
index_of a (x ∷ xs) = if x == a then 0 else suc (index_of a xs)

-- `{ v: order.index(v) for v in order }`
places : List ℕ → List ℕ → Dict ℕ → Dict ℕ
places order [] acc = acc
places order (v ∷ vs) acc = places order vs (insert v (index_of v order) acc)

unfoldable pub set_port_order : Kind → List ℕ → Method CollectBase (Unit {0})
unfolding places
set_port_order any order = raise not_implemented
set_port_order synced order = do
  q ← self
  require (same_set order q.writers) illegal_order
  put (record q { tags_are_ordering = true; tags = places order order [] })

abbrev inverse : Dict ℕ → Dict ℕ → Dict ℕ
inverse acc [] = acc
inverse acc ((k, v) ∷ d) = inverse (insert v k acc) d

-- CollectAny means to show `self.readers` before it raises, an attribute that it does not have.
abbrev bad_mapping : Kind → Error
bad_mapping synced = illegal_mapping
bad_mapping any = attribute_error

unfoldable pub set_port_mapping : Kind → Dict ℕ → Method CollectBase (Unit {0})
set_port_mapping kind mapping = do
  q ← self
  require (same_set (values mapping) q.writers) (bad_mapping kind)
  put (record q { tags = inverse [] mapping })
