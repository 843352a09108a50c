-- ===== src/Storage/ShardStore/Calls.antt =====
-- Sequences of calls on a `ShardStore` of internal/storage/store.go.
use shardstore.Common.{Bytes, List, [], ◌∷◌}
use shardstore.Errors.{Result}
use shardstore.Storage.Header.{ShardKey, ShardHeader, ObjectMeta}
use shardstore.Storage.ShardStore.{ShardStore}

-- A call of a method that changes the store.
pub data Call : Type 0 where
  put : ShardKey → ShardHeader → Bytes → Call
  delete : ShardKey → Call
  write : Bytes → ObjectMeta → Call
  remove : Bytes → Call

module _ {S : Type 0} (st : ShardStore S) where
  abbrev pub call : S → Call → Result (Unit {0}) × S
  call s (put k h d) = st.put_shard s k h d
  call s (delete k) = st.delete_shard s k
  call s (write id meta) = st.write_marker s id meta
  call s (remove id) = st.remove_marker s id

  -- The calls one after the other: their results, and the store after them.
  unfoldable pub calls : S → List Call → List (Result (Unit {0})) × S
  calls s [] = ([], s)
  calls s (c ∷ cs) = ((call s c).0 ∷ (calls (call s c).1 cs).0, (calls (call s c).1 cs).1)
