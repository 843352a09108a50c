-- ===== src/Examples/Deletions.antt =====
-- Deleting an object, and the rounds of `PutObject`.
use shardstore.Common.{◌≡◌, arith}
use shardstore.Errors.{ok, err, object_not_found}
use shardstore.Storage.Mem.{MemStore, new_mem_store, mem_store}
use shardstore.Storage.Mem.Laws.{mem_store-IsShardStore}
use shardstore.Storage.Mem.Unique.{delete_object-calls}
use shardstore.Storage.Object.{delete_object, get_object}
use shardstore.Storage.ShardStore.Calls.{calls}
use shardstore.Storage.Recovery.Deleting.{IsGone}
use shardstore.Storage.Recovery.Putting.{store_of}
use shardstore.Examples.Parity.{new_parity}
use shardstore.Examples.Files.{keep, first_id, some_calls}

delete_object-calls_example :
    (s' : MemStore) × ((delete_object
          (mem_store keep)
          (calls (mem_store keep) new_mem_store some_calls).1
          first_id
        ≡ (ok tt, s'))
      × ((get_object (mem_store keep) new_parity (store_of 2 1 4) s' first_id
            ≡ err object_not_found)
          × IsGone keep
              (mem_store keep)
              (mem_store-IsShardStore keep)
              first_id
              (calls (mem_store keep) new_mem_store some_calls).1
              s'))
delete_object-calls_example =
    delete_object-calls keep new_parity (store_of 2 1 4) some_calls first_id (omega arith)
