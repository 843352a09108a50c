-- ===== src/Examples/Files.antt =====
-- Shards and markers in a `FileStore`.
use shardstore.Common.{◌≡◌, ◌⊎◌, refl, sym, ap, ◌∙◌, arith, inl, inr, All}
use shardstore.Common.{
  Bytes, List, [], ◌∷◌, ◌++◌, length, replicate, take, pos, le_bytes, add_int, length-append, ◌+◌,
  codes, str_eq, str_eq_iff, true, false,
}
use shardstore.Common.Digits.{format_hex, format_int}
use shardstore.Common.Search.{has_suffix}
use shardstore.Errors.{Error, ok, err}
use shardstore.Storage.Header.{
  ShardKey, ShardHeader, ObjectMeta, shard_magic, shard_header_bytes, encode_shard_header,
  decode_shard_header,
}
use shardstore.Storage.Header.RoundTrip.{IsEncodable}
use shardstore.Storage.Header.Marker.{IsEncodableMeta}
use shardstore.Storage.Header.Prefix.{decode-take}
use shardstore.Storage.Mem.{new_mem_store, mem_store}
use shardstore.Storage.File.{new_file_store, file_store, object_dir}
use shardstore.Storage.File.Names.{
  shard_file_name, parse_shard_file_name, parse-shard_file_name, shard_suffix,
}
use shardstore.Storage.File.Paths.{IsApart, IsKey}
use shardstore.Storage.ShardStore.Calls.{Call, put, delete, write, remove, calls}
use shardstore.Storage.File.Calls.{IsCall, calls-IsConsistent}
use shardstore.Storage.File.Consistency.{IsConsistent}
use shardstore.Storage.File.Torn.{torn_put, load_stripe-torn_put}
use shardstore.Storage.Object.{load_stripe, shard_count}
use shardstore.Storage.Recovery.Load.{reader_at}
use shardstore.Ec.Created.{the_encoder}
use shardstore.Examples.Parity.{parity_scheme, new_parity}
use shardstore.Storage.File.Refinement.{SameReads, calls_lem}

-- A digest of 32 bytes that keeps the first bytes.
abbrev pub keep : Bytes → Bytes
keep d = take 32 (d ++ replicate 32 0)

abbrev pub first_id : Bytes
first_id = codes "b/k"

abbrev pub second_id : Bytes
second_id = codes "b/other"

abbrev pub InUse : Bytes → Type 0
InUse id = (id ≡ first_id) ⊎ (id ≡ second_id)

abbrev pub first_key : ShardKey
first_key = record { object_id = first_id; stripe_idx = 17; shard_idx = 2 }

abbrev pub first_header : ShardHeader
first_header = record {
  object_id = first_id;
  stripe_idx = 17;
  shard_idx = 2;
  data_shards = 2;
  parity_shards = 1;
  stripe_len = pos 8;
  data_len = pos 5;
  checksum = [];
}

abbrev pub first_data : Bytes
first_data = codes "hello"

abbrev pub first_meta : ObjectMeta
first_meta = record {
  size = pos 5;
  stripes = 18;
  params = record { data_shards = pos 2; parity_shards = pos 1 };
}

pub first_key-IsKey : IsKey InUse first_key
first_key-IsKey = record { id = inl refl; stripe = omega arith; shard = omega arith }

directories_differ : str_eq (object_dir keep first_id) (object_dir keep second_id) ≡ false
unfolding object_dir format_hex str_eq
directories_differ = refl

differ : object_dir keep first_id ≡ object_dir keep second_id → first_id ≡ second_id
differ e = absurd (cc ((str_eq_iff _ _).1 e, directories_differ))

pub apart : IsApart keep InUse
apart a b (inl ea) (inl eb) e = ea ∙ sym eb
apart a b (inr ea) (inr eb) e = ea ∙ sym eb
apart a b (inl ea) (inr eb) e =
    ea ∙ (differ (ap (object_dir keep) (sym ea) ∙ (e ∙ ap (object_dir keep) eb)) ∙ sym eb)
apart a b (inr ea) (inl eb) e =
    ea ∙ (sym (differ (ap (object_dir keep) (sym eb) ∙ (sym e ∙ ap (object_dir keep) ea))) ∙ sym eb)

first_header-IsEncodable :
    (sum : Bytes) → length sum ≡ 32 → IsEncodable (record first_header { checksum = sum })
first_header-IsEncodable sum h = record {
  id_pos = omega arith;
  id_le = omega arith;
  stripe_idx = omega arith;
  shard_idx = omega arith;
  data_pos = omega arith;
  data_lt = omega arith;
  parity_pos = omega arith;
  parity_lt = omega arith;
  stripe_len = (omega arith, omega arith);
  data_len = (omega arith, omega arith);
  checksum = h;
}

first_meta-IsEncodableMeta : IsEncodableMeta 2 1 first_meta
first_meta-IsEncodableMeta = record {
  size = (omega arith, omega arith);
  stripes = omega arith;
  params = refl;
  data_lt = omega arith;
  parity_lt = omega arith;
}

-- A shard and a marker are written, another marker is removed, and the shard is deleted twice.
abbrev pub some_calls : List Call
some_calls =
    put first_key first_header first_data
    ∷ write first_id first_meta
    ∷ put first_key first_header []
    ∷ remove second_id
    ∷ delete first_key
    ∷ delete first_key
    ∷ put first_key first_header first_data
    ∷ []

some_calls-IsCall : All (IsCall keep InUse) some_calls
some_calls-IsCall =
    let put_call : IsCall keep InUse (put first_key first_header first_data) =
      (first_key-IsKey, first_header-IsEncodable (keep first_data) refl) in
    (
      put_call,
      (
        (inl refl, (2, (1, first_meta-IsEncodableMeta))),
        (
          (first_key-IsKey, first_header-IsEncodable (keep []) refl),
          (inr refl, (first_key-IsKey, (first_key-IsKey, (put_call, tt)))),
        ),
      ),
    )

calls-IsConsistent_example :
    IsConsistent keep InUse (calls (file_store keep) new_file_store some_calls).1
calls-IsConsistent_example =
    calls-IsConsistent keep InUse some_calls new_file_store some_calls-IsCall tt

calls_lem_example :
    ((calls (file_store keep) new_file_store some_calls).0
      ≡ (calls (mem_store keep) new_mem_store some_calls).0)
    × SameReads keep InUse
        (calls (file_store keep) new_file_store some_calls).1
        (calls (mem_store keep) new_mem_store some_calls).1
calls_lem_example = calls_lem keep InUse some_calls apart some_calls-IsCall

parse-shard_file_name_example :
    (has_suffix (shard_file_name first_key) shard_suffix ≡ true)
    × (parse_shard_file_name (shard_file_name first_key)
        ≡ ok (record { object_id = []; stripe_idx = 17; shard_idx = 2 }))
parse-shard_file_name_example = parse-shard_file_name first_key (omega arith) (omega arith)

first_shard_file_name : shard_file_name first_key ≡ codes "00000011-2.shard"
unfolding shard_file_name format_hex format_int
first_shard_file_name = refl

abbrev written_header : ShardHeader
written_header = record first_header { checksum = keep first_data }

decode-take_example :
    (e : Error) × (decode_shard_header (take 20 (shard_header_bytes written_header)) ≡ err e)
unfolding encode_shard_header shard_header_bytes shard_magic le_bytes
decode-take_example =
    decode-take written_header (shard_header_bytes written_header) 20
      (first_header-IsEncodable (keep first_data) refl) refl (omega arith)

-- Shard 2 of stripe 17 is torn behind two of its five bytes.
load_stripe-torn_put_example :
    (e : Error) × (load_stripe
        (file_store keep)
        (torn_put keep new_file_store first_key
          (shard_header_bytes written_header)
          first_data
          (length (shard_header_bytes written_header) + 2))
        (reader_at 2 1 (the_encoder new_parity 2 1 parity_scheme) first_id 5 18 17 [] 0)
      ≡ err e)
unfolding encode_shard_header shard_count add_int
load_stripe-torn_put_example =
    load_stripe-torn_put keep new_file_store
      (reader_at 2 1 (the_encoder new_parity 2 1 parity_scheme) first_id 5 18 17 [] 0) 2
      first_header first_data (shard_header_bytes written_header)
      (length (shard_header_bytes written_header) + 2)
      (first_header-IsEncodable (keep first_data) refl) refl refl
      (omega (arith, length-append (shard_header_bytes written_header) first_data)) (omega arith)
