-- ===== src/Examples/Requests.antt =====
-- Requests to an agent that acknowledges each, as the client has them decoded.
use wsldrive.Prelude.{◌%◌, ◌^◌, bytes_eq, ℕ, [], ◌∷◌, ◌++◌, ◌+◌, false, Bytes, ◌==◌, if◌then◌else◌}
use wsldrive.Prelude.Int.{pos}
use wsldrive.Types.{directory, Result, ok, Attributes, file}
use wsldrive.Protocol.Header.{MsgType}
use wsldrive.Protocol.MsgTypes
use wsldrive.Protocol.Messages.{write_attributes}
use wsldrive.Protocol.Requests.{
  MutationAck, WriteResponse, write_create_request, write_write_request, write_truncate_request,
  write_mkdir_request, write_path_request, read_mutation_ack, read_write_response,
  write_mutation_ack, write_write_response,
}
use wsldrive.Tree.{empty_tree}
use wsldrive.Tree.Mutate.{upsert_path, remove_path}
use wsldrive.Tree.Lookup.{exactly, lookup}
use wsldrive.Client.Cache.{empty_cache, under}
use wsldrive.Client.Cache.Reach.{empty_cache-IsCache}
use wsldrive.Client.Requests.{
  ask, read_created, written_tree, truncated_tree, Reply, Client, create_file, write, truncate,
  mkdir, unlink, rmdir,
}
use wsldrive.Client.Requests.Atomic.{IsMutated, Outcome, nothing, requests-IsMutated}

abbrev p : Bytes
p = b'd' ∷ []

abbrev attr : Attributes
attr = record { size = 0; mtime_ns = pos 4; mode = 420; kind = file }

-- Every request gets the next generation.
abbrev exchange : MsgType → Bytes → ℕ → Result Reply × ℕ
exchange type payload n =
    if type == MsgTypes.create_request
    then (
      ok (record {
        type = MsgTypes.create_response;
        payload = write_attributes attr ++ write_mutation_ack (record { generation = n });
      }),
      n + 1,
    )
    else if type == MsgTypes.write_request
    then (
      ok (record {
        type = MsgTypes.write_response;
        payload = write_write_response (record { written = 2; generation = n });
      }),
      n + 1,
    )
    else (
      ok (record {
        type = MsgTypes.success;
        payload = write_mutation_ack (record { generation = n });
      }),
      n + 1,
    )

abbrev client : Client ℕ
client = record {
  connection = 5;
  mirror = record {
    tree = empty_tree;
    mode = exactly;
    mutations = [];
    in_flight = false;
    replay = [];
    is_overflow = false;
    cache = empty_cache;
    seen_dirs = [];
    is_requested = false;
    generation = 0;
    batches = 0;
    ops = 0;
  };
}

requests-IsMutated_example :
    Outcome
      (ask exchange MsgTypes.create_request
        (write_create_request (record { path = p; mode = 420 }))
        MsgTypes.create_response
        read_created
        5).0
      (λ (a : Attributes × MutationAck).
        IsMutated p nothing a.1.generation (upsert_path empty_tree p a.0).1 client.mirror)
      client.mirror
      (create_file exchange p 420 client)
    × Outcome
        (ask exchange MsgTypes.write_request
          (write_write_request (record { path = p; offset = 3; contents = 1 ∷ 2 ∷ [] }))
          MsgTypes.write_response
          read_write_response
          5).0
        (λ (a : WriteResponse).
          IsMutated p
            (bytes_eq p)
            a.generation
            (written_tree
              (pos 9)
              p
              ((3 + a.written) % 2 ^ 64)
              (lookup empty_tree p exactly)
              empty_tree)
            client.mirror)
        client.mirror
        (write exchange (pos 9) p 3 (1 ∷ 2 ∷ []) client)
    × Outcome
        (ask exchange MsgTypes.truncate_request
          (write_truncate_request (record { path = p; size = 3 }))
          MsgTypes.success
          read_mutation_ack
          5).0
        (λ (a : MutationAck).
          IsMutated p
            (bytes_eq p)
            a.generation
            (truncated_tree (pos 9) 3 (lookup empty_tree p exactly) empty_tree)
            client.mirror)
        client.mirror
        (truncate exchange (pos 9) p 3 client)
    × Outcome
        (ask exchange MsgTypes.mkdir_request
          (write_mkdir_request (record { path = p; mode = 420 }))
          MsgTypes.success
          read_mutation_ack
          5).0
        (λ (a : MutationAck).
          IsMutated p nothing a.generation
            (upsert_path empty_tree p
              (record { size = 0; mtime_ns = pos 0; mode = 420; kind = directory })).1
            client.mirror)
        client.mirror
        (mkdir exchange p 420 client)
    × Outcome
        (ask exchange MsgTypes.unlink_request
          (write_path_request (record { path = p }))
          MsgTypes.success
          read_mutation_ack
          5).0
        (λ (a : MutationAck).
          IsMutated p (bytes_eq p) a.generation (remove_path empty_tree p exactly).1 client.mirror)
        client.mirror
        (unlink exchange p client)
    × Outcome
        (ask exchange MsgTypes.rmdir_request
          (write_path_request (record { path = p }))
          MsgTypes.success
          read_mutation_ack
          5).0
        (λ (a : MutationAck).
          IsMutated p (under p) a.generation (remove_path empty_tree p exactly).1 client.mirror)
        client.mirror
        (rmdir exchange p client)
requests-IsMutated_example =
    requests-IsMutated exchange (pos 9) p 420 3 (1 ∷ 2 ∷ []) client empty_cache-IsCache
