-- ===== src/Examples/Concurrency.antt =====
-- The writer's theorem on other writers, on the example server.
use mathlib.Core.List.{Memᴰ}
use kvsynk8s.Base.{refl, true, some, [], ◌∷◌, get, lookup, List}
use kvsynk8s.Errors.{errors_is}
use kvsynk8s.Api.{Secret}
use kvsynk8s.Sync.Writer.{
  create_or_update, writer_reader, writable, labeled, immutable_blocks_write,
  populate_managed_secret, write_target, update, apply_update, recover_conflict, fresh_copy,
}
use kvsynk8s.Sync.Writer.Trace.{traced_writer, start}
use kvsynk8s.Sync.Writer.Concurrency.{Replaceable, replaced-Replaceable}
use kvsynk8s.Examples.{owner, kube}
use kvsynk8s.Examples.ApiServer.{Etcd, etcd, etcd_reader, etcd_server, labeled_one, version_of}

-- a labeled Secret is stored, and will be stored again before the first update is served
abbrev before : Etcd
before = record { past = labeled_one ∷ []; replaced = []; meddled = true }

abbrev first_of : List (Secret × Secret) → Secret × Secret
first_of [] = (labeled_one, labeled_one)
first_of (p ∷ ps) = p

abbrev pair : Secret × Secret
pair =
    first_of
      (create_or_update kube
        (traced_writer (record { client = some etcd; reader = some etcd_reader })) owner "apps" "db"
        "db-password" "s3cret" "v1" (start before)).1.world.replaced

replaced-Replaceable_example :
    Replaceable kube owner "apps" "db" "db-password" "s3cret" "v1" pair.0 pair.1
unfolding create_or_update writer_reader etcd_server write_target writable labeled get lookup update
    apply_update immutable_blocks_write populate_managed_secret version_of errors_is
    recover_conflict fresh_copy
replaced-Replaceable_example =
    replaced-Replaceable kube owner "apps" "db" "db-password" "s3cret" "v1" etcd (some etcd_reader)
      etcd_server before pair.0 pair.1 refl (Memᴰ.head refl)
