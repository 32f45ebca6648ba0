-- ===== src/Examples/Writer.antt =====
-- The writer's theorems on the example cluster.
use kvsynk8s.Base.{◌≡◌, refl, true, false, some, none, [], ◌∷◌, get, lookup}
use kvsynk8s.Api.{Secret}
use kvsynk8s.Sync.Writer.{
  write_target, labeled, update, apply_update, SecretWriter, populate_managed_secret, writable,
  managed_secret_data_matches, immutable_blocks_write, annotation_vault, annotation_secret,
  annotation_version, create_or_update,
}
use kvsynk8s.Sync.Writer.Shape.{populate_round_trip}
use kvsynk8s.Sync.Writer.Trace.{traced_writer, start}
use kvsynk8s.Sync.Writer.Right.{AllRight, Written}
use kvsynk8s.Sync.Writer.Safety.{create_or_update-AllRight}
use kvsynk8s.Sync.Engine.{sync_data_key}
use kvsynk8s.Sync.Convergence.{Settles, create_or_update_ok-Settles}
use kvsynk8s.Examples.{owner, foreign, kube, kube_laws, Cluster, client}

abbrev writer : SecretWriter Cluster
writer = record { client = some client; reader = none }

-- a Secret with the label, which is written over
abbrev labeled_one : Secret
labeled_one = record foreign { labels = ("app.kubernetes.io/managed-by", "kvsynk8s") ∷ [] }

create_or_update-AllRight_example :
    let p =
      create_or_update kube
        (traced_writer writer)
        owner
        "apps"
        "db"
        "db-password"
        "s3cret"
        "v1"
        (start (labeled_one ∷ [])) in
    AllRight kube owner "apps" "db" "db-password" "s3cret" "v1" p.1.calls × Written p.0 p.1.calls
create_or_update-AllRight_example =
    create_or_update-AllRight kube owner "apps" "db" "db-password" "s3cret" "v1" writer
      (labeled_one ∷ [])

populate_round_trip_example :
    let filled = populate_managed_secret foreign owner "db-password" "s3cret" "v1" in
    (writable kube filled owner ≡ true)
    × (managed_secret_data_matches filled "db-password" "s3cret" ≡ true)
    × (immutable_blocks_write filled "db-password" "s3cret" ≡ false)
    × (get annotation_vault filled.annotations ≡ "prod")
    × (get annotation_secret filled.annotations ≡ "db-password")
    × (get annotation_version filled.annotations ≡ "v1")
populate_round_trip_example = populate_round_trip foreign owner "db-password" "s3cret" "v1" kube

create_or_update_ok-Settles_example :
    Settles kube kube_laws owner "apps" "db" "s3cret" "v1"
      (create_or_update kube
        (traced_writer writer)
        owner
        "apps"
        "db"
        (sync_data_key owner)
        "s3cret"
        "v1"
        (start (labeled_one ∷ []))).1.calls
unfolding create_or_update write_target writable labeled get lookup update apply_update
    immutable_blocks_write populate_managed_secret
create_or_update_ok-Settles_example =
    create_or_update_ok-Settles kube kube_laws owner "apps" "db" "s3cret" "v1" writer
      (labeled_one ∷ []) refl
