-- ===== src/Sync/Writer/Managed.antt =====
-- internal/sync/writer.go: what a Secret that kvsynk8s manages looks like, and when one may be
-- written.
use kvsynk8s.Base.{
  String, Bool, true, false, ◌||◌, Option, none, some, [], ◌∷◌, lookup, put, get, str_eq, length,
  ◌==◌, if◌then◌else◌,
}
use kvsynk8s.Api.{SecretSync, Secret}
use kvsynk8s.Kube.{Kube}

abbrev pub label_managed_by : String
label_managed_by = "app.kubernetes.io/managed-by"

abbrev pub label_managed_by_value : String
label_managed_by_value = "kvsynk8s"

abbrev pub annotation_vault : String
annotation_vault = "kvsynk8s.io/vault"

abbrev pub annotation_secret : String
annotation_secret = "kvsynk8s.io/secret"

abbrev pub annotation_version : String
annotation_version = "kvsynk8s.io/version"

-- `secret.Labels[LabelManagedBy] == LabelManagedByValue`
unfoldable pub labeled : Secret → Bool
labeled secret = str_eq (get label_managed_by secret.labels) label_managed_by_value

unfoldable pub controller_owned_by : Kube → Secret → SecretSync → Bool
controller_owned_by k secret owner = elim (k.get_controller_of secret.owner_references) [
  | none ↦ false
  | some ref ↦ str_eq ref.uid owner.uid
]

unfoldable pub writable : Kube → Secret → SecretSync → Bool
writable k secret owner = labeled secret || controller_owned_by k secret owner

unfoldable pub populate_managed_secret : Secret → SecretSync → String → String → String → Secret
populate_managed_secret secret owner data_key value version = record secret {
  kind = "Opaque";
  labels = put label_managed_by label_managed_by_value secret.labels;
  annotations = put annotation_version version (
      put annotation_secret owner.spec.vault.secret
        (put annotation_vault owner.spec.vault.name secret.annotations));
  contents = (data_key, value) ∷ [];
}

abbrev holds : Option String → String → Bool
holds none value = false
holds (some got) value = str_eq got value

unfoldable pub managed_secret_data_matches : Secret → String → String → Bool
managed_secret_data_matches secret data_key value =
    if length secret.contents == 1 then holds (lookup data_key secret.contents) value else false

-- `secret.Immutable != nil && *secret.Immutable`
abbrev pub frozen : Option Bool → Bool
frozen none = false
frozen (some b) = b

unfoldable pub immutable_blocks_write : Secret → String → String → Bool
immutable_blocks_write secret data_key value =
    if frozen secret.immutable
    then (if managed_secret_data_matches secret data_key value then false else true)
    else false

-- `&corev1.Secret{ObjectMeta: {Name, Namespace}}`
unfoldable pub new_secret : String → String → Secret
new_secret namespace name = record {
  namespace = namespace;
  name = name;
  resource_version = "";
  labels = [];
  annotations = [];
  owner_references = [];
  kind = "";
  immutable = none;
  contents = [];
}
