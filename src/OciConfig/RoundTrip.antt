-- ===== src/OciConfig/RoundTrip.antt =====
-- runtime/firecrackeroci and internal/bundle/bundle.go: the VM that `WithVMID` names is the one that
-- `VMID` finds.
use abschlussarbeit.Common.{
  String, none, ◌≡◌, ◌≢◌, refl, sym, ap, ◌∙◌, eq_iff, ◌==◌, Bool-cases, inl, inr, ok,
}
use abschlussarbeit.Common.Assoc.{lookup, lookup-insert}
use abschlussarbeit.Bundle.{Dir, oci_config_path}
use abschlussarbeit.OciConfig.{
  vm_id_annotation_key, Annotations, map_of, or_empty, with_vm_id, ConfigFile, vm_id, file,
}

-- What `WithVMID` writes, `VMID` reads, from a config.json that has the annotations; and the other
-- annotations are as they were.
pub vm_id-with_vm_id :
    (files : ConfigFile) (bundle : Dir) (id : String) (a : Annotations)
    → files.open_error (oci_config_path bundle) ≡ none
    → files.decode (oci_config_path bundle) ≡ ok (with_vm_id id a)
    → (vm_id files bundle ≡ ok id)
      × ((key : String)
          → key ≢ vm_id_annotation_key
          → lookup key (map_of (with_vm_id id a)) ≡ lookup key (map_of a))
unfolding vm_id file with_vm_id
vm_id-with_vm_id files bundle id a opens decoded = (
  rw (opens, decoded)
      (ap (λ o. ok (or_empty o))
        (lookup-insert vm_id_annotation_key vm_id_annotation_key id (map_of a))),
  λ key other.
      lookup-insert vm_id_annotation_key key id (map_of a)
      ∙ elim (Bool-cases (vm_id_annotation_key == key)) [
        | inl same ↦ absurd (other (sym ((eq_iff vm_id_annotation_key key).0 same)))
        | inr apart ↦ rw apart refl
      ],
)
