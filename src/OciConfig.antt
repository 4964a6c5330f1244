-- ===== src/OciConfig.antt =====
-- runtime/firecrackeroci and `OCIConfig` of internal/bundle/bundle.go: the annotation of a container's
-- specification that names its VM. Encoding and decoding are other packages'.
pub mod RoundTrip
use abschlussarbeit.Common.{
  String, Option, none, some, List, [], ◌∷◌, ◌≡◌, ◌≢◌, refl, arith, eq_iff, ◌==◌, if◌then◌else◌,
  Error, wrap, Result, ok, err,
}
use abschlussarbeit.Common.Assoc.{Assoc, lookup, insert}
use abschlussarbeit.Common.Bytes.{Bytes}
use abschlussarbeit.Bundle.{Dir, oci_config_path}

-- `VMIDAnnotationKey`
abbrev pub vm_id_annotation_key : String
vm_id_annotation_key = "aws.firecracker.vm.id"

-- The annotations of a specification; the map may be nil.
abbrev pub Annotations : Type 0
Annotations = Option (Assoc String)

abbrev pub map_of : Annotations → Assoc String
map_of none = []
map_of (some m) = m

-- Reading a Go map of strings, nil or not.
abbrev pub or_empty : Option String → String
or_empty none = ""
or_empty (some v) = v

-- `WithVMID`
unfoldable pub with_vm_id : String → Annotations → Annotations
with_vm_id vm_id a = some (insert vm_id_annotation_key vm_id (map_of a))

-- The loop of `WithVMNetwork` over containerd's options, each of which changes the specification.
unfoldable pub apply_opts : {Spec : Type 0} → List (Spec → Result Spec) → Spec → Result Spec
apply_opts [] spec = ok spec
apply_opts (opt ∷ opts) spec = elim (opt spec) [ ok spec' ↦ apply_opts opts spec' | err e ↦ err e ]

-- Reading a config.json: whether it can be opened, and what is decoded.
pub record ConfigFile : Type 0 where
  pub open_error : Bytes → Option Error
  pub decode : Bytes → Result Annotations

module _ (files : ConfigFile) where
  -- `File`
  abbrev pub opened : Option Error → Result (Unit {0})
  opened none = ok tt
  opened (some e) = err (wrap "failed to open OCI config file %s" e)

  unfoldable pub file : Bytes → Result (Unit {0})
  file path = opened (files.open_error path)

  abbrev pub annotated : Result Annotations → Result String
  annotated (ok a) = ok (or_empty (lookup vm_id_annotation_key (map_of a)))
  annotated (err e) = err (wrap "failed to parse Annotations section of OCI config file %s" e)

  abbrev pub after_file : Bytes → Result (Unit {0}) → Result String
  after_file path (ok _) = annotated (files.decode path)
  after_file path (err e) = err e

  -- `VMID`
  unfoldable pub vm_id : Dir → Result String
  unfolding file
  vm_id bundle = let path = oci_config_path bundle in after_file path (file path)
