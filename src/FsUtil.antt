-- ===== src/FsUtil.antt =====
-- internal/fsutil.go: the lines of /proc/mounts. `fmt.Sscanf` is an argument.
use abschlussarbeit.Common.{List, [], ◌∷◌, if◌then◌else◌, wrap, Result, ok, err}
use abschlussarbeit.Common.Bytes.{Bytes, bytes_eq}
use abschlussarbeit.Common.Split.{split_on}

-- `MountInfo`
pub record MountInfo : Type 0 where
  pub source_path : Bytes
  pub dest_path : Bytes
  pub kind : Bytes
  pub options : List Bytes

-- The four fields of a line that are kept.
pub record Fields : Type 0 where
  pub source : Bytes
  pub dest : Bytes
  pub fstype : Bytes
  pub options : Bytes

abbrev pub info_of : Fields → MountInfo
info_of f = record {
  source_path = f.source;
  dest_path = f.dest;
  kind = f.fstype;
  options = split_on b',' f.options;
}

abbrev pub with_info : Result Fields → Result (List MountInfo) → Result (List MountInfo)
with_info (err e) rest = err (wrap "failed to parse /proc/mount line %q" e)
with_info (ok f) (ok infos) = ok (info_of f ∷ infos)
with_info (ok f) (err e) = err e

-- `ParseProcMountLines`: empty lines are skipped, and the first bad line ends it.
unfoldable pub parse_proc_mount_lines :
    (Bytes → Result Fields) → List Bytes → Result (List MountInfo)
parse_proc_mount_lines scan [] = ok []
parse_proc_mount_lines scan (line ∷ lines) =
    let rest = parse_proc_mount_lines scan lines in
    let here = with_info (scan line) rest in if bytes_eq line [] then rest else here
