-- ===== src/Metadata/Paths.antt =====
-- Which of the two files decides the instance's metadata.
use nobus_csi.Common.{◌≡◌, refl, String, Option, none, ◌==◌, Bool-cases, inl, inr}
use nobus_csi.Metadata.{
  Failure, Outcome, done, failed, Files, Instance, CloudInitData, instance_of, of_decoded,
  of_opened, read_path, after_path, read_paths, read_cloud_init, first_path, unless_done,
}

of_decoded-after_path :
    (d : Outcome CloudInitData) (rest : Outcome Instance)
    → after_path (of_decoded d) rest ≡ of_decoded d
unfolding of_decoded after_path
of_decoded-after_path (failed e) rest = refl
of_decoded-after_path (done d) rest = elim (Bool-cases ((instance_of d).id == "")) [
  | inl e ↦ rw e refl
  | inr n ↦ rw n refl
]

of_opened-after_path :
    (o : Outcome (Outcome CloudInitData)) (rest : Outcome Instance)
    → after_path (of_opened o) rest ≡ of_opened o
unfolding of_opened after_path
of_opened-after_path (failed e) rest = refl
of_opened-after_path (done d) rest = of_decoded-after_path d rest

-- Where the context is not done at the start, the answer is that of the first file, whatever the
-- second file holds: every error that reading the first file gives is wrapped, so that it never
-- counts as a missing file, and the second path is not tried.
pub read_cloud_init-first :
    (ctx : String → Option Failure) (files : Files)
    → ctx first_path ≡ none
    → read_cloud_init ctx files ≡ read_path files first_path
unfolding read_cloud_init read_paths read_path unless_done
read_cloud_init-first ctx files h = rw h (of_opened-after_path (files first_path) _)
