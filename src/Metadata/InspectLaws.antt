-- ===== src/Metadata/InspectLaws.antt =====
-- The two ways to inspect an archive agree.
use dion_runtime.Base.{
  ◌≡◌, ap, Option, Text, ok, inl, inr, Option-cases, Result-cases, ok_injective,
}
use dion_runtime.Metadata.Types.{FormatKind}
use dion_runtime.Metadata.Detect.{detect}
use dion_runtime.Metadata.Inspect.{
  Parsers, MetadataArchive, inspect, inspect_kind, open_kind, open_archive, inspect_archive,
}

module _ (p : Parsers) where
  open_kind-inspect :
      (bytes : Text) (kind : FormatKind) (a : MetadataArchive p)
      → open_kind p bytes kind ≡ ok a
      → inspect_kind p bytes kind ≡ inspect_archive p a
  unfolding inspect_archive
  open_kind-inspect bytes FormatKind.epub a h = elim (Result-cases (p.epub_read bytes)) [
    | inl (e, r) ↦ rw r (ap (inspect_archive p) (ok_injective (rw r at h)))
    | inr (c, r) ↦ absurd (cc (rw r at h))
  ]
  open_kind-inspect bytes FormatKind.zip a h = elim (Result-cases (p.zip_open bytes)) [
    | inl (z, r) ↦ rw r (ap (inspect_archive p) (ok_injective (rw r at h)))
    | inr (c, r) ↦ absurd (cc (rw r at h))
  ]
  open_kind-inspect bytes FormatKind.rar a h = elim (Result-cases (p.unrar.stage bytes)) [
    | inl (s, r) ↦ rw r (ap (inspect_archive p) (ok_injective (rw r at h)))
    | inr (c, r) ↦ absurd (cc (rw r at h))
  ]
  open_kind-inspect bytes FormatKind.pdf a h = absurd (cc h)
  open_kind-inspect bytes FormatKind.mp4 a h = absurd (cc h)
  open_kind-inspect bytes FormatKind.audio a h = absurd (cc h)

  -- Where an archive opens, inspecting the opened archive gives what inspecting its bytes gives.
  pub inspect-open :
      (bytes : Text) (hint : Option Text) (a : MetadataArchive p)
      → open_archive p bytes hint ≡ ok a
      → inspect p bytes hint ≡ inspect_archive p a
  unfolding inspect open_archive
  inspect-open bytes hint a h = elim (Option-cases (detect p.zip_text bytes hint)) [
    | inl unknown ↦ let refused = rw unknown at h in absurd (cc refused)
    | inr (kind, e) ↦ rw e (open_kind-inspect bytes kind a (rw e at h))
  ]
