-- ===== src/Mihon/Apk/Ends.antt =====
-- The loop over the chunks of rust/mihon/src/apk/manifest.rs ends.
use dion_runtime.Base.{
  ℕ, zero, suc, ◌+◌, ◌≤◌, ◌<◌, ◌≡◌, refl, arith, false, List, Result, ok, err, Result-cases, inl,
  inr, Bool-cases, length, ltb, ◌==◌, nat_eq,
}
use dion_runtime.Mihon.Apk.Cursor.{XmlError}
use dion_runtime.Mihon.Apk.Manifest.{
  Lossy, Parsed, start, on_chunk, after_header, with_header, read_header, parse_chunks,
  after_file_header, read_file_header, parse_with, parse,
}

module _ (l : Lossy) (bytes : List ℕ) where
  -- The loop goes on behind the chunk only.
  after_header_ext :
      (f g : ℕ → Parsed → Result XmlError Parsed) (chunk_start : ℕ) (s : Parsed) (header : ℕ × ℕ)
      (position : ℕ)
      → ((p : ℕ) (s' : Parsed) → chunk_start < p → f p s' ≡ g p s')
      → after_header l bytes f chunk_start s header position
        ≡ after_header l bytes g chunk_start s header position
  after_header_ext f g chunk_start s (kind, size) position same = elim (Bool-cases (size == 0)) [
    | inl empty ↦ rw empty refl
    | inr filled ↦ elim (Result-cases (on_chunk l bytes kind chunk_start s position).0) [
      | inr (e, h) ↦ rw (filled, h) refl
      | inl (s', h) ↦ rw (filled, h) (same (chunk_start + size) s' (ground (arith, filled)))
    ]
  ]

  with_header_ext :
      (f g : ℕ → Parsed → Result XmlError Parsed) (chunk_start : ℕ) (s : Parsed)
      (r : Result XmlError (ℕ × ℕ) × ℕ)
      → ((p : ℕ) (s' : Parsed) → chunk_start < p → f p s' ≡ g p s')
      → with_header l bytes f chunk_start s r ≡ with_header l bytes g chunk_start s r
  with_header_ext f g chunk_start s (ok header, position) same =
      after_header_ext f g chunk_start s header position same
  with_header_ext f g chunk_start s (err e, position) same = refl

  parse_chunks_enough :
      (fuel more position : ℕ) (s : Parsed)
      → fuel ≤ more
      → length bytes ≤ fuel + position
      → parse_chunks l bytes (suc more) position s ≡ parse_chunks l bytes (suc fuel) position s
  unfolding parse_chunks
  parse_chunks_enough zero more position s h k =
      let done : ltb position (length bytes) ≡ false = ground arith in rw done refl
  parse_chunks_enough (suc fuel) zero position s h k = absurd (omega arith)
  parse_chunks_enough (suc fuel) (suc more) position s h k =
      elim (Bool-cases (ltb position (length bytes))) [
        | inr done ↦ rw done refl
        | inl inside ↦ rw inside (
            with_header_ext (parse_chunks l bytes (suc more)) (parse_chunks l bytes (suc fuel))
              position s (read_header l bytes position)
              λ p s' later. parse_chunks_enough fuel more p s' (omega arith) (omega arith))
      ]

  after_file_header_ext :
      (f g : ℕ → Parsed → Result XmlError Parsed) (r : Result XmlError (List ℕ) × ℕ)
      → ((p : ℕ) → f p (start l bytes) ≡ g p (start l bytes))
      → after_file_header l bytes f r ≡ after_file_header l bytes g r
  after_file_header_ext f g (ok h, position) same = rw (same position) refl
  after_file_header_ext f g (err e, position) same = refl

  -- Any fuel above the number of bytes gives the same document or the same error.
  pub parse_enough : (fuel : ℕ) → length bytes < fuel → parse_with l bytes fuel ≡ parse l bytes
  unfolding parse parse_with
  parse_enough zero h = absurd (omega arith)
  parse_enough (suc fuel) h =
      after_file_header_ext (parse_chunks l bytes (suc fuel))
        (parse_chunks l bytes (suc (length bytes))) (read_file_header l bytes 0)
        λ p. parse_chunks_enough (length bytes) fuel p (start l bytes) (omega arith) (omega arith)
